-- ===== src/Watch.antt =====
-- The threads that look after the connection and the time: `softtimer` and `sntp_get_time` of
-- Core/empty.c, and `test_wifi` of Core/test_wifi_user.c. What `test_wifi_connection` gives is an
-- argument.
pub mod Seconds
pub mod Words
pub mod Reconnection
pub mod Supervising
use plhr_firmware.Common.{
  ℕ, zero, suc, ◌+◌, ◌-◌, ◌%◌, ◌^◌, Option, none, some, List, [], ◌∷◌, ◌==◌, if◌then◌else◌,
}

abbrev pub seconds_to_ntp_sync : ℕ
seconds_to_ntp_sync = 1800

abbrev pub seconds_to_send_rssi : ℕ
seconds_to_send_rssi = 4

-- `sntp_get_time`: the time that `SNTP_getTimeByAddr` gives, or none where it fails. It then sets
-- the clock to zero.
pub sntp_get_time : Option ℕ → ℕ
sntp_get_time none = 0
sntp_get_time (some time_stamp) = time_stamp

-- The state of `softtimer`, the two words that it shares, and what it has called.
pub record SoftTimer : Type 0 where
  pub cnt : ℕ  -- int64_t cnt_softtimer_thread
  pub ntp_time : ℕ
  pub time_sync_status : ℕ  -- uint64_t
  pub rssi_sent : ℕ
  pub synchronisations : ℕ

-- The branch that sends the signal strength.
pub rssi_step : ℕ → SoftTimer → SoftTimer
rssi_step wifi_status t =
    if t.cnt % seconds_to_send_rssi == 0
    then (if wifi_status == 0 then record t { rssi_sent = t.rssi_sent + 1 } else t)
    else t

-- The branch that asks for the time. The size of a pointer, 4 bytes, is copied to the flag.
pub sntp_step : Option ℕ → SoftTimer → SoftTimer
unfolding sntp_get_time
sntp_step answer t =
    if t.cnt % seconds_to_ntp_sync == 0
    then record t {
      ntp_time = sntp_get_time answer;
      time_sync_status = t.time_sync_status - t.time_sync_status % 2 ^ 32 + 1;
      synchronisations = t.synchronisations + 1;
    }
    else t

-- One round of the loop of `softtimer`.
pub softtimer_round : ℕ → Option ℕ → SoftTimer → SoftTimer
unfolding rssi_step sntp_step
softtimer_round wifi_status answer t =
    let u = sntp_step answer (rssi_step wifi_status t) in record u { cnt = u.cnt + 1 }

-- `send_data_status` as `test_wifi` writes it, 0 for `stop` and 1 for `start`, and how often it has
-- called `wifi_connect`.
pub record WifiWatch : Type 0 where
  pub send_data : ℕ
  pub reconnections : ℕ

-- The loop that connects again until `test_wifi_connection` differs from `disconnected`; the list
-- holds what the calls give. None where the list ends before.
pub reconnect : WifiWatch → List ℕ → Option (WifiWatch × List ℕ)
reconnect w [] = none
reconnect w (zero ∷ reads) = reconnect (record w { reconnections = w.reconnections + 1 }) reads
reconnect w (suc status ∷ reads) = some (record w { reconnections = w.reconnections + 1 }, reads)

-- One round of the loop of `test_wifi`.
pub test_wifi_round : WifiWatch → List ℕ → Option (WifiWatch × List ℕ)
unfolding reconnect
test_wifi_round w [] = none
test_wifi_round w (zero ∷ reads) = reconnect (record w { send_data = 0 }) reads
test_wifi_round w (suc zero ∷ reads) = some (record w { send_data = 1 }, reads)
test_wifi_round w (suc (suc status) ∷ reads) = some (w, reads)
