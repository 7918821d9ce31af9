-- ===== src/Watch/Words.antt =====
-- What a round of `softtimer` does to the two words that it shares with `thread_downsampling`.
use plhr_firmware.Common.{ℕ, ◌%◌, ◌^◌, ◌<◌, ◌≡◌, ◌≢◌, Option, arith}
use plhr_firmware.Watch.{SoftTimer, sntp_get_time, rssi_step, sntp_step, softtimer_round}

module _ (wifi : ℕ) (answer : Option ℕ) (t : SoftTimer) where
  -- The signal strength does not touch them, nor the counter.
  rssi_step-words :
      ((rssi_step wifi t).cnt ≡ t.cnt)
      × ((rssi_step wifi t).ntp_time ≡ t.ntp_time)
      × ((rssi_step wifi t).time_sync_status ≡ t.time_sync_status)
  unfolding rssi_step
  rssi_step-words = ground arith

  pub words_kept :
      t.cnt % 1800 ≢ 0
      → ((softtimer_round wifi answer t).ntp_time ≡ t.ntp_time)
        × ((softtimer_round wifi answer t).time_sync_status ≡ t.time_sync_status)
  unfolding softtimer_round sntp_step
  words_kept ne = let (c, n, s) = rssi_step-words in ground (arith, c, n, s)

  pub words_taken :
      t.cnt % 1800 ≡ 0
      → t.time_sync_status < 2 ^ 32
      → ((softtimer_round wifi answer t).ntp_time ≡ sntp_get_time answer)
        × ((softtimer_round wifi answer t).time_sync_status ≡ 1)
  unfolding softtimer_round sntp_step
  words_taken e small = let (c, n, s) = rssi_step-words in ground (arith, c, n, s)
