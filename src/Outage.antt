-- ===== src/Outage.antt =====
-- `send_data` of Core/mqtt_user.c and `test_wifi` of Core/test_wifi_user.c over the word that they
-- share, `send_data_status`, with `thread_downsampling` of Core/dws_user.c and the watchdog that
-- `send_data` opens: the actions of the threads in any order, each with the answer that it is
-- given. The driver of the watchdog is taken to call its callback once the time that it was given
-- has passed without a clear, and to have been opened and given `WATCHDOG_TIMER`. When a round of
-- the downsampling thread comes is left open.
pub mod Keeping
pub mod Stopped
pub mod Silence
use plhr_firmware.Common.{
  ℕ, zero, suc, ◌+◌, Bool, true, false, Option, none, some, List, [], ◌∷◌, ltb, leb, if◌then◌else◌,
  ℤ, is_neg,
}
use plhr_firmware.Downsampling.{Args, Shared, Dws, Input, start, iteration, modify_message}
use plhr_firmware.Sending.{Sender, first_message, write_header, publish_message}
use plhr_firmware.Watch.{WifiWatch}

-- Where `send_data` is: at its pend, in the loop that reads `send_data_status`, or behind a read
-- that gave `start`.
pub data Phase : Type 0 where
  pending waiting publishing : Phase

pub record Uplink : Type 0 where
  pub watch : WifiWatch  -- with `send_data_status`
  pub reconnecting : Bool  -- `test_wifi` is in its inner loop
  pub dws : Dws  -- the downsampling thread, with the messages and its posts for the sender
  pub shared : Shared  -- what it shares with the soft timer
  pub pends : ℕ  -- pends of `send_data` that have come back
  pub phase : Phase
  pub sender : Sender
  pub unfed_ms : ℕ  -- since the watchdog was opened or cleared
  pub halted : Bool  -- the watchdog has called `watchdog_callback`, which never returns

-- What the threads have when they are created and the watchdog is open: `mainThread` has set
-- `send_data_status` to `stop`.
abbrev pub at_creation : Uplink
at_creation = record {
  watch = record { send_data = 0; reconnections = 0 };
  reconnecting = false;
  dws = start;
  shared = record { status_time_sync = 0; sntp_time = 0 };
  pends = 0;
  phase = pending;
  sender = first_message;
  unfed_ms = 0;
  halted = false;
}

-- `WATCHDOG_TIMER`, in milliseconds.
abbrev pub watchdog_timer : ℕ
watchdog_timer = 12000

pub data Action : Type 0 where
  -- A round of the downsampling thread, with what the outside gives it; the soft timer sets the
  -- words that it shares with it.
  downsamples : Input → Action
  time_comes : Shared → Action
  -- `test_wifi` checks the connection, and calls `wifi_connect` and checks; with the status.
  checks : ℕ → Action
  connects : ℕ → Action
  -- `send_data` comes back from its pend, reads, and publishes with the code of `mqtt_publish`.
  takes : Action
  reads : Action
  publishes : ℤ → Action
  -- Milliseconds pass.
  passes : ℕ → Action

-- The `switch` up to the inner loop.
unfoldable pub check : ℕ → Uplink → Uplink
check zero u = record u { watch = record u.watch { send_data = 0 }; reconnecting = true }
check (suc zero) u = record u { watch = record u.watch { send_data = 1 } }
check (suc (suc status)) u = u

-- A round of the inner loop.
unfoldable pub connect_again : ℕ → Uplink → Uplink
connect_again status u = record u {
  watch = record u.watch { reconnections = u.watch.reconnections + 1 };
  reconnecting = elim status [ zero ↦ true | suc _ ↦ false ];
}

-- From the pend to the loop that reads.
unfoldable pub take_up : ℕ → Uplink → Uplink
take_up id_device u = record u {
  pends = u.pends + 1;
  phase = waiting;
  dws = record u.dws {
    messages =
        modify_message u.sender.n_msg (write_header id_device u.sender.msg_data_id) u.dws.messages;
  };
}

-- One read, of `stop` or of another value.
unfoldable pub read_status : Uplink → Uplink
read_status u = record u { phase = elim u.watch.send_data [ zero ↦ waiting | suc _ ↦ publishing ] }

-- The publication; where `mqtt_publish` succeeds the watchdog is cleared.
unfoldable pub publish : ℤ → Uplink → Uplink
publish answer u = record u {
  phase = pending;
  sender = (publish_message answer (u.sender, u.dws.messages)).0;
  unfed_ms = if is_neg answer then u.unfed_ms else 0;
}

-- The watchdog counts, and after its time without a clear calls `watchdog_callback`.
unfoldable pub pass_time : ℕ → Uplink → Uplink
pass_time ms u = record u {
  unfed_ms = u.unfed_ms + ms;
  halted = leb watchdog_timer (u.unfed_ms + ms);
}

-- An action of `send_data` where it is in one phase; none where it is in another.
unfoldable pub when_pending : Phase → Option Uplink → Option Uplink
when_pending pending next = next
when_pending waiting next = none
when_pending publishing next = none

unfoldable pub when_waiting : Phase → Option Uplink → Option Uplink
when_waiting pending next = none
when_waiting waiting next = next
when_waiting publishing next = none

unfoldable pub when_publishing : Phase → Option Uplink → Option Uplink
when_publishing pending next = none
when_publishing waiting next = none
when_publishing publishing next = next

module _ (to_nanoseconds : ℕ → ℕ) (a : Args) (id_device : ℕ) where
  -- An action, none where the thread is at another place.
  unfoldable pub perform : Action → Uplink → Option Uplink
  unfolding check connect_again take_up read_status publish pass_time when_pending when_waiting
      when_publishing
  perform (downsamples i) u =
      let (d, s) = iteration to_nanoseconds a i (u.dws, u.shared) in
      some (record u { dws = d; shared = s })
  perform (time_comes s) u = some (record u { shared = s })
  perform (checks status) u = if u.reconnecting then none else some (check status u)
  perform (connects status) u = if u.reconnecting then some (connect_again status u) else none
  perform takes u =
      when_pending u.phase
        (if ltb u.pends u.dws.mqtt_posts then some (take_up id_device u) else none)
  perform reads u = when_waiting u.phase (some (read_status u))
  perform (publishes answer) u = when_publishing u.phase (some (publish answer u))
  perform (passes ms) u = some (pass_time ms u)

  -- Nothing is done any more once the watchdog's callback has been called.
  unfoldable pub act : Action → Uplink → Option Uplink
  unfolding perform
  act x u = if u.halted then none else perform x u

  -- The actions of a list, none where one of them is not possible.
  unfoldable pub run : List Action → Uplink → Option Uplink
  unfolding act
  run [] u = some u
  run (x ∷ later) u = elim (act x u) [ none ↦ none | some v ↦ run later v ]
