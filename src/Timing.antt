-- ===== src/Timing.antt =====
-- `softtimer` of Core/empty.c and `thread_downsampling` of Core/dws_user.c over the two words that
-- they share, `sntp_time` and `status_time_sync`: some seconds of the first pass before each round
-- of the second.
pub mod Stamped
use plhr_firmware.Common.{ℕ, zero, suc, ◌+◌, Option}
use plhr_firmware.Downsampling.{Args, Shared, Dws, Input, start, rounds}
use plhr_firmware.Watch.{softtimer_round}

-- Second `cnt` of `softtimer`, on the shared words.
pub tick : ℕ → ℕ → Option ℕ → Shared → Shared
tick cnt wifi answer s =
    let t = softtimer_round wifi answer (record {
      cnt = cnt;
      ntp_time = s.sntp_time;
      time_sync_status = s.status_time_sync;
      rssi_sent = 0;
      synchronisations = 0;
    }) in
    record { status_time_sync = t.time_sync_status; sntp_time = t.ntp_time }

-- The seconds that have passed before the pause in front of round `k`, where `pauses k` are those
-- of the pause.
abbrev pub begun : (ℕ → ℕ) → ℕ → ℕ
begun pauses zero = 0
begun pauses (suc k) = begun pauses k + pauses k

module _ (wifi : ℕ → ℕ) (answers : ℕ → Option ℕ) where
  -- `n` seconds from second `from` on.
  pub ticks : ℕ → ℕ → Shared → Shared
  unfolding tick
  ticks from zero s = s
  ticks from (suc n) s = tick (from + n) (wifi (from + n)) (answers (from + n)) (ticks from n s)

  -- `n` rounds of the downsampling thread, with the seconds of the pauses; `mainThread` clears the
  -- flag before both threads start.
  pub timed_rounds : (ℕ → ℕ) → Args → (ℕ → Input) → (ℕ → ℕ) → ℕ → ℕ → Dws × Shared
  unfolding ticks
  timed_rounds to_nanoseconds a inputs pauses sntp_time n =
      rounds to_nanoseconds a inputs (λ k. ticks (begun pauses k) (pauses k)) n
        (start, record { status_time_sync = 0; sntp_time = sntp_time })
