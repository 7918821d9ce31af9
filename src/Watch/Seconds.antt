-- ===== src/Watch/Seconds.antt =====
-- What `softtimer` has done after a number of seconds.
use native.Mathlib.Numerals.{add-one}
use plhr_firmware.Common.{ℕ, zero, suc, ◌+◌, ◌/◌, ◌≡◌, refl, subst, Option, ◌==◌, false, arith}
use plhr_firmware.Watch.{SoftTimer, rssi_step, sntp_step, softtimer_round}

-- The timer before its first round, with any words in the shared memory.
abbrev pub first_second : ℕ → ℕ → SoftTimer
first_second time status = record {
  cnt = 0;
  ntp_time = time;
  time_sync_status = status;
  rssi_sent = 0;
  synchronisations = 0;
}

-- Rounds; `wifi k` and `answers k` are what round `k` is told.
unfoldable pub seconds : (ℕ → ℕ) → (ℕ → Option ℕ) → ℕ → SoftTimer → SoftTimer
seconds wifi answers zero t = t
seconds wifi answers (suc n) t = softtimer_round (wifi n) (answers n) (seconds wifi answers n t)

pub record IsAt (n : ℕ) (t : SoftTimer) : Type 0 where
  pub cnt : t.cnt ≡ n
  pub synchronisations : t.synchronisations ≡ (n + 1799) / 1800
  pub rssi_sent : t.rssi_sent ≡ 0

round-IsAt :
    (n status : ℕ) (answer : Option ℕ) (t : SoftTimer)
    → IsAt n t
    → (status == 0) ≡ false
    → IsAt (n + 1) (softtimer_round status answer t)
unfolding softtimer_round rssi_step sntp_step
round-IsAt n status answer t v up = record {
  cnt = ground (arith, v.cnt);
  synchronisations = ground (arith, v.cnt, v.synchronisations);
  rssi_sent = ground (arith, v.rssi_sent, up);
}

-- With a connection in each of `n` seconds, `softtimer` has asked for the time in the first second
-- and every 1800 seconds from then on, and has never sent the signal strength.
pub seconds-IsAt :
    (wifi : ℕ → ℕ) (answers : ℕ → Option ℕ) (time status n : ℕ)
    → ((k : ℕ) → (wifi k == 0) ≡ false)
    → IsAt n (seconds wifi answers n (first_second time status))
unfolding seconds
seconds-IsAt wifi answers time status zero up = record {
  cnt = refl;
  synchronisations = refl;
  rssi_sent = refl;
}
seconds-IsAt wifi answers time status (suc n) up =
    subst (λ k. IsAt k (seconds wifi answers (suc n) (first_second time status))) (add-one n)
      (round-IsAt n (wifi n) (answers n) (seconds wifi answers n (first_second time status))
        (seconds-IsAt wifi answers time status n up) (up n))
