-- ===== src/Downsampling/Clock.antt =====
-- The time stamp that Core/dws_user.c computes from the SNTP time and the real-time clock.
use plhr_firmware.Common.{
  ℕ, ◌+◌, ◌-◌, ◌*◌, ◌/◌, ◌%◌, ◌^◌, ◌≤◌, ◌<◌, ◌≡◌, ◌∙◌, arith, bit_and, bit_and_comm, bit_and_mask,
  bit_and_shifted,
}
use plhr_firmware.Downsampling.{synchro_time, epoch_offset, seconds_to_nseconds}

high_word : (t : ℕ) → t < 2 ^ 64 → bit_and 0xffffffff00000000 t / 2 ^ 32 ≡ t / 2 ^ 32
high_word t h =
    let m : bit_and 0xffffffff (t / 2 ^ 32) ≡ t / 2 ^ 32 =
      bit_and_comm 0xffffffff (t / 2 ^ 32) ∙ bit_and_mask 32 (t / 2 ^ 32) ∙ omega arith in
    omega (arith, bit_and_shifted 32 t 0xffffffff, m)

module _ (to_nanoseconds : ℕ → ℕ) where
  -- Where the seconds since 1900 reach 1970, the stamp is the time since 1970 in nanoseconds, with
  -- no wrap-around.
  pub synchro_time_lem :
      (t tv_sec tv_nsec : ℕ)
      → t < 2 ^ 64
      → tv_sec < 2 ^ 32
      → tv_nsec < seconds_to_nseconds
      → to_nanoseconds (t % 2 ^ 32) < 2 ^ 32
      → epoch_offset ≤ t / 2 ^ 32 + tv_sec
      → synchro_time to_nanoseconds t tv_sec tv_nsec
        ≡ (t / 2 ^ 32 + tv_sec - epoch_offset) * seconds_to_nseconds
          + tv_nsec
          + to_nanoseconds (t % 2 ^ 32)
  unfolding synchro_time
  synchro_time_lem t tv_sec tv_nsec ht hs hn hf he =
      let low : bit_and 0xffffffff t ≡ t % 2 ^ 32 = bit_and_comm 0xffffffff t ∙ bit_and_mask 32 t in
      rw (low, high_word t ht) (omega arith)

  -- A zero SNTP time, as a failed request leaves it, gives a stamp that has wrapped round 2 ^ 64:
  -- the 70 years are missing.
  pub synchro_time_unset :
      (tv_sec tv_nsec : ℕ)
      → tv_sec < epoch_offset
      → tv_nsec < seconds_to_nseconds
      → to_nanoseconds 0 ≡ 0
      → synchro_time to_nanoseconds 0 tv_sec tv_nsec + (epoch_offset - tv_sec) * seconds_to_nseconds
        ≡ 2 ^ 64 + tv_nsec
  unfolding synchro_time
  synchro_time_unset tv_sec tv_nsec hs hn hf =
      let low : bit_and 0xffffffff 0 ≡ 0 = bit_and_mask 32 0 in rw (hf) (omega arith)
