-- ===== src/Acquisition/Channel/Overrun.antt =====
-- The buffer that `thread_downsampling` reads beside the two that the uDMA channel is to fill.
use plhr_firmware.Common.{
  ℕ, suc, ℕ_discrete, ◌+◌, ◌-◌, ◌*◌, ◌%◌, ◌^◌, ◌≤◌, ◌<◌, ◌≡◌, ◌⊎◌, ◌↔◌, inl, inr, refl, ap, ◌∙◌,
  sym, Bool-cases, ◌==◌, if◌then◌else◌, arith,
}
use plhr_firmware.Acquisition.{State}
use plhr_firmware.Acquisition.Channel.{Channel, after_transfers}
use plhr_firmware.Acquisition.Channel.PingPong.{filled, IsArmed, after_transfers-IsArmed}
use plhr_firmware.Downsampling.{Args, Shared, Input, start, rounds}
use plhr_firmware.Downsampling.Cursor.{rounds-IsAt}

-- The channel has the buffer in one of its control structures.
abbrev pub IsTarget : ℕ → Channel → Type 0
IsTarget b ch = (b ≡ ch.primary_buffer) ⊎ (b ≡ ch.alternate_buffer)

-- The buffer of the transfer that runs behind `n` others, which is that of the structure whose turn
-- it is.
abbrev pub active_buffer : ℕ → Channel → ℕ
active_buffer n ch = if n % 2 == 0 then ch.primary_buffer else ch.alternate_buffer

active_buffer-IsArmed :
    (n : ℕ) (t : State) (ch : Channel) → IsArmed n t ch → active_buffer n ch ≡ filled n
active_buffer-IsArmed n t ch at = elim (Bool-cases (n % 2 == 0)) [
  | inl even ↦ rw even (at.primary_fills ∙ rw even refl)
  | inr odd ↦ rw odd (at.alternate_fills ∙ rw odd refl)
]

swap : {A B : Type 0} → A ⊎ B → B ⊎ A
swap (inl x) = inr x
swap (inr y) = inl y

IsTarget-IsArmed :
    (b n : ℕ) (t : State) (ch : Channel)
    → IsArmed n t ch
    → IsTarget b ch ↔ ((b ≡ filled n) ⊎ (b ≡ filled (suc n)))
IsTarget-IsArmed b n t ch at = elim (Bool-cases (n % 2 == 0)) [
  | inl even ↦
      let p : ch.primary_buffer ≡ filled n = at.primary_fills ∙ rw even refl in
      let q : ch.alternate_buffer ≡ filled (suc n) = at.alternate_fills ∙ rw even refl in
      rw (p, q) (λ h. h, λ h. h)
  | inr odd ↦
      let p : ch.primary_buffer ≡ filled (suc n) = at.primary_fills ∙ rw odd refl in
      let q : ch.alternate_buffer ≡ filled n = at.alternate_fills ∙ rw odd refl in
      rw (p, q) (swap, swap)
]

filled_late : (n : ℕ) → 2 ≤ n → filled n ≡ (n + 1) % 2 ^ 16 % 30
unfolding filled
filled_late n h = ground arith

module _ (channel : ℕ) (s : State) (ch : Channel) (to_nanoseconds : ℕ → ℕ) (a : Args)
    (inputs : ℕ → Input) (others : ℕ → Shared → Shared) (shared : Shared)
    (thirty : a.dma_num_buffers ≡ 30) where
  -- The buffer that round `r` of the thread reads.
  abbrev reads : ℕ → ℕ
  reads r = (rounds to_nanoseconds a inputs others r (start, shared)).0.cnt_buffer_in

  reads_lem : (r : ℕ) → reads r ≡ r % 30
  reads_lem r =
      (rounds-IsAt to_nanoseconds a inputs others shared r (omega arith)).input
      ∙ ap (λ (m : ℕ). r % m) thirty

  -- From the second transfer on and until `cnt_dma_write` wraps round, the buffer that round `r` of
  -- the downsampling thread reads while `n` transfers have ended is one that the channel is to fill
  -- exactly if the lag of the thread, the number of transfers it is behind, is 28 or 29 modulo 30.
  -- So nothing is written into what it reads while the lag stays below 28.
  pub overrun_lem :
      (n r : ℕ)
      → 2 ≤ n
      → n + 2 < 2 ^ 16
      → r ≤ n
      → IsTarget (reads r) (after_transfers channel s ch n).1 ↔ (28 ≤ (n - r) % 30)
  overrun_lem n r lo hi late =
      let (t, now) = after_transfers channel s ch n in
      let at = after_transfers-IsArmed channel s ch n in
      let targets = IsTarget-IsArmed (reads r) n t now at in
      let first : filled n ≡ (n + 1) % 2 ^ 16 % 30 = filled_late n lo in
      let second : filled (suc n) ≡ (n + 2) % 2 ^ 16 % 30 =
        filled_late (suc n) (omega arith) ∙ ap (λ (k : ℕ). k % 2 ^ 16 % 30) (omega arith) in
      (
        λ h. elim (targets.0 h) [
          | inl e ↦ omega (arith, e, first, reads_lem r)
          | inr e ↦ omega (arith, e, second, reads_lem r)
        ],
        λ h. targets.1 (elim (ℕ_discrete ((n - r) % 30) 29) [
          | yes e ↦ inl (omega (arith, first, reads_lem r))
          | no ne ↦ inr (omega (arith, second, reads_lem r))
        ]),
      )

  -- Between the second and the third wrap of `cnt_dma_write`, that is while at least 2 ^ 17 and at
  -- most 3 * 2 ^ 16 - 2 transfers have ended, a round that runs as soon as its transfer has ended
  -- reads the very buffer that the running transfer fills.
  pub wrapped_round_races :
      (n : ℕ)
      → 2 ^ 17 ≤ suc n
      → suc n + 1 < 3 * 2 ^ 16
      → reads n ≡ active_buffer (suc n) (after_transfers channel s ch (suc n)).1
  wrapped_round_races n lo hi =
      let (t, now) = after_transfers channel s ch (suc n) in
      let at = after_transfers-IsArmed channel s ch (suc n) in
      let active = active_buffer-IsArmed (suc n) t now at in
      let late : filled (suc n) ≡ (suc n + 1) % 2 ^ 16 % 30 = filled_late (suc n) (omega arith) in
      reads_lem n ∙ omega (arith, late) ∙ sym active
