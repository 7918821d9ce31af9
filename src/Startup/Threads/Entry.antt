-- ===== src/Startup/Threads/Entry.antt =====
-- Where `main` of Core/main_tirtos.c starts the system.
use plhr_firmware.Common.{
  ℕ, zero, suc, ◌+◌, ◌/◌, ◌<◌, ◌≡◌, ◌↔◌, refl, ◌==◌, ==_iff, bit_or, bit_or_step, ℕ_discrete, arith,
  Bool-cases, inl, inr,
}
use plhr_firmware.Startup.Threads.{bios_started, main}

bit_or_zero : (n a b : ℕ) → a + b < n → bit_or a b ≡ 0 → (a ≡ 0) × (b ≡ 0)
bit_or_zero zero a b h e = absurd (omega arith)
bit_or_zero (suc n) a b h e = elim (ℕ_discrete (a + b) 0) [
  | yes none ↦ (omega arith, omega arith)
  | no some ↦
      let (p, q) =
        bit_or_zero n (a / 2) (b / 2) (omega arith) (omega (arith, bit_or_step a b, e)) in
      (omega (arith, p, bit_or_step a b, e), omega (arith, q, bit_or_step a b, e))
]

lt_suc : (n : ℕ) → n < suc n
lt_suc n = omega arith

-- `main` starts the system exactly when all four calls answer 0; else it stays in a loop.
pub main_lem :
    (sched detach stack create : ℕ)
    → (main sched detach stack create ≡ bios_started)
      ↔ ((sched ≡ 0) × (detach ≡ 0) × (stack ≡ 0) × (create ≡ 0))
unfolding main
main_lem sched detach stack create = (
  λ h.
      let codes = bit_or (bit_or sched detach) stack in
      elim (Bool-cases (codes == 0)) [
        | inl good ↦ elim (Bool-cases (create == 0)) [
          | inl made ↦
              let (both, st) =
                bit_or_zero _ (bit_or sched detach) stack (lt_suc _) ((==_iff codes 0).0 good) in
              let (sc, de) = bit_or_zero _ sched detach (lt_suc _) both in
              (sc, de, st, (==_iff create 0).0 made)
          | inr failed ↦ absurd (cc (rw (good, failed) at h))
        ]
        | inr bad ↦ absurd (cc (rw bad at h))
      ],
  λ (sc, de, st, cr). rw (sc, de, st, cr) refl,
)
