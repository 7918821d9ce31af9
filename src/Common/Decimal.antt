-- ===== src/Common/Decimal.antt =====
-- Decimal text as `sprintf` writes it.
use Prim.Native.Nat.{ℕ, zero, suc, ◌+◌, ◌-◌, ◌*◌, ◌/◌, ◌%◌, ◌^◌, ◌≤◌, ◌<◌}
use mathlib.Core.Path.{◌≡◌, refl, ◌∙◌}
use mathlib.Core.Logic.{inl, inr}
use mathlib.Core.Bool.{true}
use mathlib.Core.List.{List, [], ◌∷◌, ◌++◌}
use native.Mathlib.Omega.{arith}
use plhr_firmware.Common.Tests.{ltb, ltb→lt, lt→ltb, if◌then◌else◌, Bool-cases}
use plhr_firmware.Common.Lists.{length, length-append}

-- The digits that `sprintf` writes for `%d` or `%u`, by fuel: a `uint16_t` has at most five.
unfoldable pub decimal : ℕ → ℕ → List ℕ
decimal zero n = []
decimal (suc fuel) n =
    if ltb n 10 then (n + 48) ∷ [] else decimal fuel (n / 10) ++ (n % 10 + 48) ∷ []

-- Reads decimal characters behind the number that the ones before give.
abbrev pub read_decimal : ℕ → List ℕ → ℕ
read_decimal n [] = n
read_decimal n (c ∷ cs) = read_decimal (n * 10 + (c - 48)) cs

read_decimal-append :
    (n c : ℕ) (cs : List ℕ) → read_decimal n (cs ++ c ∷ []) ≡ read_decimal n cs * 10 + (c - 48)
read_decimal-append n c [] = refl
read_decimal-append n c (x ∷ cs) = read_decimal-append (n * 10 + (x - 48)) c cs

pub decimal-reads : (fuel n : ℕ) → n < 10 ^ fuel → read_decimal 0 (decimal fuel n) ≡ n
unfolding decimal
decimal-reads zero n h = omega arith
decimal-reads (suc fuel) n h = elim (Bool-cases (ltb n 10)) [
  | inl e ↦ rw e (omega arith)
  | inr e ↦ rw e (
      read_decimal-append 0 (n % 10 + 48) (decimal fuel (n / 10))
      ∙ (let pw : 10 ^ suc fuel ≡ 10 * 10 ^ fuel = omega arith in
          omega (arith, decimal-reads fuel (n / 10) (omega (arith, pw)))))
]

pub decimal-length : (fuel n : ℕ) → 0 < length (decimal (suc fuel) n)
unfolding decimal
decimal-length fuel n = elim (Bool-cases (ltb n 10)) [
  | inl e ↦ rw e (omega arith)
  | inr e ↦ rw e (omega (arith, length-append (decimal fuel (n / 10)) ((n % 10 + 48) ∷ [])))
]

-- All bytes are decimal digits.
abbrev pub AreDigits : List ℕ → Type 0
AreDigits [] = Unit {0}
AreDigits (c ∷ cs) = (48 ≤ c) × (c < 58) × AreDigits cs

AreDigits-snoc : (cs : List ℕ) (c : ℕ) → AreDigits cs → 48 ≤ c → c < 58 → AreDigits (cs ++ c ∷ [])
AreDigits-snoc [] c h lo hi = (lo, hi, tt)
AreDigits-snoc (x ∷ cs) c h lo hi = (h.0, h.1, AreDigits-snoc cs c h.2 lo hi)

pub decimal-AreDigits : (fuel n : ℕ) → AreDigits (decimal fuel n)
unfolding decimal
decimal-AreDigits zero n = tt
decimal-AreDigits (suc fuel) n = elim (Bool-cases (ltb n 10)) [
  | inl e ↦ (let h = ltb→lt n 10 e in rw e (omega arith))
  | inr e ↦ rw e (
      AreDigits-snoc (decimal fuel (n / 10)) (n % 10 + 48) (decimal-AreDigits fuel (n / 10))
        (omega arith) (omega arith))
]

-- A number below `10 ^ (k + 1)` has at most `k + 1` digits, whatever the fuel.
pub length-decimal : (fuel k n : ℕ) → n < 10 ^ suc k → length (decimal fuel n) ≤ suc k
unfolding decimal
length-decimal zero k n h = omega arith
length-decimal (suc fuel) zero n h =
    let e : ltb n 10 ≡ true = lt→ltb n 10 (omega arith) in rw e (omega arith)
length-decimal (suc fuel) (suc k) n h = elim (Bool-cases (ltb n 10)) [
  | inl e ↦ rw e (omega arith)
  | inr e ↦ rw e (
      let pw : 10 ^ suc (suc k) ≡ 10 * 10 ^ suc k = omega arith in
      omega (
        arith,
        length-append (decimal fuel (n / 10)) ((n % 10 + 48) ∷ []),
        length-decimal fuel k (n / 10) (omega (arith, pw)),
      ))
]
