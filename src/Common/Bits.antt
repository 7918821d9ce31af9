-- ===== src/Common/Bits.antt =====
-- The laws of `&` and `|` that the firmware's packing and status words need.
use Prim.Native.Nat.{ℕ, zero, suc, ◌+◌, ◌-◌, ◌*◌, ◌/◌, ◌%◌, ◌^◌, ◌≤◌, ◌<◌, min, max}
use Prim.Native.Nat.{bit_and, bit_or, digits, bit_and-bitwise, bit_or-bitwise}
use mathlib.Core.Path.{◌≡◌, refl, sym, ◌∙◌, ap}
use mathlib.Core.Bool.{Bool, true, ◌&&◌}
use native.Mathlib.Nat.{
  pow-suc, div-div-eq-div-mul, div-add-mod, add-mul-mod_self_left, mod-eq_of_lt,
}
use native.Mathlib.Omega.{arith}
use native.Mathlib.Decide.{ℕ_discrete}

-- A test holds at every number below a bound.
unfoldable pub holds_below : (ℕ → Bool) → ℕ → Bool
holds_below test zero = true
holds_below test (suc n) = holds_below test n && test n

pub holds_below_sound :
    (test : ℕ → Bool) (n i : ℕ) → i < n → holds_below test n ≡ true → test i ≡ true
unfolding holds_below
holds_below_sound test zero i below h = absurd (omega arith)
holds_below_sound test (suc n) i below h = ground (arith, holds_below_sound test n i)

-- The native operations go through binary digits on fuel; the first operand is fuel enough.
module _ (z : ℕ → ℕ) (g : ℕ → ℕ → ℕ) where
  one_more : (b a n : ℕ) → a ≤ n → digits z g (suc n) a b ≡ digits z g n a b
  one_more b zero zero le = refl
  one_more b zero (suc n) le = refl
  one_more b (suc a) zero le = absurd (omega arith)
  one_more b (suc a) (suc n) le =
      ap (λ (t : ℕ). t * 2 + g (suc a % 2) (b % 2)) (one_more (b / 2) (suc a / 2) n (omega arith))

  enough : (b a n : ℕ) → a ≤ n → digits z g n a b ≡ digits z g a a b
  enough b a zero le = let e : a ≡ 0 = omega arith in rw e refl
  enough b a (suc n) le = elim (ℕ_discrete a (suc n)) [
    | yes e ↦ rw e refl
    | no ne ↦ one_more b a n (omega arith) ∙ enough b a n (omega arith)
  ]

  low_digit :
      (a b : ℕ)
      → digits z g (suc a) (suc a) b
        ≡ digits z g (suc a / 2) (suc a / 2) (b / 2) * 2 + g (suc a % 2) (b % 2)
  low_digit a b =
      ap (λ (t : ℕ). t * 2 + g (suc a % 2) (b % 2)) (enough (b / 2) (suc a / 2) a (omega arith))

pub zero-bit_or : (b : ℕ) → bit_or 0 b ≡ b
zero-bit_or b = bit_or-bitwise 0 b

pub zero-bit_and : (b : ℕ) → bit_and 0 b ≡ 0
zero-bit_and b = bit_and-bitwise 0 b

pub bit_or_step : (a b : ℕ) → bit_or a b ≡ bit_or (a / 2) (b / 2) * 2 + max (a % 2) (b % 2)
bit_or_step zero b = omega (arith, zero-bit_or b, zero-bit_or (b / 2))
bit_or_step (suc a) b =
    bit_or-bitwise (suc a) b
    ∙ low_digit (λ d. d) max a b
    ∙ ap (λ (t : ℕ). t * 2 + max (suc a % 2) (b % 2)) (sym (bit_or-bitwise (suc a / 2) (b / 2)))

pub bit_and_step : (m k : ℕ) → bit_and m k ≡ bit_and (m / 2) (k / 2) * 2 + min (m % 2) (k % 2)
bit_and_step zero k = omega (arith, zero-bit_and (k / 2), zero-bit_and k)
bit_and_step (suc m) k =
    bit_and-bitwise (suc m) k
    ∙ low_digit (λ d. zero) min m k
    ∙ ap (λ (t : ℕ). t * 2 + min (suc m % 2) (k % 2)) (sym (bit_and-bitwise (suc m / 2) (k / 2)))

no_digits : (n a : ℕ) → digits (λ d. zero) min n a 0 ≡ 0
no_digits zero zero = refl
no_digits zero (suc a) = refl
no_digits (suc n) zero = refl
no_digits (suc n) (suc a) = omega (arith, no_digits n (suc a / 2))

bit_and-zero : (a : ℕ) → bit_and a 0 ≡ 0
bit_and-zero a = bit_and-bitwise a 0 ∙ no_digits a a

double_pow : (k : ℕ) → 2 ^ suc k ≡ 2 * 2 ^ k
double_pow k = omega (arith, pow-suc 2 k)

times_pow_suc : (b k : ℕ) → b * 2 ^ suc k ≡ b * 2 ^ k * 2
times_pow_suc b k = omega (arith, ap (λ (t : ℕ). b * t) (double_pow k))

bit_or-double : (a c : ℕ) → bit_or a (c * 2) ≡ bit_or (a / 2) c * 2 + a % 2
bit_or-double a c =
    let half : c * 2 / 2 ≡ c = omega arith in
    bit_or_step a (c * 2)
    ∙ rw half (let m : max (a % 2) (c * 2 % 2) ≡ a % 2 = omega arith in rw m refl)

bit_and-pred_double :
    (a p : ℕ) → 0 < p → bit_and a (2 * p - 1) ≡ bit_and (a / 2) (p - 1) * 2 + a % 2
bit_and-pred_double a p h =
    let half : (2 * p - 1) / 2 ≡ p - 1 = omega arith in
    bit_and_step a (2 * p - 1)
    ∙ rw half (let m : min (a % 2) ((2 * p - 1) % 2) ≡ a % 2 = omega arith in rw m refl)

-- Below and above bit `k` the two operands do not meet.
pub bit_or_disjoint : (k a b : ℕ) → a < 2 ^ k → bit_or a (b * 2 ^ k) ≡ a + b * 2 ^ k
bit_or_disjoint zero zero b h = omega (arith, zero-bit_or (b * 1))
bit_or_disjoint zero (suc a) b h = absurd (omega arith)
bit_or_disjoint (suc k) a b h = rw (times_pow_suc b k) (
    omega (
      arith,
      bit_or-double a (b * 2 ^ k),
      bit_or_disjoint k (a / 2) b (omega (arith, double_pow k)),
    ))

pub pow_pos : (k : ℕ) → 0 < 2 ^ k
pow_pos zero = omega arith
pow_pos (suc k) = omega (arith, double_pow k, pow_pos k)

half_mod : (a p : ℕ) → 0 < p → a % (2 * p) ≡ a / 2 % p * 2 + a % 2
half_mod a p h =
    let r : ℕ = a / 2 % p * 2 + a % 2 in
    let low : a / 2 % p < p = omega arith in
    let split : a ≡ r + 2 * p * (a / 2 / p) = omega (arith, div-add-mod (a / 2) p) in
    ap (λ (t : ℕ). t % (2 * p)) split
    ∙ add-mul-mod_self_left r (2 * p) (a / 2 / p)
    ∙ mod-eq_of_lt {n = r} {m = 2 * p} (omega arith)

pub bit_and_mask : (k a : ℕ) → bit_and a (2 ^ k - 1) ≡ a % 2 ^ k
bit_and_mask zero a = omega (arith, bit_and-zero a)
bit_and_mask (suc k) a = rw (double_pow k) (
    omega (
      arith,
      bit_and-pred_double a (2 ^ k) (pow_pos k),
      bit_and_mask k (a / 2),
      half_mod a (2 ^ k) (pow_pos k),
    ))

-- Binary digit `k` of a number.
abbrev pub digit : ℕ → ℕ → ℕ
digit s k = s / 2 ^ k % 2

digit-suc : (s k : ℕ) → digit s (suc k) ≡ digit (s / 2) k
digit-suc s k = ap (λ (t : ℕ). t % 2) (rw (double_pow k) (sym (div-div-eq-div-mul s 2 (2 ^ k))))

pub digit-bit_or : (k a b : ℕ) → digit (bit_or a b) k ≡ max (digit a k) (digit b k)
digit-bit_or zero a b = omega (arith, bit_or_step a b)
digit-bit_or (suc k) a b =
    let half : bit_or a b / 2 ≡ bit_or (a / 2) (b / 2) = omega (arith, bit_or_step a b) in
    rw (digit-suc (bit_or a b) k, digit-suc a k, digit-suc b k, half)
      (digit-bit_or k (a / 2) (b / 2))

pub digit-bit_and : (k a b : ℕ) → digit (bit_and a b) k ≡ min (digit a k) (digit b k)
digit-bit_and zero a b = omega (arith, bit_and_step a b)
digit-bit_and (suc k) a b =
    let half : bit_and a b / 2 ≡ bit_and (a / 2) (b / 2) = omega (arith, bit_and_step a b) in
    rw (digit-suc (bit_and a b) k, digit-suc a k, digit-suc b k, half)
      (digit-bit_and k (a / 2) (b / 2))

bit_and_comm_fuel : (n a b : ℕ) → a ≤ n → bit_and a b ≡ bit_and b a
bit_and_comm_fuel n zero b h = omega (arith, zero-bit_and b, bit_and-zero b)
bit_and_comm_fuel zero (suc a) b h = absurd (omega arith)
bit_and_comm_fuel (suc n) (suc a) b h = omega (
  arith,
  bit_and_step (suc a) b,
  bit_and_step b (suc a),
  bit_and_comm_fuel n (suc a / 2) (b / 2) (omega arith),
)

pub bit_and_comm : (a b : ℕ) → bit_and a b ≡ bit_and b a
bit_and_comm a b = bit_and_comm_fuel a a b (omega arith)

div_pow_suc : (a k : ℕ) → a / 2 ^ suc k ≡ a / 2 / 2 ^ k
div_pow_suc a k = rw (double_pow k) (sym (div-div-eq-div-mul a 2 (2 ^ k)))

-- A mask of high bits.
pub bit_and_shifted : (k a b : ℕ) → bit_and (b * 2 ^ k) a ≡ bit_and b (a / 2 ^ k) * 2 ^ k
bit_and_shifted zero a b =
    let p : b * 1 ≡ b = omega arith in let q : a / 1 ≡ a = omega arith in rw (p, q) (omega arith)
bit_and_shifted (suc k) a b =
    let half : b * 2 ^ k * 2 / 2 ≡ b * 2 ^ k = omega arith in
    rw (times_pow_suc b k, div_pow_suc a k, times_pow_suc (bit_and b (a / 2 / 2 ^ k)) k)
      (bit_and_step (b * 2 ^ k * 2) a ∙ rw (half, bit_and_shifted k (a / 2) b) (omega arith))
