-- ===== src/Samples/Average.antt =====
-- The averages of Core/dws_user.c are 12-bit values between the least and the greatest input.
use native.Mathlib.Nat.{add-zero}
use plhr_firmware.Common.{ℕ, ◌+◌, ◌*◌, ◌/◌, ◌%◌, ◌≤◌, ◌<◌, ◌≡◌, arith, bit_and_mask}
use plhr_firmware.Samples.{rate, adc_value, sum_values, right_value, left_value}

pub adc_value_lem : (x : ℕ) → adc_value x ≡ x / 4 % 4096
unfolding adc_value
adc_value_lem x = bit_and_mask 12 (x / 4)

-- Every one of the eight words from `p` on has a value from `lo` to `hi`.
abbrev pub Within : (ℕ → ℕ) → ℕ → ℕ → ℕ → Type 0
Within memory p lo hi =
    (i : ℕ) → i < 8 → (lo ≤ adc_value (memory (p + i))) × (adc_value (memory (p + i)) ≤ hi)

sum_bounds :
    (memory : ℕ → ℕ) (p lo hi : ℕ)
    → Within memory p lo hi
    → (8 * lo ≤ sum_values memory p) × (sum_values memory p ≤ 8 * hi)
unfolding sum_values
sum_bounds memory p lo hi h =
    let first : (lo ≤ adc_value (memory p)) × (adc_value (memory p) ≤ hi) =
      rw (add-zero p) at (h 0 (omega arith)) in
    omega (
      arith,
      h 1 (omega arith),
      h 2 (omega arith),
      h 3 (omega arith),
      h 4 (omega arith),
      h 5 (omega arith),
      h 6 (omega arith),
      h 7 (omega arith),
    )

pub right_value-lt : (memory : ℕ → ℕ) (base index : ℕ) → right_value memory base index < 4096
unfolding right_value
right_value-lt memory base index = omega (
  arith,
  sum_bounds memory (base + index * (rate * 2)) 0 4095
      (λ i _. omega (arith, adc_value_lem (memory (base + index * (rate * 2) + i)))),
)

pub left_value-lt : (memory : ℕ → ℕ) (base index : ℕ) → left_value memory base index < 4096
unfolding left_value
left_value-lt memory base index = omega (
  arith,
  sum_bounds memory (base + (rate + index * (rate * 2))) 0 4095
      (λ i _. omega (arith, adc_value_lem (memory (base + (rate + index * (rate * 2)) + i)))),
)

-- If the sixteen words of a round have values from `lo` to `hi`, so have both averages.
pub average_bounds :
    (memory : ℕ → ℕ) (base index lo hi : ℕ)
    → Within memory (base + index * (rate * 2)) lo hi
    → Within memory (base + (rate + index * (rate * 2))) lo hi
    → (lo ≤ right_value memory base index)
      × (right_value memory base index ≤ hi)
      × (lo ≤ left_value memory base index)
      × (left_value memory base index ≤ hi)
unfolding right_value left_value
average_bounds memory base index lo hi hr hl = omega (
  arith,
  sum_bounds memory (base + index * (rate * 2)) lo hi hr,
  sum_bounds memory (base + (rate + index * (rate * 2))) lo hi hl,
)
