-- ===== src/Printing.antt =====
-- `print_values_downsampled` of Core/print_user.c: the text that it builds in its local buffer.
-- `none` stands for a write past the end of a buffer.
pub mod Text
pub mod Averages
use plhr_firmware.Common.{
  ℕ, zero, suc, ◌+◌, ◌-◌, ◌*◌, ◌/◌, ◌%◌, ◌^◌, Option, none, some, List, [], ◌∷◌, ◌++◌, ltb, ◌==◌,
  if◌then◌else◌, length, set, take, decimal,
}
use plhr_firmware.Samples.{unpack_right, unpack_left}

-- `display_buffer_start`, "buffer=[", without its zero byte.
abbrev pub display_buffer_start : List ℕ
display_buffer_start = 98 ∷ 117 ∷ 102 ∷ 102 ∷ 101 ∷ 114 ∷ 61 ∷ 91 ∷ []

-- `display_buffer_end`, "];", with its zero byte.
abbrev pub display_buffer_end : List ℕ
display_buffer_end = 93 ∷ 59 ∷ 0 ∷ []

-- `memcpy` into an array, a byte at a time.
pub write_at : List ℕ → ℕ → List ℕ → Option (List ℕ)
write_at out at [] = some out
write_at out at (b ∷ bs) =
    let rest = write_at (set out at b) (at + 1) bs in if ltb at (length out) then rest else none

-- The local variables `buffer_to_uart` and `cnt_buffer_uart`, a `uint16_t`.
pub record Uart : Type 0 where
  pub buffer_to_uart : List ℕ
  pub cnt_buffer_uart : ℕ

-- A `memcpy` at `cnt_buffer_uart`, which moves on by the number of bytes.
pub put : List ℕ → Uart → Option Uart
unfolding write_at
put bs u = elim (write_at u.buffer_to_uart u.cnt_buffer_uart bs) [
  | none ↦ none
  | some out ↦
      some (record {
        buffer_to_uart = out;
        cnt_buffer_uart = (u.cnt_buffer_uart + length bs) % 2 ^ 16;
      })
]

-- `snprintf(temp_buffer, size_sample_char, "%u,", value)` with `size_sample_char` 10: what it
-- leaves before the zero byte.
pub sample_text : ℕ → List ℕ
sample_text value = take 9 (decimal 5 value ++ 44 ∷ [])

-- The loop over the rounds left.
pub print_from : (ℕ → ℕ) → ℕ → ℕ → Uart → Option Uart
unfolding put sample_text
print_from bytes zero index u = some u
print_from bytes (suc rounds) index u = elim (put (sample_text (unpack_right bytes index)) u) [
  | none ↦ none
  | some v ↦ elim (put (sample_text (unpack_left bytes index)) v) [
    | none ↦ none
    | some w ↦ print_from bytes rounds (index + 3) w
  ]
]

-- The two writes at `cnt_buffer_uart - 1` that end the text.
pub close_list : Uart → Option (List ℕ)
unfolding write_at
close_list u =
    if u.cnt_buffer_uart == 0
    then none
    else elim (write_at u.buffer_to_uart (u.cnt_buffer_uart - 1) (0 ∷ [])) [
      | none ↦ none
      | some out ↦ write_at out (u.cnt_buffer_uart - 1) display_buffer_end
    ]

-- `print_values_downsampled`: `buffer` is `buffer_to_uart` before its first write, of `max_size`
-- bytes, and `size` is `print_buffer_size`. A round starts at every third byte below
-- `downsampled_buffer_size`.
pub print_values_downsampled : List ℕ → (ℕ → ℕ) → ℕ → Option (List ℕ)
unfolding put print_from close_list
print_values_downsampled buffer bytes size =
    elim (put display_buffer_start (record { buffer_to_uart = buffer; cnt_buffer_uart = 0 })) [
      | none ↦ none
      | some u ↦ elim (print_from bytes ((size % 2 ^ 16 + 2) / 3) 0 u) [
        | none ↦ none
        | some v ↦ close_list v
      ]
    ]
