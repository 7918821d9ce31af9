-- ===== src/Samples.antt =====
-- The packed sample format: Core/dws_user.c averages eight ADC words for each channel and stores
-- two 12-bit values in three bytes, and Core/print_user.c takes three bytes apart again.
pub mod Average
pub mod RoundTrip
use plhr_firmware.Common.{ℕ, zero, suc, ◌+◌, ◌*◌, ◌/◌, ◌%◌, ◌^◌, List, set, bit_and, bit_or}

-- `DWS_RATE_FIX` of dws_user.h: the words averaged for a channel.
abbrev pub rate : ℕ
rate = 8

-- `(uint16_t)(x >> 2) & 0x0FFF`: the 12 data bits of an ADC FIFO word.
pub adc_value : ℕ → ℕ
adc_value x = bit_and (x / 4) 0xfff

-- The sum over `ptr[0]` to `ptr[7]`; `memory` is the DMA buffer and `p` the index of `ptr[0]`.
pub sum_values : (ℕ → ℕ) → ℕ → ℕ
sum_values memory p =
    adc_value (memory p)
    + adc_value (memory (p + 1))
    + adc_value (memory (p + 2))
    + adc_value (memory (p + 3))
    + adc_value (memory (p + 4))
    + adc_value (memory (p + 5))
    + adc_value (memory (p + 6))
    + adc_value (memory (p + 7))

-- `downsampled_data_right`: the sum `>> 3`. `base` is where `buffer_downsampling` points.
pub right_value : (ℕ → ℕ) → ℕ → ℕ → ℕ
right_value memory base index = sum_values memory (base + index * (rate * 2)) / 2 ^ 3

-- `downsampled_data_left`: the next eight words, divided by `DWS_RATE_FIX`.
pub left_value : (ℕ → ℕ) → ℕ → ℕ → ℕ
left_value memory base index = sum_values memory (base + (rate + index * (rate * 2))) / rate

-- `(right & 0xFFF) | (left << 12)`, a `uint32_t`.
pub pack : ℕ → ℕ → ℕ
pack right left = bit_or (bit_and right 0xfff) (left * 2 ^ 12 % 2 ^ 32)

-- `memcpy(&p[at], &word, 3)` on the little-endian target.
pub store3 : List ℕ → ℕ → ℕ → List ℕ
store3 out at word =
    set (set (set out at (word % 256)) (at + 1) (word / 256 % 256)) (at + 2) (word / 65536 % 256)

-- The packing loop over the rounds left; `index` is `index_buffer`.
pub pack_from : (ℕ → ℕ) → ℕ → ℕ → ℕ → List ℕ → List ℕ
pack_from memory base zero index out = out
pack_from memory base (suc rounds) index out =
    pack_from memory base rounds (index + 1)
      (store3 out (index * 3) (pack (right_value memory base index) (left_value memory base index)))

-- The loop from `index_buffer = 0` to `size_buffer_in / (DWS_RATE_FIX * 2)`.
pub pack_buffer : (ℕ → ℕ) → ℕ → ℕ → List ℕ → List ℕ
pack_buffer memory base size out = pack_from memory base (size / (rate * 2)) 0 out

-- `temp_value_right` of `print_values_downsampled`, from the bytes at `i` and `i + 1`.
pub unpack_right : (ℕ → ℕ) → ℕ → ℕ
unpack_right bytes i = bit_and (bit_or (bytes i) (bit_and (bytes (i + 1)) 0xff * 2 ^ 8)) 0xfff

-- `temp_value_left`, from the bytes at `i + 1` and `i + 2`.
pub unpack_left : (ℕ → ℕ) → ℕ → ℕ
unpack_left bytes i = bit_or (bit_and (bytes (i + 1)) 0xff0 / 2 ^ 4) (bytes (i + 2) * 2 ^ 4)
