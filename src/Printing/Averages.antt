-- ===== src/Printing/Averages.antt =====
-- From the packed buffer of Core/dws_user.c to the text of `print_values_downsampled`.
use plhr_firmware.Common.{
  ℕ, zero, suc, ◌+◌, ◌-◌, ◌*◌, ◌/◌, ◌%◌, ◌^◌, ◌≤◌, ◌<◌, ◌≡◌, refl, false, ◌==◌, ==_ne, sym, ap,
  subst, ◌∙◌, some, List, [], ◌∷◌, ◌++◌, append_assoc, length, length-append, drop, get_or, arith,
}
use plhr_firmware.Samples.{rate, right_value, left_value, pack_buffer}
use plhr_firmware.Samples.Average.{right_value-lt, left_value-lt}
use plhr_firmware.Samples.RoundTrip.{unpack-pack_buffer}
use plhr_firmware.Printing.{
  display_buffer_start, display_buffer_end, Uart, write_at, put, print_from, close_list,
  print_values_downsampled,
}
use plhr_firmware.Printing.Text.{
  items, listing, items-listing, read_numbers, read_numbers-listing, AreSmall, behind, put_lem,
  write_at-append, samples, print_from_lem, length-drop,
}

close_parts :
    (buffer out : List ℕ) (n : ℕ)
    → write_at buffer n (0 ∷ []) ≡ some out
    → close_list (record { buffer_to_uart = buffer; cnt_buffer_uart = n + 1 })
      ≡ write_at out n display_buffer_end
unfolding close_list
close_parts buffer out n e =
    let before : n + 1 - 1 ≡ n = omega arith in
    let some_text : (n + 1 == 0) ≡ false = ==_ne (n + 1) 0 (λ z. absurd (omega arith)) in
    rw (some_text, before) (rw (e, close_list) (ap (λ k. write_at out k display_buffer_end) before))

close_list_lem :
    (w zs : List ℕ)
    → 2 ≤ length zs
    → close_list (behind (w ++ 44 ∷ []) zs) ≡ some (w ++ (display_buffer_end ++ drop 2 zs))
close_list_lem w zs h =
    let count : length (w ++ 44 ∷ []) ≡ length w + 1 = length-append w (44 ∷ []) in
    rw (count, append_assoc w (44 ∷ []) zs)
      (close_parts (w ++ (44 ∷ zs)) (w ++ (0 ∷ zs)) (length w)
          (write_at-append w (0 ∷ []) (44 ∷ zs) (omega arith))
        ∙ write_at-append w display_buffer_end (0 ∷ zs) (omega arith))

print_parts :
    (buffer : List ℕ) (bytes : ℕ → ℕ) (size : ℕ) (u v : Uart)
    → put display_buffer_start (record { buffer_to_uart = buffer; cnt_buffer_uart = 0 }) ≡ some u
    → print_from bytes ((size % 2 ^ 16 + 2) / 3) 0 u ≡ some v
    → print_values_downsampled buffer bytes size ≡ close_list v
unfolding print_values_downsampled
print_parts buffer bytes size u v e f =
    rw (e, print_values_downsampled) (rw (f, print_values_downsampled) refl)

-- The text of `rounds` samples of small numbers.
pub print_listing :
    (buffer : List ℕ) (bytes : ℕ → ℕ) (rounds v : ℕ) (vs : List ℕ)
    → samples bytes rounds 0 ≡ v ∷ vs
    → AreSmall (v ∷ vs)
    → 10 * rounds + 10 ≤ length buffer
    → 10 * rounds + 10 < 2 ^ 16
    → (zs : List ℕ) × (print_values_downsampled buffer bytes (3 * rounds)
        ≡ some ((display_buffer_start ++ listing v vs) ++ (display_buffer_end ++ zs)))
      × (length ((display_buffer_start ++ listing v vs) ++ (display_buffer_end ++ zs))
          ≡ length buffer)
print_listing buffer bytes rounds v vs e small room short =
    let start = put_lem [] display_buffer_start buffer (omega arith) (omega arith) in
    let left = length-drop 8 buffer in
    let count : rounds ≡ (3 * rounds % 2 ^ 16 + 2) / 3 = omega arith in
    let (zs, runs, used, kept) =
      print_from_lem bytes rounds 0 display_buffer_start (drop 8 buffer)
        (subst AreSmall (sym e) small) (omega (arith, left)) (omega arith) in
    let text : display_buffer_start ++ items (samples bytes rounds 0)
        ≡ (display_buffer_start ++ listing v vs) ++ 44 ∷ [] =
      ap (λ l. display_buffer_start ++ items l) e
      ∙ ap (λ l. display_buffer_start ++ l) (items-listing v vs)
      ∙ sym (append_assoc display_buffer_start (listing v vs) (44 ∷ [])) in
    let w : List ℕ = display_buffer_start ++ listing v vs in
    let ends = ap length text in
    (
      drop 2 zs,
      ap (print_values_downsampled buffer bytes) refl
          ∙ print_parts buffer bytes (3 * rounds) (behind display_buffer_start (drop 8 buffer))
              (behind (w ++ 44 ∷ []) zs) start
              (subst
                (λ n.
                  print_from bytes n 0 (behind display_buffer_start (drop 8 buffer))
                  ≡ some (behind (w ++ 44 ∷ []) zs))
                count (runs ∙ ap (λ t. some (behind t zs)) text))
          ∙ close_list_lem w zs (omega (arith, left)),
      omega (
        arith,
        left,
        ends,
        length-append w (44 ∷ []),
        length-append w (display_buffer_end ++ drop 2 zs),
        length-drop 2 zs,
      ),
    )

-- The averages of `rounds` rounds of the packing loop from `index` on, in the order of the packing.
abbrev pub averages : (ℕ → ℕ) → ℕ → ℕ → ℕ → List ℕ
averages memory base zero index = []
averages memory base (suc rounds) index =
    right_value memory base index
    ∷ left_value memory base index
    ∷ averages memory base rounds (index + 1)

averages-AreSmall :
    (memory : ℕ → ℕ) (base rounds index : ℕ) → AreSmall (averages memory base rounds index)
averages-AreSmall memory base zero index = tt
averages-AreSmall memory base (suc rounds) index = (
  right_value-lt memory base index,
  (left_value-lt memory base index, averages-AreSmall memory base rounds (index + 1)),
)

samples-averages :
    (memory : ℕ → ℕ) (base size : ℕ) (out : List ℕ) (rounds index : ℕ)
    → size / (rate * 2) * 3 ≤ length out
    → index + rounds ≤ size / (rate * 2)
    → samples (λ k. get_or (pack_buffer memory base size out) k 0) rounds (index * 3)
      ≡ averages memory base rounds index
samples-averages memory base size out zero index room h = refl
samples-averages memory base size out (suc rounds) index room h =
    let (r, l) = unpack-pack_buffer memory base size index out room (omega arith) in
    let next : index * 3 + 3 ≡ (index + 1) * 3 = omega arith in
    let rest = samples-averages memory base size out rounds (index + 1) room (omega arith) in
    λ i.
      r i
      ∷ l i
      ∷ (ap (samples (λ k. get_or (pack_buffer memory base size out) k 0) rounds) next ∙ rest) i

-- What is printed of the first `rounds` rounds of a packed buffer.
abbrev Printed : (ℕ → ℕ) → ℕ → ℕ → ℕ → List ℕ → List ℕ → Type 0
Printed memory base size rounds out buffer =
    (text zs : List ℕ) × (print_values_downsampled buffer
        (λ k. get_or (pack_buffer memory base size out) k 0) (3 * rounds)
      ≡ some ((display_buffer_start ++ text) ++ (display_buffer_end ++ zs)))
    × (length ((display_buffer_start ++ text) ++ (display_buffer_end ++ zs)) ≡ length buffer)
    × (read_numbers 0 text ≡ averages memory base rounds 0)

print_packed :
    (memory : ℕ → ℕ) (base size : ℕ) (out buffer : List ℕ) (rounds : ℕ)
    → rounds ≡ size / (rate * 2)
    → rounds * 3 ≤ length out
    → 0 < rounds
    → 10 * rounds + 10 ≤ length buffer
    → 10 * rounds + 10 < 2 ^ 16
    → Printed memory base size rounds out buffer
print_packed memory base size out buffer zero e fits some_round room short = absurd (omega arith)
print_packed memory base size out buffer (suc n) e fits some_round room short =
    let v = right_value memory base 0 in
    let vs : List ℕ = left_value memory base 0 ∷ averages memory base n 1 in
    let small = averages-AreSmall memory base (suc n) 0 in
    let packed = samples-averages memory base size out (suc n) 0 (omega arith) (omega arith) in
    let (zs, runs, whole) =
      print_listing buffer (λ k. get_or (pack_buffer memory base size out) k 0) (suc n) v vs packed
        small room short in
    (listing v vs, zs, runs, whole, read_numbers-listing v vs small)

-- A buffer that the downsampling thread packed from at least one round of ADC words is printed in
-- full, if the text buffer has ten characters for each round and ten more, fewer than 2 ^ 16: no
-- write leaves the text buffer, and the text between "buffer=[" and "];" reads back as the averages
-- in their order.
pub print-pack_buffer :
    (memory : ℕ → ℕ) (base size : ℕ) (out buffer : List ℕ)
    → size / (rate * 2) * 3 ≤ length out
    → 0 < size / (rate * 2)
    → 10 * (size / (rate * 2)) + 10 ≤ length buffer
    → 10 * (size / (rate * 2)) + 10 < 2 ^ 16
    → (text zs : List ℕ) × (print_values_downsampled buffer
          (λ k. get_or (pack_buffer memory base size out) k 0)
          (3 * (size / (rate * 2)))
        ≡ some ((display_buffer_start ++ text) ++ (display_buffer_end ++ zs)))
      × (length ((display_buffer_start ++ text) ++ (display_buffer_end ++ zs)) ≡ length buffer)
      × (read_numbers 0 text ≡ averages memory base (size / (rate * 2)) 0)
print-pack_buffer memory base size out buffer =
    print_packed memory base size out buffer (size / (rate * 2)) refl
