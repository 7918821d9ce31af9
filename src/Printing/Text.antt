-- ===== src/Printing/Text.antt =====
-- The text of `print_values_downsampled` fits its buffer and reads back as the samples.
use plhr_firmware.Common.{
  ℕ, zero, suc, ◌+◌, ◌-◌, ◌*◌, ◌%◌, ◌^◌, ◌≤◌, ◌<◌, ◌≡◌, refl, sym, ap, ◌∙◌, true, false, some, List,
  [], ◌∷◌, ◌++◌, append-nil, append_assoc, ltb, lt→ltb, ==_ne, ap₂, ◌==◌, if◌then◌else◌, length,
  length-append, set-append, take_all, drop, decimal, decimal-reads, read_decimal,
  decimal-AreDigits, AreDigits, length-decimal, arith,
}
use plhr_firmware.Samples.{unpack_right, unpack_left}
use plhr_firmware.Printing.{write_at, Uart, put, sample_text, print_from}

-- A write behind the bytes that are there replaces the ones that follow.
pub write_at-append :
    (xs bs ys : List ℕ)
    → length bs ≤ length ys
    → write_at (xs ++ ys) (length xs) bs ≡ some (xs ++ (bs ++ drop (length bs) ys))
unfolding write_at
write_at-append xs [] ys h = refl
write_at-append xs (b ∷ bs) [] h = absurd (omega arith)
write_at-append xs (b ∷ bs) (y ∷ ys) h =
    let inside : ltb (length xs) (length (xs ++ y ∷ ys)) ≡ true =
      lt→ltb _ _ (omega (arith, length-append xs (y ∷ ys))) in
    let there : length xs + 1 ≡ length (xs ++ b ∷ []) = omega (arith, length-append xs (b ∷ [])) in
    let split : (zs : List ℕ) → (xs ++ b ∷ []) ++ zs ≡ xs ++ (b ∷ zs) =
      λ zs. append_assoc xs (b ∷ []) zs in
    rw (inside, set-append xs y b ys, there, ← split ys)
      (write_at-append (xs ++ b ∷ []) bs ys (omega arith)
        ∙ ap some (split (bs ++ drop (length bs) ys)))

-- The text of a list of numbers, with a comma behind each.
abbrev pub items : List ℕ → List ℕ
items [] = []
items (v ∷ vs) = (decimal 5 v ++ 44 ∷ []) ++ items vs

-- The same for the numbers `v` and `vs` without the last comma.
abbrev pub listing : ℕ → List ℕ → List ℕ
listing v [] = decimal 5 v
listing v (w ∷ vs) = decimal 5 v ++ (44 ∷ listing w vs)

pub items-listing : (v : ℕ) (vs : List ℕ) → items (v ∷ vs) ≡ listing v vs ++ 44 ∷ []
items-listing v [] = append-nil (decimal 5 v ++ 44 ∷ [])
items-listing v (w ∷ vs) =
    append_assoc (decimal 5 v) (44 ∷ []) (items (w ∷ vs))
    ∙ ap (λ r. decimal 5 v ++ (44 ∷ r)) (items-listing w vs)
    ∙ sym (append_assoc (decimal 5 v) (44 ∷ listing w vs) (44 ∷ []))

-- Reads the numbers between commas.
abbrev pub read_numbers : ℕ → List ℕ → List ℕ
read_numbers n [] = n ∷ []
read_numbers n (c ∷ cs) =
    let next = n ∷ read_numbers 0 cs in
    let more = read_numbers (n * 10 + (c - 48)) cs in if c == 44 then next else more

read_numbers-digits :
    (n : ℕ) (ds cs : List ℕ)
    → AreDigits ds
    → read_numbers n (ds ++ cs) ≡ read_numbers (read_decimal n ds) cs
read_numbers-digits n [] cs h = refl
read_numbers-digits n (d ∷ ds) cs h =
    let digit : (d == 44) ≡ false = ==_ne d 44 (λ e. absurd (omega arith)) in
    rw digit (read_numbers-digits (n * 10 + (d - 48)) ds cs h.2)

-- Every number has at most twelve bits.
abbrev pub AreSmall : List ℕ → Type 0
AreSmall [] = Unit {0}
AreSmall (v ∷ vs) = (v < 4096) × AreSmall vs

pub read_numbers-listing :
    (v : ℕ) (vs : List ℕ) → AreSmall (v ∷ vs) → read_numbers 0 (listing v vs) ≡ v ∷ vs
read_numbers-listing v [] h =
    ap (read_numbers 0) (sym (append-nil (decimal 5 v)))
    ∙ read_numbers-digits 0 (decimal 5 v) [] (decimal-AreDigits 5 v)
    ∙ ap (λ n. n ∷ []) (decimal-reads 5 v (omega arith))
read_numbers-listing v (w ∷ vs) h =
    read_numbers-digits 0 (decimal 5 v) (44 ∷ listing w vs) (decimal-AreDigits 5 v)
    ∙ ap₂ (λ n r. n ∷ r) (decimal-reads 5 v (omega arith)) (read_numbers-listing w vs h.1)

-- The cursor stands behind the text `t` in a buffer that goes on with `ys`.
abbrev pub behind : List ℕ → List ℕ → Uart
behind t ys = record { buffer_to_uart = t ++ ys; cnt_buffer_uart = length t }

pub put_lem :
    (t bs ys : List ℕ)
    → length bs ≤ length ys
    → length t + length bs < 2 ^ 16
    → put bs (behind t ys) ≡ some (behind (t ++ bs) (drop (length bs) ys))
unfolding put
put_lem t bs ys h k =
    let moved : (length t + length bs) % 2 ^ 16 ≡ length (t ++ bs) =
      omega (arith, length-append t bs) in
    rw (write_at-append t bs ys h, put, moved, append_assoc t bs (drop (length bs) ys)) refl

length-item : (v : ℕ) → v < 4096 → length (decimal 5 v ++ 44 ∷ []) ≤ 5
length-item v h =
    omega (arith, length-append (decimal 5 v) (44 ∷ []), length-decimal 5 3 v (omega arith))

sample_text_lem : (v : ℕ) → v < 4096 → sample_text v ≡ decimal 5 v ++ 44 ∷ []
unfolding sample_text
sample_text_lem v h = take_all 9 (decimal 5 v ++ 44 ∷ []) (omega (arith, length-item v h))

pub length-drop : (n : ℕ) (ys : List ℕ) → length (drop n ys) ≡ length ys - n
length-drop zero ys = omega arith
length-drop (suc n) [] = omega arith
length-drop (suc n) (y ∷ ys) = omega (arith, length-drop n ys)

-- The samples that the loop takes out of the bytes from `index` on.
abbrev pub samples : (ℕ → ℕ) → ℕ → ℕ → List ℕ
samples bytes zero index = []
samples bytes (suc rounds) index =
    unpack_right bytes index ∷ unpack_left bytes index ∷ samples bytes rounds (index + 3)

put_sample :
    (v : ℕ) (t ys : List ℕ)
    → v < 4096
    → 5 ≤ length ys
    → length t + 5 < 2 ^ 16
    → let item = decimal 5 v ++ 44 ∷ [] in
      put (sample_text v) (behind t ys) ≡ some (behind (t ++ item) (drop (length item) ys))
put_sample v t ys h room short =
    let e = length-item v h in
    rw (sample_text_lem v h)
      (put_lem t (decimal 5 v ++ 44 ∷ []) ys (omega (arith, e)) (omega (arith, e)))

print_round :
    (bytes : ℕ → ℕ) (rounds index : ℕ) (u v w : Uart)
    → put (sample_text (unpack_right bytes index)) u ≡ some v
    → put (sample_text (unpack_left bytes index)) v ≡ some w
    → print_from bytes (suc rounds) index u ≡ print_from bytes rounds (index + 3) w
unfolding print_from
print_round bytes rounds index u v w e f = rw (e, print_from) (rw (f, print_from) refl)

pub print_from_lem :
    (bytes : ℕ → ℕ) (rounds index : ℕ) (t ys : List ℕ)
    → AreSmall (samples bytes rounds index)
    → 10 * rounds ≤ length ys
    → length t + 10 * rounds < 2 ^ 16
    → (zs : List ℕ) × (print_from bytes rounds index (behind t ys)
        ≡ some (behind (t ++ items (samples bytes rounds index)) zs))
      × (length ys ≤ length zs + 10 * rounds)
      × (length (t ++ items (samples bytes rounds index)) + length zs ≡ length t + length ys)
unfolding print_from
print_from_lem bytes zero index t ys h room short = (
  ys,
  ap (λ s. some (behind s ys)) (sym (append-nil t)),
  omega arith,
  ap (λ s. length s + length ys) (append-nil t),
)
print_from_lem bytes (suc rounds) index t ys h room short =
    let r = unpack_right bytes index in
    let l = unpack_left bytes index in
    let t1 : List ℕ = t ++ (decimal 5 r ++ 44 ∷ []) in
    let t2 : List ℕ = t1 ++ (decimal 5 l ++ 44 ∷ []) in
    let y1 : List ℕ = drop (length (decimal 5 r ++ 44 ∷ [])) ys in
    let y2 : List ℕ = drop (length (decimal 5 l ++ 44 ∷ [])) y1 in
    let n1 = length-append t (decimal 5 r ++ 44 ∷ []) in
    let n2 = length-append t1 (decimal 5 l ++ 44 ∷ []) in
    let d1 = length-drop (length (decimal 5 r ++ 44 ∷ [])) ys in
    let d2 = length-drop (length (decimal 5 l ++ 44 ∷ [])) y1 in
    let lr = length-item r h.0 in
    let ll = length-item l h.1.0 in
    let (zs, runs, used, kept) =
      print_from_lem bytes rounds (index + 3) t2 y2 h.1.1 (omega arith) (omega arith) in
    let same : t2 ++ items (samples bytes rounds (index + 3))
        ≡ t ++ items (samples bytes (suc rounds) index) =
      append_assoc t1 (decimal 5 l ++ 44 ∷ []) (items (samples bytes rounds (index + 3)))
      ∙ append_assoc t (decimal 5 r ++ 44 ∷ []) (items (l ∷ samples bytes rounds (index + 3))) in
    (
      zs,
      print_round bytes rounds index (behind t ys) (behind t1 y1) (behind t2 y2)
            (put_sample r t ys h.0 (omega arith) (omega arith))
            (put_sample l t1 y1 h.1.0 (omega arith) (omega arith))
          ∙ runs
          ∙ ap (λ s. some (behind s zs)) same,
      omega arith,
      ap (λ s. length s + length zs) (sym same) ∙ omega arith,
    )
