-- ===== src/Samples/RoundTrip.antt =====
-- What Core/print_user.c unpacks is what Core/dws_user.c packed.
use plhr_firmware.Common.{
  ℕ, zero, suc, ◌+◌, ◌*◌, ◌/◌, ◌%◌, ◌^◌, ◌≤◌, ◌<◌, ◌≡◌, refl, ◌∙◌, List, length, get_or, set,
  bit_and, arith, bit_and_mask, bit_or_disjoint, ◌==◌, ==_iff, holds_below, holds_below_sound, true,
  ◌⊎◌, inl, inr, ℕ_discrete, length-set, get_or-set_self, get_or-set_ne,
}
use plhr_firmware.Samples.{
  rate, right_value, left_value, pack, store3, pack_from, pack_buffer, unpack_right, unpack_left,
}
use plhr_firmware.Samples.Average.{right_value-lt, left_value-lt}

pack_lem : (right left : ℕ) → right < 4096 → left < 4096 → pack right left ≡ right + left * 4096
unfolding pack
pack_lem right left hr hl =
    let low : bit_and right 0xfff ≡ right = omega (arith, bit_and_mask 12 right) in
    let high : left * 2 ^ 12 % 2 ^ 32 ≡ left * 2 ^ 12 = omega arith in
    rw (low, high) (bit_or_disjoint 12 right left hr)

-- The three bytes of `word` stand at `i`.
abbrev Holds : (ℕ → ℕ) → ℕ → ℕ → Type 0
Holds bytes i word =
    (bytes i ≡ word % 256)
    × (bytes (i + 1) ≡ word / 256 % 256)
    × (bytes (i + 2) ≡ word / 65536 % 256)

unpack_right_lem :
    (bytes : ℕ → ℕ) (i : ℕ)
    → bytes i < 256
    → bytes (i + 1) < 256
    → unpack_right bytes i ≡ bytes i + bytes (i + 1) % 16 * 256
unfolding unpack_right
unpack_right_lem bytes i h k =
    let byte : bit_and (bytes (i + 1)) 0xff ≡ bytes (i + 1) =
      omega (arith, bit_and_mask 8 (bytes (i + 1))) in
    rw (byte, bit_or_disjoint 8 (bytes i) (bytes (i + 1)) h)
      (omega (arith, bit_and_mask 12 (bytes i + bytes (i + 1) * 256)))

nibble_table : holds_below (λ b. bit_and b 0xff0 / 16 == b / 16) 256 ≡ true
unfolding holds_below
nibble_table = refl

high_nibble : (b : ℕ) → b < 256 → bit_and b 0xff0 / 16 ≡ b / 16
high_nibble b h =
    (==_iff _ (b / 16)).0
      (holds_below_sound (λ k. bit_and k 0xff0 / 16 == k / 16) 256 b h nibble_table)

unpack_left_lem :
    (bytes : ℕ → ℕ) (i : ℕ)
    → bytes (i + 1) < 256
    → unpack_left bytes i ≡ bytes (i + 1) / 16 + bytes (i + 2) * 16
unfolding unpack_left
unpack_left_lem bytes i h =
    rw (high_nibble (bytes (i + 1)) h)
      (bit_or_disjoint 4 (bytes (i + 1) / 16) (bytes (i + 2)) (omega arith))

unpack-pack :
    (bytes : ℕ → ℕ) (i right left : ℕ)
    → right < 4096
    → left < 4096
    → Holds bytes i (pack right left)
    → (unpack_right bytes i ≡ right) × (unpack_left bytes i ≡ left)
unpack-pack bytes i right left hr hl (b0, b1, b2) =
    let word = pack_lem right left hr hl in
    omega (
      arith,
      unpack_right_lem bytes i (omega arith) (omega arith),
      unpack_left_lem bytes i (omega arith),
    )

length-store3 : (out : List ℕ) (a w : ℕ) → length (store3 out a w) ≡ length out
unfolding store3
length-store3 out a w =
    length-set (set (set out a (w % 256)) (a + 1) (w / 256 % 256)) (a + 2) (w / 65536 % 256)
    ∙ length-set (set out a (w % 256)) (a + 1) (w / 256 % 256)
    ∙ length-set out a (w % 256)

store3-Holds :
    (out : List ℕ) (a w : ℕ) → a + 2 < length out → Holds (λ k. get_or (store3 out a w) k 0) a w
unfolding store3
store3-Holds out a w h =
    let one : List ℕ = set out a (w % 256) in
    let two : List ℕ = set one (a + 1) (w / 256 % 256) in
    let n1 : length one ≡ length out = length-set out a (w % 256) in
    let n2 : length two ≡ length one = length-set one (a + 1) (w / 256 % 256) in
    (
      get_or-set_ne two (a + 2) a (w / 65536 % 256) 0 (omega arith)
          ∙ get_or-set_ne one (a + 1) a (w / 256 % 256) 0 (omega arith)
          ∙ get_or-set_self out a (w % 256) 0 (omega arith),
      get_or-set_ne two (a + 2) (a + 1) (w / 65536 % 256) 0 (omega arith)
          ∙ get_or-set_self one (a + 1) (w / 256 % 256) 0 (omega arith),
      get_or-set_self two (a + 2) (w / 65536 % 256) 0 (omega arith),
    )

get_or-store3_ne :
    (out : List ℕ) (a w k : ℕ)
    → (k < a) ⊎ (a + 3 ≤ k)
    → get_or (store3 out a w) k 0 ≡ get_or out k 0
unfolding store3
get_or-store3_ne out a w k h =
    get_or-set_ne (set (set out a (w % 256)) (a + 1) (w / 256 % 256)) (a + 2) k (w / 65536 % 256) 0
      (omega arith)
    ∙ get_or-set_ne (set out a (w % 256)) (a + 1) k (w / 256 % 256) 0 (omega arith)
    ∙ get_or-set_ne out a k (w % 256) 0 (omega arith)

module _ (memory : ℕ → ℕ) (base : ℕ) where
  -- The word that round `i` packs.
  abbrev word_at : ℕ → ℕ
  word_at i = pack (right_value memory base i) (left_value memory base i)

  pub length-pack_from :
      (rounds index : ℕ) (out : List ℕ)
      → length (pack_from memory base rounds index out) ≡ length out
  unfolding pack_from
  length-pack_from zero index out = refl
  length-pack_from (suc rounds) index out =
      length-pack_from rounds (index + 1) (store3 out (index * 3) (word_at index))
      ∙ length-store3 out (index * 3) (word_at index)

  get_or-pack_from_ne :
      (rounds index k : ℕ) (out : List ℕ)
      → (k < index * 3) ⊎ ((index + rounds) * 3 ≤ k)
      → get_or (pack_from memory base rounds index out) k 0 ≡ get_or out k 0
  unfolding pack_from
  get_or-pack_from_ne zero index k out h = refl
  get_or-pack_from_ne (suc rounds) index k out h =
      get_or-pack_from_ne rounds (index + 1) k (store3 out (index * 3) (word_at index))
        (omega arith)
      ∙ get_or-store3_ne out (index * 3) (word_at index) k (omega arith)

  pack_from-Holds :
      (rounds index i : ℕ) (out : List ℕ)
      → (index + rounds) * 3 ≤ length out
      → index ≤ i
      → i < index + rounds
      → Holds (λ k. get_or (pack_from memory base rounds index out) k 0) (i * 3) (word_at i)
  unfolding pack_from
  pack_from-Holds zero index i out h lo hi = absurd (omega arith)
  pack_from-Holds (suc rounds) index i out h lo hi =
      let out' : List ℕ = store3 out (index * 3) (word_at index) in
      elim (ℕ_discrete i index) [
        | yes e ↦ rw e (
            let (b0, b1, b2) = store3-Holds out (index * 3) (word_at index) (omega arith) in
            (
              get_or-pack_from_ne rounds (index + 1) (index * 3) out' (inl (omega arith)) ∙ b0,
              get_or-pack_from_ne rounds (index + 1) (index * 3 + 1) out' (inl (omega arith)) ∙ b1,
              get_or-pack_from_ne rounds (index + 1) (index * 3 + 2) out' (inl (omega arith)) ∙ b2,
            ))
        | no ne ↦
            pack_from-Holds rounds (index + 1) i out'
              (omega (arith, length-store3 out (index * 3) (word_at index))) (omega arith)
              (omega arith)
      ]

  -- Every three bytes that the packing loop writes are unpacked to the two averages of their round,
  -- if the buffer has room for three bytes a round.
  pub unpack-pack_buffer :
      (size i : ℕ) (out : List ℕ)
      → size / (rate * 2) * 3 ≤ length out
      → i < size / (rate * 2)
      → let bytes = λ (k : ℕ). get_or (pack_buffer memory base size out) k 0 in
        (unpack_right bytes (i * 3) ≡ right_value memory base i)
        × (unpack_left bytes (i * 3) ≡ left_value memory base i)
  unfolding pack_buffer
  unpack-pack_buffer size i out h hi =
      unpack-pack (λ k. get_or (pack_buffer memory base size out) k 0) (i * 3)
        (right_value memory base i) (left_value memory base i) (right_value-lt memory base i)
        (left_value-lt memory base i)
        (pack_from-Holds (size / (rate * 2)) 0 i out (omega arith) (omega arith) (omega arith))

  pub length-pack_buffer :
      (size : ℕ) (out : List ℕ) → length (pack_buffer memory base size out) ≡ length out
  unfolding pack_buffer
  length-pack_buffer size out = length-pack_from (size / (rate * 2)) 0 out

  -- Bytes past the last round are left as they were.
  pub pack_buffer_rest :
      (size k : ℕ) (out : List ℕ)
      → size / (rate * 2) * 3 ≤ k
      → get_or (pack_buffer memory base size out) k 0 ≡ get_or out k 0
  unfolding pack_buffer
  pack_buffer_rest size k out h =
      get_or-pack_from_ne (size / (rate * 2)) 0 k out (inr (omega arith))

-- The unpacking depends on the three bytes alone.
pub unpack_same :
    (f g : ℕ → ℕ) (i : ℕ)
    → f i ≡ g i
    → f (i + 1) ≡ g (i + 1)
    → f (i + 2) ≡ g (i + 2)
    → (unpack_right f i ≡ unpack_right g i) × (unpack_left f i ≡ unpack_left g i)
unfolding unpack_right unpack_left
unpack_same f g i e0 e1 e2 = (rw (e0, e1) refl, rw (e1, e2) refl)
