-- ===== src/Terminal/Trimming.antt =====
-- `TrimSpace` takes the blanks off both ends of a text.
use plhr_firmware.Common.{
  ℕ, zero, suc, ◌+◌, ◌-◌, ◌≤◌, ◌<◌, ◌≡◌, ◌≢◌, refl, sym, ap, ap₂, ◌∙◌, Option, none, some, List, [],
  ◌∷◌, ◌++◌, append-nil, append_assoc, lt→ltb, ◌==◌, ==_iff, ==_ne, Bool-cases, inl, inr, length,
  length-append, get_elem?, set-append, take, length-take, drop, replicate, replicate-snoc,
  length-replicate, take_all, subst, arith,
}
use plhr_firmware.Terminal.{store, strlen, trim_end, skip_spaces, move_back, trim_from, trim_space}

-- A text has no zero byte.
abbrev pub IsText : List ℕ → Type 0
IsText [] = Unit {0}
IsText (c ∷ cs) = (c ≢ 0) × IsText cs

abbrev pub IsDark : Option ℕ → Type 0
IsDark none = Unit {0}
IsDark (some c) = c ≢ 32

-- No blank at either end.
abbrev pub IsTrimmed : List ℕ → Type 0
IsTrimmed u = IsDark (get_elem? u 0) × IsDark (get_elem? u (length u - 1))

IsText-left : (xs ys : List ℕ) → IsText (xs ++ ys) → IsText xs
IsText-left [] ys h = tt
IsText-left (x ∷ xs) ys h = (h.0, IsText-left xs ys h.1)

IsText-right : (xs ys : List ℕ) → IsText (xs ++ ys) → IsText ys
IsText-right [] ys h = h
IsText-right (x ∷ xs) ys h = IsText-right xs ys h.1

pub strlen-text : (t tail : List ℕ) → IsText t → strlen (t ++ 0 ∷ tail) ≡ some (length t)
unfolding strlen
strlen-text [] tail h = refl
strlen-text (c ∷ t) tail h = rw (==_ne c 0 h.0, strlen-text t tail h.1) refl

get_elem?-append : (xs ys : List ℕ) (i : ℕ) → get_elem? (xs ++ ys) (length xs + i) ≡ get_elem? ys i
get_elem?-append [] ys i = ap (get_elem? ys) (omega arith)
get_elem?-append (x ∷ xs) ys i =
    let e : suc (length xs) + i ≡ suc (length xs + i) = omega arith in
    rw e (get_elem?-append xs ys i)

-- Character `k` of a text, in the array and behind the characters before it.
character :
    (t rest : List ℕ) (k : ℕ)
    → k < length t
    → (c : ℕ) × (get_elem? (t ++ rest) k ≡ some c) × (take (suc k) t ≡ take k t ++ c ∷ [])
character [] rest k h = absurd (omega arith)
character (c ∷ t) rest zero h = (c, refl, refl)
character (c ∷ t) rest (suc k) h =
    let (d, at, e) = character t rest k (omega arith) in (d, at, ap (λ r. c ∷ r) e)

last-snoc : (xs : List ℕ) (c : ℕ) → get_elem? (xs ++ c ∷ []) (length (xs ++ c ∷ []) - 1) ≡ some c
last-snoc xs c =
    let e : length (xs ++ c ∷ []) - 1 ≡ length xs + 0 = omega (arith, length-append xs (c ∷ [])) in
    rw e (get_elem?-append xs (c ∷ []) 0)

-- The first loop leaves out blanks, and ends behind another character.
trim_end_lem :
    (t rest : List ℕ) (k : ℕ)
    → k ≤ length t
    → (v : List ℕ) × (b : ℕ) × (take k t ≡ v ++ replicate b 32)
      × (trim_end (t ++ rest) k ≡ length v)
      × IsDark (get_elem? v (length v - 1))
unfolding trim_end
trim_end_lem t rest zero h = ([], 0, refl, refl, tt)
trim_end_lem t rest (suc k) h =
    let (c, at, grown) = character t rest k (omega arith) in
    elim (Bool-cases (c == 32)) [
      | inl blank ↦
          let (v, b, split, ends, dark) = trim_end_lem t rest k (omega arith) in
          let is_blank : c ≡ 32 = (==_iff c 32).0 blank in
          (
            v,
            suc b,
            grown
                ∙ ap₂ (λ xs d. xs ++ d ∷ []) split is_blank
                ∙ append_assoc v (replicate b 32) (32 ∷ [])
                ∙ ap (λ r. v ++ r) (replicate-snoc b 32),
            rw (at, trim_end) (rw blank ends),
            dark,
          )
      | inr other ↦ (
        take k t ++ c ∷ [],
        0,
        grown ∙ sym (append-nil (take k t ++ c ∷ [])),
        rw (at, trim_end)
            (rw other
              (omega (arith, length-append (take k t) (c ∷ []), length-take t k (omega arith)))),
        rw (last-snoc (take k t) c) (λ e. absurd (cc ((==_iff c 32).1 e))),
      )
    ]

-- The second loop leaves out blanks, and stops at another character.
skip_spaces_lem :
    (v tail : List ℕ)
    → (a : ℕ) × (u : List ℕ) × (v ≡ replicate a 32 ++ u)
      × (skip_spaces (v ++ 0 ∷ tail) ≡ u ++ 0 ∷ tail)
      × IsDark (get_elem? u 0)
unfolding skip_spaces
skip_spaces_lem [] tail = (0, [], refl, refl, tt)
skip_spaces_lem (c ∷ v) tail = elim (Bool-cases (c == 32)) [
  | inl blank ↦
      let (a, u, split, skips, dark) = skip_spaces_lem v tail in
      (suc a, u, ap₂ (λ d r. d ∷ r) ((==_iff c 32).0 blank) split, rw blank skips, dark)
  | inr other ↦ (0, c ∷ v, refl, rw other refl, λ e. absurd (cc ((==_iff c 32).1 e)))
]

-- The end of a text without its first part.
last-Dark :
    (a : ℕ) (u : List ℕ)
    → (let v = replicate a 32 ++ u in IsDark (get_elem? v (length v - 1)))
    → IsDark (get_elem? u (length u - 1))
last-Dark a [] h = tt
last-Dark a (c ∷ u) h =
    let r : List ℕ = replicate a 32 in
    let e : length (r ++ c ∷ u) - 1 ≡ length r + (length (c ∷ u) - 1) =
      omega (arith, length-append r (c ∷ u)) in
    rw (e, get_elem?-append r (c ∷ u) (length (c ∷ u) - 1)) at h

store_at : (v ys : List ℕ) (y : ℕ) → store (v ++ y ∷ ys) (length v) 0 ≡ some (v ++ 0 ∷ ys)
unfolding store
store_at v ys y =
    rw (lt→ltb (length v) (length (v ++ y ∷ ys)) (omega (arith, length-append v (y ∷ ys))))
      (ap some (set-append v y 0 ys))

-- The zero byte behind `v` falls on a blank, or on the zero byte that is there.
store_end :
    (v tail : List ℕ) (b : ℕ)
    → (ys : List ℕ) × (store ((v ++ replicate b 32) ++ 0 ∷ tail) (length v) 0 ≡ some (v ++ 0 ∷ ys))
      × (length ys ≡ b + length tail)
store_end v tail zero = (tail, rw (append-nil v) (store_at v tail 0), omega arith)
store_end v tail (suc b) = (
  replicate b 32 ++ 0 ∷ tail,
  rw (append_assoc v (32 ∷ replicate b 32) (0 ∷ tail)) (store_at v (replicate b 32 ++ 0 ∷ tail) 32),
  omega (arith, length-append (replicate b 32) (0 ∷ tail), length-replicate {A = ℕ} b 32),
)

take_text : (u ys : List ℕ) → take (length u + 1) (u ++ 0 ∷ ys) ≡ u ++ 0 ∷ []
take_text [] ys = refl
take_text (c ∷ u) ys =
    let e : suc (length u) + 1 ≡ suc (length u + 1) = omega arith in
    rw e (ap (λ r. c ∷ r) (take_text u ys))

length-drop : (xs : List ℕ) (n : ℕ) → n ≤ length xs → length (drop n xs) + n ≡ length xs
length-drop xs zero h = omega arith
length-drop [] (suc n) h = absurd (omega arith)
length-drop (x ∷ xs) (suc n) h = omega (arith, length-drop xs n (omega arith))

trim_from-runs :
    (n m k : ℕ) (buffer cut kept moved : List ℕ)
    → store buffer n 0 ≡ some cut
    → skip_spaces cut ≡ kept
    → strlen kept ≡ some m
    → move_back (m + 1) kept cut ≡ moved
    → strlen moved ≡ some k
    → trim_from n buffer ≡ some (k, moved)
unfolding trim_from
trim_from-runs n m k buffer cut kept moved stores skips short moves long = ground arith

-- From the write of the zero byte on.
trim_from_lem :
    (v tail : List ℕ) (b : ℕ)
    → IsText v
    → (a : ℕ) × (u zs : List ℕ) × (v ≡ replicate a 32 ++ u)
      × (trim_from (length v) ((v ++ replicate b 32) ++ 0 ∷ tail) ≡ some (length u, u ++ 0 ∷ zs))
      × (length (u ++ 0 ∷ zs) ≡ length v + (1 + (b + length tail)))
      × IsDark (get_elem? u 0)
trim_from_lem v tail b text =
    let (ys, stores, long) = store_end v tail b in
    let (a, u, split, skips, dark) = skip_spaces_lem v ys in
    let u_text : IsText u = IsText-right (replicate a 32) u (subst IsText split text) in
    let cut : List ℕ = v ++ 0 ∷ ys in
    let zs = drop (length u + 1) cut in
    let total : length v ≡ a + length u =
      ap length split
      ∙ length-append (replicate a 32) u
      ∙ ap (λ k. k + length u) (length-replicate a 32) in
    let moved : move_back (length u + 1) (u ++ 0 ∷ ys) cut ≡ u ++ 0 ∷ zs =
      ap (λ r. r ++ zs) (take_text u ys) ∙ append_assoc u (0 ∷ []) zs in
    (
      a,
      u,
      zs,
      split,
      trim_from-runs (length v) (length u) (length u) ((v ++ replicate b 32) ++ 0 ∷ tail) cut
          (u ++ 0 ∷ ys) (u ++ 0 ∷ zs) stores skips (strlen-text u ys u_text) moved
          (strlen-text u zs u_text),
      omega (
        arith,
        length-append u (0 ∷ zs),
        length-append v (0 ∷ ys),
        long,
        total,
        length-drop cut (length u + 1) (omega (arith, length-append v (0 ∷ ys), total)),
      ),
      dark,
    )

-- On an array with a text and its zero byte `TrimSpace` leaves the text without the blanks at its
-- ends, which is blanks, the trimmed text and blanks, with a zero byte, in an array of the same
-- length, and answers with the length of the trimmed text.
pub trim_space_lem :
    (t tail : List ℕ)
    → IsText t
    → (a b : ℕ) × (u zs : List ℕ) × (t ≡ replicate a 32 ++ (u ++ replicate b 32))
      × IsTrimmed u
      × (trim_space (t ++ 0 ∷ tail) ≡ some (length u, u ++ 0 ∷ zs))
      × (length (u ++ 0 ∷ zs) ≡ length (t ++ 0 ∷ tail))
unfolding trim_space
trim_space_lem [] tail text = (0, 0, [], tail, refl, (tt, tt), refl, refl)
trim_space_lem (c ∷ cs) tail text =
    let t = c ∷ cs in
    let (v, b, split, ends, dark) = trim_end_lem t (0 ∷ tail) (length t) (omega arith) in
    let whole : t ≡ v ++ replicate b 32 = sym (take_all (length t) t (omega arith)) ∙ split in
    let lengths : length t ≡ length v + b =
      ap length whole
      ∙ length-append v (replicate b 32)
      ∙ ap (λ k. length v + k) (length-replicate b 32) in
    let v_text = IsText-left v (replicate b 32) (subst IsText whole text) in
    let (a, u, zs, front, runs, long, first) = trim_from_lem v tail b v_text in
    (
      a,
      b,
      u,
      zs,
      whole
          ∙ ap (λ r. r ++ replicate b 32) front
          ∙ append_assoc (replicate a 32) u (replicate b 32),
      (first, last-Dark a u (subst (λ w. IsDark (get_elem? w (length w - 1))) front dark)),
      rw (strlen-text t tail text, trim_space)
          (rw ends (ap (λ w. trim_from (length v) (w ++ 0 ∷ tail)) whole ∙ runs)),
      long ∙ omega (arith, lengths, length-append t (0 ∷ tail)),
    )
