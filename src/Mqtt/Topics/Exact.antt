-- ===== src/Mqtt/Topics/Exact.antt =====
-- A filter without wildcards matches the topic of its own name, and no other.
use plhr_firmware.Common.{
  subst, ℕ, zero, suc, ◌+◌, ◌<◌, ◌≡◌, refl, ap, ◌≢◌, ◌⊎◌, inl, inr, List, [], ◌∷◌, none, some,
  length, arith, true, false, ==_ne, if◌then◌else◌, ℕ_discrete,
}
use plhr_firmware.Mqtt.Topics.{
  slash, hash, plus, matched, unmatched, return, after_slash, level_length, same_bytes, next_levels,
  level_round, round, match_from, topic_matching,
}
use plhr_firmware.Mqtt.Topics.Loop.{length-after_slash}

-- A C string: no byte is the NUL.
abbrev pub IsText : List ℕ → Type 0
IsText [] = Unit {0}
IsText (c ∷ s) = (c ≢ 0) × IsText s

abbrev pub IsLiteral : List ℕ → Type 0
IsLiteral [] = Unit {0}
IsLiteral (c ∷ s) = (c ≢ hash) × (c ≢ plus) × IsLiteral s

-- What the comparison of one level says of the whole strings.
data Level (s p : List ℕ) : Type 0 where
  differs : same_bytes (level_length s + 1) s p ≡ false → s ≢ p → Level s p
  last :
      same_bytes (level_length s + 1) s p ≡ true
      → after_slash s ≡ none
      → after_slash p ≡ none
      → s ≡ p
      → Level s p
  more :
      (s' p' : List ℕ)
      → same_bytes (level_length s + 1) s p ≡ true
      → after_slash s ≡ some s'
      → after_slash p ≡ some p'
      → (s ≡ p → s' ≡ p')
      → (s' ≡ p' → s ≡ p)
      → Level s p

cons_injective : (c d : ℕ) (s p : List ℕ) → c ∷ s ≡ d ∷ p → s ≡ p
cons_injective c d s p h = ground arith

Level-cons : (c : ℕ) (s p : List ℕ) → c ≢ 0 → c ≢ slash → Level s p → Level (c ∷ s) (c ∷ p)
unfolding same_bytes level_length after_slash
Level-cons c s p nz ns (differs b ne) = differs (ground arith) (λ e. ne (cons_injective c c s p e))
Level-cons c s p nz ns (last b n n' e) =
    last (ground arith) (ground arith) (ground arith) (ap (λ (t : List ℕ). c ∷ t) e)
Level-cons c s p nz ns (more s' p' b n n' f g) =
    more s' p' (ground arith) (ground arith) (ground arith) (λ e. f (cons_injective c c s p e))
      (λ e. ap (λ (t : List ℕ). c ∷ t) (g e))

Level-cases : (s p : List ℕ) → IsText s → IsText p → Level s p
unfolding same_bytes level_length after_slash
Level-cases [] [] t u = last refl refl refl refl
Level-cases [] (d ∷ p) t u = differs (ground arith) (λ e. cc)
Level-cases (c ∷ s) [] t u = differs (ground arith) (λ e. cc)
Level-cases (c ∷ s) (d ∷ p) t u = elim (ℕ_discrete c d) [
  | no ne ↦ differs (ground arith) (λ e. ground arith)
  | yes e ↦ rw (← e) (elim (ℕ_discrete c slash) [
    | yes sl ↦
        more s p (ground arith) (ground arith) (ground arith) (λ e. cons_injective c c s p e)
          (λ e. ap (λ (t : List ℕ). c ∷ t) e)
    | no ns ↦ Level-cons c s p t.0 ns (Level-cases s p t.1 u.1)
  ])
]

round_literal :
    (s p : List ℕ)
    → IsLiteral s
    → round s (some p) ≡ (
        if same_bytes (level_length s + 1) s p
        then next_levels (after_slash s) (after_slash p)
        else return unmatched)
unfolding round level_round
round_literal [] p l = refl
round_literal (c ∷ s) p l = ground arith

IsText-after_slash : (s s' : List ℕ) → IsText s → after_slash s ≡ some s' → IsText s'
unfolding after_slash
IsText-after_slash [] s' t e = cc
IsText-after_slash (c ∷ s) s' t e = elim (ℕ_discrete c slash) [
  | yes sl ↦ let same : s ≡ s' = ground arith in subst IsText same t.1
  | no ns ↦ IsText-after_slash s s' t.1 (rw (==_ne c slash ns) at e)
]

IsLiteral-after_slash : (s s' : List ℕ) → IsLiteral s → after_slash s ≡ some s' → IsLiteral s'
unfolding after_slash
IsLiteral-after_slash [] s' t e = cc
IsLiteral-after_slash (c ∷ s) s' t e = elim (ℕ_discrete c slash) [
  | yes sl ↦ let same : s ≡ s' = ground arith in subst IsLiteral same t.2
  | no ns ↦ IsLiteral-after_slash s s' t.2 (rw (==_ne c slash ns) at e)
]

exact_from :
    (fuel : ℕ) (s p : List ℕ)
    → length s < fuel
    → IsText s
    → IsText p
    → IsLiteral s
    → ((match_from fuel s (some p) ≡ some matched) × (s ≡ p))
      ⊎ ((match_from fuel s (some p) ≡ some unmatched) × (s ≢ p))
unfolding match_from next_levels
exact_from zero s p h t u l = absurd (omega arith)
exact_from (suc fuel) s p h t u l =
    let r = round_literal s p l in
    elim (Level-cases s p t u) [
      | differs b ne ↦ inr (rw (r, match_from, b), ne)
      | last b n n' e ↦ inl (rw (r, match_from, b, n, n'), e)
      | more s' p' b n n' f g ↦
          let shorter = length-after_slash s s' n in
          elim (exact_from fuel s' p' (omega arith) (IsText-after_slash s s' t n)
            (IsText-after_slash p p' u n') (IsLiteral-after_slash s s' l n)) [
              | inl (m, e) ↦ inl (rw (r, match_from, b, n, n') m, g e)
              | inr (m, ne) ↦ inr (rw (r, match_from, b, n, n') m, λ e. ne (f e))
            ]
    ]

-- For C strings, a filter with no wildcard in it matches the topic that equals it, and no other
-- topic. The pointers stay inside the strings.
pub topic_matching_exact :
    (s p : List ℕ)
    → IsText s
    → IsText p
    → IsLiteral s
    → ((topic_matching s p ≡ some matched) × (s ≡ p))
      ⊎ ((topic_matching s p ≡ some unmatched) × (s ≢ p))
unfolding topic_matching
topic_matching_exact s p t u l = exact_from (suc (length s)) s p (omega arith) t u l
