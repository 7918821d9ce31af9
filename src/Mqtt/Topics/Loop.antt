-- ===== src/Mqtt/Topics/Loop.antt =====
-- The loop of `MQTTHelperTopicMatching` ends, whatever the strings.
use plhr_firmware.Common.{
  ℕ, zero, suc, ◌<◌, ◌≡◌, refl, ◌⊎◌, inl, inr, List, [], ◌∷◌, Option, none, some, length, arith,
}
use plhr_firmware.Mqtt.Topics.{
  Match, Round, return, continue, after_slash, next_levels, level_round, round, match_from,
  topic_matching,
}

Round-cases :
    (r : Round)
    → ((m : Match) × (r ≡ return m)) ⊎ ((s : List ℕ) × (p : Option (List ℕ)) × (r ≡ continue s p))
Round-cases (return m) = inl (m, refl)
Round-cases (continue s p) = inr (s, p, refl)

pub length-after_slash : (s s' : List ℕ) → after_slash s ≡ some s' → length s' < length s
unfolding after_slash
length-after_slash [] s' h = cc
length-after_slash (c ∷ s) s' h = ground (arith, length-after_slash s s')

-- A round that goes on has taken a level off the filter.
round-continue :
    (s s' : List ℕ) (p p' : Option (List ℕ)) → round s p ≡ continue s' p' → after_slash s ≡ some s'
unfolding round level_round next_levels
round-continue s s' none p' h = ground arith
round-continue s s' (some p) p' h = ground arith

pub match_from_mono :
    (fuel fuel' : ℕ) (s : List ℕ) (p : Option (List ℕ))
    → length s < fuel
    → length s < fuel'
    → match_from fuel s p ≡ match_from fuel' s p
unfolding match_from
match_from_mono zero fuel' s p h h' = absurd (omega arith)
match_from_mono (suc fuel) zero s p h h' = absurd (omega arith)
match_from_mono (suc fuel) (suc fuel') s p h h' = elim (Round-cases (round s p)) [
  | inl (m, e) ↦ rw (e, match_from)
  | inr (s', p', e) ↦
      let shorter = length-after_slash s s' (round-continue s s' p p' e) in
      rw (e, match_from) (match_from_mono fuel fuel' s' p' (omega arith) (omega arith))
]

pub match_from_total :
    (fuel : ℕ) (s : List ℕ) (p : Option (List ℕ))
    → length s < fuel
    → (m : Match) × (match_from fuel s p ≡ some m)
unfolding match_from
match_from_total zero s p h = absurd (omega arith)
match_from_total (suc fuel) s p h = elim (Round-cases (round s p)) [
  | inl (m, e) ↦ (m, rw (e, match_from))
  | inr (s', p', e) ↦
      let shorter = length-after_slash s s' (round-continue s s' p p' e) in
      rw (e, match_from) (match_from_total fuel s' p' (omega arith))
]

-- The matching of a filter and a topic always ends with an answer or a fault.
pub topic_matching_total : (s p : List ℕ) → (m : Match) × (topic_matching s p ≡ some m)
unfolding topic_matching
topic_matching_total s p = match_from_total (suc (length s)) s (some p) (omega arith)
