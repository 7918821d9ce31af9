-- ===== src/Mqtt/Topics/Levels.antt =====
-- `MQTTHelperTopicMatching` against a definition on lists of levels.
use plhr_firmware.Common.{
  ℕ, zero, suc, ◌+◌, ◌≤◌, ◌<◌, ◌≡◌, refl, ap, ◌≢◌, ◌∙◌, List, [], ◌∷◌, ◌++◌, Option, none, some,
  length, arith, ◌&&◌, ◌||◌, true, false, Bool, ◌==◌, ==_ne, if◌then◌else◌, length-append,
}
use plhr_firmware.Mqtt.Topics.{
  slash, hash, plus, Match, matched, unmatched, fault, return, continue, first, after_slash,
  level_length, same_bytes, next_levels, level_round, round, match_from, topic_matching,
}

-- The levels of a string, with slashes between them.
abbrev pub joined : List ℕ → List (List ℕ) → List ℕ
joined l [] = l
joined l (m ∷ ms) = l ++ (slash ∷ joined m ms)

-- A level: no byte is a slash or the NUL.
abbrev pub IsLevel : List ℕ → Type 0
IsLevel [] = Unit {0}
IsLevel (c ∷ l) = (c ≢ slash) × (c ≢ 0) × IsLevel l

abbrev pub AreLevels : List (List ℕ) → Type 0
AreLevels [] = Unit {0}
AreLevels (l ∷ ls) = IsLevel l × AreLevels ls

abbrev pub level_eq : List ℕ → List ℕ → Bool
level_eq [] [] = true
level_eq [] (_ ∷ _) = false
level_eq (_ ∷ _) [] = false
level_eq (c ∷ l) (d ∷ m) = c == d && level_eq l m

abbrev pub wild : List ℕ → List ℕ → Bool
wild s p = first s == plus || level_eq s p

-- A filter of levels `s` and `ss` against the levels of a topic. The empty list stands for the null
-- pointer that is left where the topic has too few levels.
unfoldable pub match_levels : List ℕ → List (List ℕ) → List (List ℕ) → Match
match_levels s ss [] = if first s == hash then matched else fault
match_levels s [] (p ∷ []) =
    if first s == hash then matched else if wild s p then matched else unmatched
match_levels s [] (p ∷ q ∷ ps) = if first s == hash then matched else unmatched
match_levels s (t ∷ ss) (p ∷ []) =
    let below = match_levels t ss [] in
    if first s == hash then matched else if first s == plus then below else unmatched
match_levels s (t ∷ ss) (p ∷ q ∷ ps) =
    let below = match_levels t ss (q ∷ ps) in
    if first s == hash then matched else if wild s p then below else unmatched

after_slash-level : (l : List ℕ) → IsLevel l → after_slash l ≡ none
unfolding after_slash
after_slash-level [] v = refl
after_slash-level (c ∷ l) v = rw (==_ne c slash v.0) (after_slash-level l v.2)

after_slash-joined : (l s : List ℕ) → IsLevel l → after_slash (l ++ (slash ∷ s)) ≡ some s
unfolding after_slash
after_slash-joined [] s v = refl
after_slash-joined (c ∷ l) s v = rw (==_ne c slash v.0) (after_slash-joined l s v.2)

level_length-level : (l : List ℕ) → IsLevel l → level_length l ≡ length l
unfolding level_length
level_length-level [] v = refl
level_length-level (c ∷ l) v = rw (==_ne c slash v.0) (ap suc (level_length-level l v.2))

level_length-joined : (l s : List ℕ) → IsLevel l → level_length (l ++ (slash ∷ s)) ≡ length l
unfolding level_length
level_length-joined [] s v = refl
level_length-joined (c ∷ l) s v = rw (==_ne c slash v.0) (ap suc (level_length-joined l s v.2))

-- Two levels with nothing behind either, or a slash behind both, are compared as levels.
same_bytes-last :
    (l m : List ℕ) → IsLevel l → IsLevel m → same_bytes (suc (length l)) l m ≡ level_eq l m
unfolding same_bytes
same_bytes-last [] [] v w = refl
same_bytes-last [] (d ∷ m) v w = ground arith
same_bytes-last (c ∷ l) [] v w = ground arith
same_bytes-last (c ∷ l) (d ∷ m) v w = ap (λ (b : Bool). c == d && b) (same_bytes-last l m v.2 w.2)

same_bytes-more :
    (l m s p : List ℕ)
    → IsLevel l
    → IsLevel m
    → same_bytes (suc (length l)) (l ++ (slash ∷ s)) (m ++ (slash ∷ p)) ≡ level_eq l m
unfolding same_bytes
same_bytes-more [] [] s p v w = refl
same_bytes-more [] (d ∷ m) s p v w = ground arith
same_bytes-more (c ∷ l) [] s p v w = ground arith
same_bytes-more (c ∷ l) (d ∷ m) s p v w =
    ap (λ (b : Bool). c == d && b) (same_bytes-more l m s p v.2 w.2)

-- A level with a slash behind it differs from one without.
same_bytes-long :
    (l m s : List ℕ)
    → IsLevel l
    → IsLevel m
    → same_bytes (suc (length l)) (l ++ (slash ∷ s)) m ≡ false
unfolding same_bytes
same_bytes-long [] [] s v w = refl
same_bytes-long [] (d ∷ m) s v w = ground arith
same_bytes-long (c ∷ l) [] s v w = ground arith
same_bytes-long (c ∷ l) (d ∷ m) s v w = ground (arith, same_bytes-long l m s v.2 w.2)

same_bytes-short :
    (l m p : List ℕ)
    → IsLevel l
    → IsLevel m
    → same_bytes (suc (length l)) l (m ++ (slash ∷ p)) ≡ false
unfolding same_bytes
same_bytes-short [] [] p v w = refl
same_bytes-short [] (d ∷ m) p v w = ground arith
same_bytes-short (c ∷ l) [] p v w = ground arith
same_bytes-short (c ∷ l) (d ∷ m) p v w = ground (arith, same_bytes-short l m p v.2 w.2)

hash-joined : (s : List ℕ) (ss : List (List ℕ)) → (first (joined s ss) == hash) ≡ (first s == hash)
hash-joined [] [] = refl
hash-joined [] (t ∷ ss) = refl
hash-joined (c ∷ s) [] = refl
hash-joined (c ∷ s) (t ∷ ss) = refl

plus-joined : (s : List ℕ) (ss : List (List ℕ)) → (first (joined s ss) == plus) ≡ (first s == plus)
plus-joined [] [] = refl
plus-joined [] (t ∷ ss) = refl
plus-joined (c ∷ s) [] = refl
plus-joined (c ∷ s) (t ∷ ss) = refl

-- The pointer to the rest of a topic.
abbrev topic_of : List (List ℕ) → Option (List ℕ)
topic_of [] = none
topic_of (p ∷ ps) = some (joined p ps)

add_one : (n : ℕ) → n + 1 ≡ suc n
add_one n = omega arith

module _ (s p : List ℕ) (vs : IsLevel s) (vp : IsLevel p) where
  round-last : round s (some p) ≡ (
      if first s == hash
      then return matched
      else if wild s p
      then return matched
      else return unmatched)
  unfolding round level_round next_levels
  round-last = rw (
    after_slash-level s vs,
    after_slash-level p vp,
    level_length-level s vs,
    add_one (length s),
    same_bytes-last s p vs vp,
  )

  round-long :
      (t : List ℕ)
      → round (s ++ (slash ∷ t)) (some p) ≡ (
          if first s == hash
          then return matched
          else if first s == plus
          then continue t none
          else return unmatched)
  unfolding round level_round next_levels
  round-long t =
      rw
        (
          hash-joined s (t ∷ []),
          plus-joined s (t ∷ []),
          after_slash-joined s t vs,
          after_slash-level p vp,
          level_length-joined s t vs,
          add_one (length s),
          same_bytes-long s p t vs vp,
        )
        (ground arith)

  round-short :
      (q : List ℕ)
      → round s (some (p ++ (slash ∷ q)))
        ≡ (if first s == hash then return matched else return unmatched)
  unfolding round level_round next_levels
  round-short q =
      rw
        (
          after_slash-level s vs,
          after_slash-joined p q vp,
          level_length-level s vs,
          add_one (length s),
          same_bytes-short s p q vs vp,
        )
        (ground arith)

  round-more :
      (t q : List ℕ)
      → round (s ++ (slash ∷ t)) (some (p ++ (slash ∷ q))) ≡ (
          if first s == hash
          then return matched
          else if wild s p
          then continue t (some q)
          else return unmatched)
  unfolding round level_round next_levels
  round-more t q = rw (
    hash-joined s (t ∷ []),
    plus-joined s (t ∷ []),
    after_slash-joined s t vs,
    after_slash-joined p q vp,
    level_length-joined s t vs,
    add_one (length s),
    same_bytes-more s p t q vs vp,
  )

round-null :
    (s : List ℕ) (ss : List (List ℕ))
    → round (joined s ss) none ≡ (if first s == hash then return matched else return fault)
unfolding round
round-null s ss = rw (hash-joined s ss)

levels_from :
    (fuel : ℕ) (s : List ℕ) (ss ps : List (List ℕ))
    → IsLevel s
    → AreLevels ss
    → AreLevels ps
    → length ss < fuel
    → match_from fuel (joined s ss) (topic_of ps) ≡ some (match_levels s ss ps)
unfolding match_from match_levels
levels_from zero s ss ps vs vss vps h = absurd (omega arith)
levels_from (suc fuel) s ss [] vs vss vps h = rw (round-null s ss, match_from) (ground arith)
levels_from (suc fuel) s [] (p ∷ []) vs vss vps h =
    rw (round-last s p vs vps.0, match_from) (ground arith)
levels_from (suc fuel) s [] (p ∷ q ∷ ps) vs vss vps h =
    rw (round-short s p vs vps.0 (joined q ps), match_from) (ground arith)
levels_from (suc fuel) s (t ∷ ss) (p ∷ []) vs vss vps h =
    rw (round-long s p vs vps.0 (joined t ss), match_from)
      (ground (arith, levels_from fuel t ss [] vss.0 vss.1 tt (omega arith)))
levels_from (suc fuel) s (t ∷ ss) (p ∷ q ∷ ps) vs vss vps h =
    rw (round-more s p vs vps.0 (joined t ss) (joined q ps), match_from)
      (ground (arith, levels_from fuel t ss (q ∷ ps) vss.0 vss.1 vps.1 (omega arith)))

length-joined : (s : List ℕ) (ss : List (List ℕ)) → length ss ≤ length (joined s ss)
length-joined s [] = omega arith
length-joined s (t ∷ ss) = omega (arith, length-append s (slash ∷ joined t ss), length-joined t ss)

-- On strings that are levels joined by slashes, the matching agrees level by level with
-- `match_levels`: a level of the filter that begins with `#` accepts what is left, one that begins
-- with `+` accepts one level, and any other must be equal. A filter that goes on behind a `+` at
-- the last level of the topic is a fault, a read through a null pointer, unless its next level
-- begins with `#`.
pub topic_matching_levels :
    (s p : List ℕ) (ss ps : List (List ℕ))
    → AreLevels (s ∷ ss)
    → AreLevels (p ∷ ps)
    → topic_matching (joined s ss) (joined p ps) ≡ some (match_levels s ss (p ∷ ps))
unfolding topic_matching
topic_matching_levels s p ss ps v w =
    levels_from (suc (length (joined s ss))) s ss (p ∷ ps) v.0 v.1 w
      (omega (arith, length-joined s ss))

-- A filter with a `+` level and at least one level behind it that does not begin with `#` reads
-- through a null pointer on every topic of one level.
pub plus_level_fault :
    (s t p : List ℕ) (ss : List (List ℕ))
    → AreLevels ((plus ∷ s) ∷ t ∷ ss)
    → IsLevel p
    → first t ≢ hash
    → topic_matching (joined (plus ∷ s) (t ∷ ss)) p ≡ some fault
unfolding match_levels
plus_level_fault s t p ss v w h =
    topic_matching_levels (plus ∷ s) p (t ∷ ss) [] v (w, tt) ∙ rest_is_null ss
  where
    rest_is_null :
        (us : List (List ℕ)) → some (match_levels (plus ∷ s) (t ∷ us) (p ∷ [])) ≡ some fault
    rest_is_null [] = rw (==_ne (first t) hash h)
    rest_is_null (u ∷ us) = rw (==_ne (first t) hash h)
