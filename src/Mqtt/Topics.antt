-- ===== src/Mqtt/Topics.antt =====
-- `MQTTHelperTopicMatching` of Core/mqtt_user.c: a topic filter `s` against a topic `p`. A C string
-- is the list of its bytes before the NUL.
pub mod Loop
pub mod Exact
pub mod Levels
use plhr_firmware.Common.{
  ℕ, zero, suc, ◌+◌, Bool, true, false, ◌&&◌, ◌||◌, arith, ◌≡◌, refl, ◌<◌, Option, none, some, List,
  [], ◌∷◌, ◌==◌, if◌then◌else◌, length,
}

abbrev pub slash : ℕ
slash = b'/'

abbrev pub hash : ℕ
hash = b'#'

abbrev pub plus : ℕ
plus = b'+'

-- `s[0]`, which is the NUL at the end.
abbrev pub first : List ℕ → ℕ
first [] = 0
first (c ∷ s) = c

abbrev pub rest : List ℕ → List ℕ
rest [] = []
rest (c ∷ s) = s

-- `strchr(s, '/') + 1`, or `none` for a null pointer.
pub after_slash : List ℕ → Option (List ℕ)
after_slash [] = none
after_slash (c ∷ s) = if c == slash then some s else after_slash s

-- `s_next - s`, or `strlen(s)` where there is no slash.
pub level_length : List ℕ → ℕ
level_length [] = 0
level_length (c ∷ s) = if c == slash then 0 else suc (level_length s)

-- `memcmp(s, p, len) == 0`. The bytes of `s` end with its NUL at the latest at `len`, so the first
-- difference stands at or before the NUL of `p`.
pub same_bytes : ℕ → List ℕ → List ℕ → Bool
same_bytes zero s p = true
same_bytes (suc len) s p = first s == first p && same_bytes len (rest s) (rest p)

-- What the function returns; `fault` is a read through `p_next + 1` where `p_next` is null.
pub data Match : Type 0 where
  matched unmatched fault : Match

-- What one round of the loop does: it returns, or goes on with the next levels. The pointer `p` is
-- `none` where it came from a null `p_next`.
pub data Round : Type 0 where
  return : Match → Round
  continue : List ℕ → Option (List ℕ) → Round

-- The end of a round, from `s_next` and `p_next`: the loop ends where `s_next` is null.
pub next_levels : Option (List ℕ) → Option (List ℕ) → Round
next_levels none none = return matched
next_levels none (some p) = return unmatched
next_levels (some s) p = continue s p

-- A round past the test for `#`.
pub level_round : List ℕ → List ℕ → Round
level_round s p =
    if first s == plus || same_bytes (level_length s + 1) s p
    then next_levels (after_slash s) (after_slash p)
    else return unmatched

pub round : List ℕ → Option (List ℕ) → Round
round s p =
    if first s == hash
    then return matched
    else elim p [ none ↦ return fault | some p' ↦ level_round s p' ]

-- The loop, by fuel; `none` is the end of the fuel.
pub match_from : ℕ → List ℕ → Option (List ℕ) → Option Match
match_from zero s p = none
match_from (suc fuel) s p = elim (round s p) [
  | return m ↦ some m
  | continue s' p' ↦ match_from fuel s' p'
]

-- `MQTTHelperTopicMatching`; every round takes a byte of the filter away, so the fuel is enough.
unfoldable pub topic_matching : List ℕ → List ℕ → Option Match
unfolding match_from round level_round next_levels after_slash level_length same_bytes
topic_matching s p = match_from (suc (length s)) s (some p)
