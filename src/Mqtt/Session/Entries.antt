-- ===== src/Mqtt/Session/Entries.antt =====
-- The entries of the topic list without the first one whose filter matches a topic.
use plhr_firmware.Common.{ℕ, ◌≡◌, sym, subst, Bool, true, false, some, List, [], ◌∷◌, inl, inr, ◌⊎◌}
use plhr_firmware.Mqtt.Topics.{matched, unmatched, topic_matching}
use plhr_firmware.Mqtt.Context.Chain.{Entry, Avoids, AreDistinct}

-- The matching of the entry's filter gives an answer: it stays inside its strings.
abbrev pub Answers : List ℕ → List Entry → Type 0
Answers topic [] = Unit {0}
Answers topic (e ∷ es) =
    ((topic_matching e.topic topic ≡ some matched)
      ⊎ (topic_matching e.topic topic ≡ some unmatched))
    × Answers topic es

-- The entries without the first one that matches; the Boolean tells whether there is one.
unfoldable pub remove_first : List ℕ → List Entry → Bool × List Entry
remove_first topic [] = (false, [])
remove_first topic (e ∷ es) = elim (topic_matching e.topic topic) [
  | some matched ↦ (true, es)
  | _ ↦ (let (found, rest) = remove_first topic es in (found, e ∷ rest))
]

pub remove_first_hit :
    (topic : List ℕ) (e : Entry) (es : List Entry)
    → topic_matching e.topic topic ≡ some matched
    → remove_first topic (e ∷ es) ≡ (true, es)
unfolding remove_first
remove_first_hit topic e es m = rw (m, remove_first)

pub remove_first_miss :
    (topic : List ℕ) (e : Entry) (es : List Entry)
    → topic_matching e.topic topic ≡ some unmatched
    → remove_first topic (e ∷ es) ≡ ((remove_first topic es).0, e ∷ (remove_first topic es).1)
unfolding remove_first
remove_first_miss topic e es m = rw (m, remove_first)

remove_first-Avoids :
    (a : ℕ) (topic : List ℕ) (es : List Entry)
    → Answers topic es
    → Avoids a es
    → Avoids a (remove_first topic es).1
unfolding remove_first
remove_first-Avoids a topic [] an av = tt
remove_first-Avoids a topic (e ∷ es) an av = elim an.0 [
  | inl m ↦ subst (λ r. Avoids a r.1) (sym (remove_first_hit topic e es m)) av.1
  | inr m ↦
      subst (λ r. Avoids a r.1) (sym (remove_first_miss topic e es m))
        (av.0, remove_first-Avoids a topic es an.1 av.1)
]

pub remove_first-AreDistinct :
    (topic : List ℕ) (es : List Entry)
    → Answers topic es
    → AreDistinct es
    → AreDistinct (remove_first topic es).1
unfolding remove_first
remove_first-AreDistinct topic [] an d = tt
remove_first-AreDistinct topic (e ∷ es) an d = elim an.0 [
  | inl m ↦ subst (λ r. AreDistinct r.1) (sym (remove_first_hit topic e es m)) d.1
  | inr m ↦
      subst (λ r. AreDistinct r.1) (sym (remove_first_miss topic e es m))
        (
          remove_first-Avoids e.address topic es an.1 d.0,
          remove_first-AreDistinct topic es an.1 d.1,
        )
]
