-- ===== src/Mqtt/Subscriptions.antt =====
-- The subscriptions in the topic list of Core/mqtt_user.c. Whether any of them hears a message is a
-- function of their bag, which forgets the order and the place of the nodes; which one hears it
-- depends on the order.
pub mod Order
use plhr_firmware.Common.{
  ℕ, ◌+◌, ◌≡◌, refl, ap, ap₂, ◌∙◌, Bool, true, false, ◌||◌, Bool-cases, inl, inr, some, List, [],
  ◌∷◌, map, if◌then◌else◌, length, arith,
}
use mathlib.Core.Bool.{Bool-set}
use mathlib.Core.List.{Permᴰ}
use mathlib.Core.List.Permᴰ.{nil, cons, swap, trans}
use mathlib.Core.Quot
use mathlib.Core.Quot.{Quot, Quot-set}
use plhr_firmware.Mqtt.Topics.{matched, topic_matching}
use plhr_firmware.Mqtt.Context.Chain.{Entry}

-- A subscription without the place of its node.
pub record Subscription : Type 0 where
  pub topic : List ℕ
  pub qos : ℕ
  pub callback : ℕ

abbrev pub Bag : Type 0
Bag = Quot (Permᴰ {A = Subscription})

abbrev pub subscription_of : Entry → Subscription
subscription_of e = record { topic = e.topic; qos = e.qos; callback = e.callback }

abbrev pub bag_of : List Entry → Bag
bag_of es = Quot.mk (map subscription_of es)

abbrev pub matches : List ℕ → Subscription → Bool
matches topic s = elim (topic_matching s.topic topic) [ some matched ↦ true | _ ↦ false ]

abbrev pub any_match : List ℕ → List Subscription → Bool
any_match topic [] = false
any_match topic (s ∷ ss) = matches topic s || any_match topic ss

or_swap : (a b c : Bool) → (a || (b || c)) ≡ (b || (a || c))
or_swap true true c = refl
or_swap true false c = refl
or_swap false b c = refl

any_match-Perm :
    (topic : List ℕ) {ss ts : List Subscription}
    → Permᴰ ss ts
    → any_match topic ss ≡ any_match topic ts
any_match-Perm topic nil = refl
any_match-Perm topic (cons e h) = ap₂ (λ s b. matches topic s || b) e (any_match-Perm topic h)
any_match-Perm topic (swap {a} {b} {a'} {b'} {l} p q) =
    or_swap (matches topic a) (matches topic b) (any_match topic l)
    ∙ ap₂ (λ s t. matches topic s || (matches topic t || any_match topic l)) q p
any_match-Perm topic (trans h k) = any_match-Perm topic h ∙ any_match-Perm topic k

-- Whether a subscription of the bag matches the topic of a message.
pub is_heard : List ℕ → Bag → Bool
is_heard topic = Quot.lift Bool-set (any_match topic) (λ ss ts h. any_match-Perm topic h)
