-- ===== src/Mqtt/Subscriptions/Order.antt =====
-- Which subscription hears a message, and whether one does.
use plhr_firmware.Common.{
  ℕ, ◌+◌, ◌<◌, ◌≡◌, refl, ◌≢◌, sym, ap, ◌∙◌, Bool, true, false, ◌||◌, Option, none, some, List, [],
  ◌∷◌, ◌++◌, map, if◌then◌else◌, ℤ, pos, length, length-append, arith,
}
use plhr_firmware.Mqtt.Topics.{Match, matched, unmatched, fault, topic_matching}
use plhr_firmware.Mqtt.Context.{
  connected, recv, subscribe, Context, ok, bind_ok, Callback, on_topic, ◌>>=◌,
}
use plhr_firmware.Mqtt.Context.Chain.{Entry}
use plhr_firmware.Mqtt.Session.{mqtt_if_subscribe}
use plhr_firmware.Mqtt.Session.Subscribing.{
  IsWell, entry, with_node, with_node-IsWell, with_node_elsewhere, subscribe_accepted,
}
use plhr_firmware.Mqtt.Session.Entries.{Answers}
use plhr_firmware.Mqtt.AppThread.{app_thread_round}
use plhr_firmware.Mqtt.AppThread.Dispatch.{deliveries, recv_delivers}
use plhr_firmware.Mqtt.Subscriptions.{
  Subscription, subscription_of, bag_of, matches, any_match, is_heard,
}

length-deliveries :
    (topic payload : List ℕ) (qos : ℕ) (es : List Entry)
    → length (deliveries topic payload qos es)
      ≡ (if any_match topic (map subscription_of es) then 1 else 0)
unfolding deliveries
length-deliveries topic payload qos [] = refl
length-deliveries topic payload qos (e ∷ es) =
    by_answer (topic_matching e.topic topic) (length-deliveries topic payload qos es)
  where
    by_answer :
        (o : Option Match)
        → length (deliveries topic payload qos es)
          ≡ (if any_match topic (map subscription_of es) then 1 else 0)
        → length (elim o as (λ _. List Callback) [
          | some matched ↦ on_topic e.callback topic payload qos ∷ []
          | _ ↦ deliveries topic payload qos es
        ])
          ≡ (if (elim o as (λ _. Bool) [ some matched ↦ true | _ ↦ false ])
                || any_match topic (map subscription_of es)
              then 1
              else 0)
    by_answer none ih = ih
    by_answer (some matched) ih = refl
    by_answer (some unmatched) ih = ih
    by_answer (some fault) ih = ih

-- On a well-formed topic list shorter than the fuel whose filters the matching can answer, a
-- received message runs one callback if a subscription of the bag matches its topic, and none
-- otherwise: neither the order of the list nor the place of its nodes counts.
pub recv_heard :
    (answer : List ℕ → ℤ) (fuel : ℕ) (topic payload : List ℕ) (qos : ℕ) (c : Context)
    (es : List Entry)
    → IsWell c es
    → length es < fuel
    → Answers topic es
    → (c' : Context) × (app_thread_round answer fuel (recv topic payload qos) c ≡ ok true c')
      × (length c'.callbacks ≡ length c.callbacks + (if is_heard topic (bag_of es) then 1 else 0))
unfolding is_heard
recv_heard answer fuel topic payload qos c es w h an = (
  _,
  recv_delivers answer fuel topic payload qos c es w h an,
  omega (
    arith,
    length-append c.callbacks (deliveries topic payload qos es),
    length-deliveries topic payload qos es,
  ),
)

-- The first entry hears a message if it matches, and leaves it to the others if it does not.
deliveries-cons :
    (topic payload : List ℕ) (qos : ℕ) (e : Entry) (es : List Entry)
    → deliveries topic payload qos (e ∷ es) ≡ (
        if matches topic (subscription_of e)
        then on_topic e.callback topic payload qos ∷ []
        else deliveries topic payload qos es)
unfolding deliveries
deliveries-cons topic payload qos e es = by_answer (topic_matching e.topic topic)
  where
    by_answer :
        (o : Option Match)
        → (elim o as (λ _. List Callback) [
          | some matched ↦ on_topic e.callback topic payload qos ∷ []
          | _ ↦ deliveries topic payload qos es
        ])
          ≡ (if (elim o as (λ _. Bool) [ some matched ↦ true | _ ↦ false ])
              then on_topic e.callback topic payload qos ∷ []
              else deliveries topic payload qos es)
    by_answer none = refl
    by_answer (some matched) = refl
    by_answer (some unmatched) = refl
    by_answer (some fault) = refl

-- While connected, with a well-formed list and nodes at two free addresses, two subscriptions that
-- the broker accepts are followed by a message on a topic that every filter can be matched with. If
-- the later subscription matches it, its callback runs and no other; if only the earlier of the two
-- does, that one's runs and no other; and if neither does, the message goes to the first that
-- matches of those before. The broker was asked for the two topics in their order. (The fuel is
-- above the length of the list with both.)
pub later_hears :
    (c : Context) (es : List Entry) (p p' k : ℕ) (s t : Subscription) (answer : List ℕ → ℤ)
    (fuel : ℕ) (topic payload : List ℕ) (qos : ℕ)
    → IsWell c es
    → c.module_state ≡ connected
    → p ≢ 0
    → p' ≢ 0
    → p ≢ p'
    → c.heap p ≡ none
    → c.heap p' ≡ none
    → Answers topic (entry p' t.topic t.qos t.callback ∷ entry p s.topic s.qos s.callback ∷ es)
    → length es + 2 < fuel
    → (c' : Context) × ((mqtt_if_subscribe s.topic s.qos s.callback (some p) true (pos k) >>= λ _.
            mqtt_if_subscribe t.topic t.qos t.callback (some p') true (pos k) >>= λ _.
            app_thread_round answer fuel (recv topic payload qos))
          c
        ≡ ok true c')
      × (c'.callbacks
          ≡ c.callbacks
            ++ (if matches topic t
                then on_topic t.callback topic payload qos ∷ []
                else (if matches topic s
                    then on_topic s.callback topic payload qos ∷ []
                    else deliveries topic payload qos es)))
      × (c'.calls ≡ (c.calls ++ subscribe s.topic ∷ []) ++ subscribe t.topic ∷ [])
later_hears c es p p' k s t answer fuel topic payload qos w online nz nz' ne free free' an short =
    let e = entry p s.topic s.qos s.callback in
    let e' = entry p' t.topic t.qos t.callback in
    let c1 : Context = record (with_node p s.topic s.qos s.callback c) {
      calls = c.calls ++ subscribe s.topic ∷ [];
    } in
    let w1 : IsWell c1 (e ∷ es) =
      with_node-IsWell c es w s.topic s.qos s.callback p (c.calls ++ subscribe s.topic ∷ []) nz
        free in
    let there : c1.heap p' ≡ none =
      with_node_elsewhere p p' s.topic s.qos s.callback c (λ q. ne (sym q)) ∙ free' in
    let c2 : Context = record (with_node p' t.topic t.qos t.callback c1) {
      calls = c1.calls ++ subscribe t.topic ∷ [];
    } in
    let w2 : IsWell c2 (e' ∷ e ∷ es) =
      with_node-IsWell c1 (e ∷ es) w1 t.topic t.qos t.callback p'
        (c1.calls ++ subscribe t.topic ∷ []) nz' there in
    let second = mqtt_if_subscribe t.topic t.qos t.callback (some p') true (pos k) in
    let hear = app_thread_round answer fuel (recv topic payload qos) in
    (
      _,
      bind_ok (mqtt_if_subscribe s.topic s.qos s.callback (some p) true (pos k))
            (λ _. second >>= λ _. hear) c c1 (pos k)
            (subscribe_accepted c es w s.topic s.qos s.callback p k online)
          ∙ bind_ok second (λ _. hear) c1 c2 (pos k)
              (subscribe_accepted c1 (e ∷ es) w1 t.topic t.qos t.callback p' k online)
          ∙ recv_delivers answer fuel topic payload qos c2 (e' ∷ e ∷ es) w2 (omega (arith, short))
              an,
      ap (λ ds. c.callbacks ++ ds)
          (deliveries-cons topic payload qos e' (e ∷ es)
            ∙ ap (λ ds. if matches topic t then on_topic t.callback topic payload qos ∷ [] else ds)
                (deliveries-cons topic payload qos e es)),
      refl,
    )
