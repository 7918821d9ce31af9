-- ===== src/Mqtt/Session/Unsubscribing.antt =====
-- `MQTT_IF_Unsubscribe` removes the first entry whose filter matches the topic.
use plhr_firmware.Common.{
  ℕ, zero, suc, ◌<◌, ◌≡◌, refl, ◌≢◌, ap, sym, subst, ◌∙◌, Bool, true, false, none, some, List, [],
  ◌∷◌, if◌then◌else◌, pos, length, arith, inl, inr, ◌++◌,
}
use plhr_firmware.Mqtt.Topics.{matched, unmatched}
use plhr_firmware.Mqtt.Context.{connected, Heap, update, unsubscribe, Context, ok}
use plhr_firmware.Mqtt.Context.Chain.{
  Entry, node_of, Chain, Avoids, AreDistinct, Chain-agree, Avoids-update,
}
use plhr_firmware.Mqtt.Session.{mqtt_if_unsubscribe, unlink, minus_one}
use plhr_firmware.Mqtt.Session.Subscribing.{IsWell}
use plhr_firmware.Mqtt.Session.Entries.{
  Answers, remove_first, remove_first_hit, remove_first_miss, remove_first-AreDistinct,
}
use plhr_firmware.Mqtt.Session.Unlinking.{remove_head, unlink_step, unlinked}

-- What `unlink` does from the head on.
record Removed (topic : List ℕ) (fuel : ℕ) (c : Context) (r : Bool × List Entry) : Type 0 where
  heap : Heap
  head : ℕ
  runs : unlink topic fuel 0 c.head c ≡ ok r.0 (record c { heap = heap; head = head })
  chain : Chain heap head r.1

removed :
    (topic : List ℕ) (fuel : ℕ) (c : Context) (es : List Entry)
    → length es < fuel
    → Chain c.heap c.head es
    → AreDistinct es
    → Answers topic es
    → Removed topic fuel c (remove_first topic es)
unfolding remove_first unlink
removed topic zero c es h ch d an = absurd (omega arith)
removed topic (suc fuel) c [] h ch d an = record {
  heap = c.heap;
  head = c.head;
  runs = rw (ch, unlink) refl;
  chain = ch;
}
removed topic (suc fuel) c (x ∷ es) h (at, nz, (q, there, rest)) d an =
    let there' : c.heap c.head ≡ some (node_of x q) = ap c.heap at ∙ there in
    let nz' : c.head ≢ 0 = λ z. nz (sym at ∙ z) in
    elim an.0 [
      | inl m ↦ subst (Removed topic (suc fuel) c) (sym (remove_first_hit topic x es m)) (record {
        heap = update c.heap c.head none;
        head = q;
        runs =
            unlink_step topic fuel 0 c.head (node_of x q) c matched nz' there' m
            ∙ remove_head c 0 q (node_of x q) there';
        chain =
            Chain-agree c.heap _ q es
              (Avoids-update c.heap c.head none es (subst (λ a. Avoids a es) (sym at) d.0)) rest;
      })
      | inr m ↦
          (let u =
              unlinked topic fuel q c x es (omega arith) there
                (subst (λ a. Avoids a es) (sym at) d.0) rest d an.1 in
            subst (Removed topic (suc fuel) c) (sym (remove_first_miss topic x es m)) (record {
              heap = u.heap;
              head = c.head;
              runs =
                  unlink_step topic fuel 0 c.head (node_of x q) c unmatched nz' there' m
                  ∙ subst
                      (λ a.
                        unlink topic fuel a q c
                        ≡ ok (remove_first topic es).0 (record c { heap = u.heap }))
                      (sym at) u.runs;
              chain = (at, nz, (u.next, u.cell, u.chain));
            }))
    ]

-- `MQTT_IF_Unsubscribe` around its loop.
unsubscribe_run :
    (c : Context) (topic : List ℕ) (fuel k head : ℕ) (heap : Heap) (found : Bool)
    → c.mutex ≡ some false
    → c.module_state ≡ connected
    → unlink topic fuel 0 c.head
        (record c { mutex = some true; calls = c.calls ++ unsubscribe topic ∷ [] })
      ≡ ok found (record c {
        mutex = some true;
        calls = c.calls ++ unsubscribe topic ∷ [];
        heap = heap;
        head = head;
      })
    → mqtt_if_unsubscribe fuel topic (pos k) c
      ≡ ok (if found then pos 1 else minus_one) (record c {
        heap = heap;
        head = head;
        mutex = some false;
        calls = c.calls ++ unsubscribe topic ∷ [];
        bad_unlocks = if found then c.bad_unlocks else suc c.bad_unlocks;
      })
unfolding mqtt_if_unsubscribe
unsubscribe_run c topic fuel k head heap true ready s loop = ground (arith, ready, loop)
unsubscribe_run c topic fuel k head heap false ready s loop = ground (arith, ready, loop)

-- While connected, on a well-formed list shorter than the fuel whose filters the matching can
-- answer, and with the broker's consent, `MQTT_IF_Unsubscribe` asks the broker once and takes out
-- the first entry that matches the topic: it returns 1 with the remaining list well formed. Where
-- no entry matches it returns -1, the list has the same entries, and it has unlocked the mutex once
-- too often.
pub unsubscribe_removes :
    (c : Context) (es : List Entry) (topic : List ℕ) (fuel k : ℕ)
    → IsWell c es
    → c.module_state ≡ connected
    → Answers topic es
    → length es < fuel
    → (c' : Context) × (mqtt_if_unsubscribe fuel topic (pos k) c
        ≡ ok (if (remove_first topic es).0 then pos 1 else minus_one) c')
      × IsWell c' (remove_first topic es).1
      × (c'.calls ≡ c.calls ++ unsubscribe topic ∷ [])
      × (c'.bad_unlocks ≡ (if (remove_first topic es).0 then c.bad_unlocks else suc c.bad_unlocks))
unsubscribe_removes c es topic fuel k w s an h =
    let c1 : Context = record c { mutex = some true; calls = c.calls ++ unsubscribe topic ∷ [] } in
    let u = removed topic fuel c1 es h w.chain w.distinct an in
    (
      record c {
        heap = u.heap;
        head = u.head;
        mutex = some false;
        calls = c.calls ++ unsubscribe topic ∷ [];
        bad_unlocks = if (remove_first topic es).0 then c.bad_unlocks else suc c.bad_unlocks;
      },
      unsubscribe_run c topic fuel k u.head u.heap (remove_first topic es).0 w.ready s u.runs,
      record {
        chain = u.chain;
        distinct = remove_first-AreDistinct topic es an w.distinct;
        ready = refl;
      },
      refl,
      refl,
    )
