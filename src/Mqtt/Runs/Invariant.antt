-- ===== src/Mqtt/Runs/Invariant.antt =====
-- What holds between any two operations of the threads.
use plhr_firmware.Common.{
  ℕ, ◌≡◌, ◌≢◌, refl, sym, ap, subst, Bool, true, false, some, ℤ, List, [], ◌∷◌,
}
use plhr_firmware.Mqtt.Context.{Event, Context, Result, ok, Heap}
use plhr_firmware.Mqtt.Context.Chain.{Entry, Chain, Avoids, Chain-agree, Chain-Avoids, AgreeOn}
use plhr_firmware.Mqtt.Session.Subscribing.{IsWell, entry, subscribe-IsWell, deinit_frees}
use plhr_firmware.Mqtt.Session.Entries.{remove_first}
use plhr_firmware.Mqtt.Session.Unsubscribing.{unsubscribe_removes}
use plhr_firmware.Mqtt.Session.Kept.{
  Kept, publish-Kept, disconnect-Kept, connect-Kept, init-Kept, deinit_fails-Kept,
  subscribe_without_memory-Kept, subscribe_idle-Kept, unsubscribe_offline-Kept, deinit_refused-Kept,
  unsubscribe_refused-Kept, subscribe_leaks,
}
use plhr_firmware.Mqtt.AppThread.{app_thread_round}
use plhr_firmware.Mqtt.AppThread.Kept.{
  library-Kept, server_disconnect-Kept, suback-Kept, puback-Kept, unsuback-Kept, destroy-Kept,
}
use plhr_firmware.Mqtt.AppThread.Dispatch.{recv_delivers}
use plhr_firmware.Mqtt.AppThread.Resubscribe.{connack_resubscribes}
use plhr_firmware.Mqtt.Client.Shutdown.{context_thread_ends}
use plhr_firmware.Mqtt.Runs.{
  IsPlain, plain_suback, plain_puback, plain_unsuback, Calm, Step, Reach, here, later,
}

-- A run has one outcome.
same_context {ℓ} :
    {A : Type ℓ} {a b : A} {c d : Context} {r : Result A} → r ≡ ok a c → r ≡ ok b d → c ≡ d
same_context e f = cc

Kept-IsWell : (c c' : Context) (es : List Entry) → IsWell c es → Kept c c' → IsWell c' es
Kept-IsWell c c' es w k = record {
  chain =
      subst (λ h. Chain h c'.head es) (sym k.heap)
        (subst (λ p. Chain c.heap p es) (sym k.head) w.chain);
  distinct = w.distinct;
  ready = k.ready;
}

plain-Kept :
    (c c' : Context) (ready : c.mutex ≡ some false) (answer : List ℕ → ℤ) (fuel : ℕ) (on : Bool)
    {e : Event}
    → IsPlain e
    → app_thread_round answer fuel e c ≡ ok on c'
    → Kept c c'
plain-Kept c c' ready answer fuel on plain_suback = suback-Kept c c' ready answer fuel on
plain-Kept c c' ready answer fuel on plain_puback = puback-Kept c c' ready answer fuel on
plain-Kept c c' ready answer fuel on plain_unsuback = unsuback-Kept c c' ready answer fuel on

Calm-Kept : {c c' : Context} → c.mutex ≡ some false → Calm c c' → Kept c c'
Calm-Kept {c} {c'} ready (Calm.inits a r e) = init-Kept c c' ready a r e
Calm-Kept {c} {c'} ready (Calm.connects params created thread answer r e) =
    connect-Kept c c' ready params created thread answer r e
Calm-Kept {c} {c'} ready (Calm.disconnects answer r e) = disconnect-Kept c c' ready answer r e
Calm-Kept {c} {c'} ready (Calm.publishes topic payload flags answer r e) =
    publish-Kept c c' ready topic payload flags answer r e
Calm-Kept {c} {c'} ready (Calm.deinit_fails fuel j r e) = deinit_fails-Kept c c' ready fuel j r e
Calm-Kept {c} {c'} ready (Calm.subscribe_without_memory topic qos cb answer r e) =
    subscribe_without_memory-Kept c c' ready topic qos cb true answer r e
Calm-Kept {c} {c'} ready (Calm.subscribe_idle topic qos cb place string answer r s e) =
    subscribe_idle-Kept c c' ready topic qos cb place string answer r s e
Calm-Kept {c} {c'} ready (Calm.unsubscribe_offline fuel topic answer r ne e) =
    unsubscribe_offline-Kept c c' ready fuel topic answer r ne e
Calm-Kept {c} {c'} ready (Calm.deinit_refused fuel sent r ne e) =
    deinit_refused-Kept c c' ready fuel sent r ne e
Calm-Kept {c} {c'} ready (Calm.unsubscribe_refused fuel topic k r e) =
    unsubscribe_refused-Kept c c' ready fuel topic k r e
Calm-Kept {c} {c'} ready (Calm.library_calls e sent h) = library-Kept c c' ready e sent h
Calm-Kept {c} {c'} ready (Calm.loop_ends e) =
    let same = same_context e (context_thread_ends c ready) in
    record {
      heap = ap (λ x. x.heap) same;
      head = ap (λ x. x.head) same;
      ready = ap (λ x. x.mutex) same;
    }
Calm-Kept {c} {c'} ready (Calm.reports_disconnect answer fuel on e) =
    server_disconnect-Kept c c' ready answer fuel on e
Calm-Kept {c} {c'} ready (Calm.reports_plain answer fuel e on p runs) =
    plain-Kept c c' ready answer fuel on p runs
Calm-Kept {c} {c'} ready (Calm.app_thread_ends answer fuel on e) =
    destroy-Kept c c' ready answer fuel on e

AgreeOn-all :
    (h h' : Heap) (p : ℕ) (es : List Entry)
    → Avoids p es
    → ((a : ℕ) → a ≢ p → h' a ≡ h a)
    → AgreeOn h h' es
AgreeOn-all h h' p [] av same = tt
AgreeOn-all h h' p (e ∷ es) av same = (same e.address av.0, AgreeOn-all h h' p es av.1 same)

Step-IsWell :
    {c c' : Context} {es es' : List Entry} → IsWell c es → Step c es c' es' → IsWell c' es'
Step-IsWell {c} {c'} {es} w (Step.calm k) = Kept-IsWell c c' es w (Calm-Kept w.ready k)
Step-IsWell {c} {c'} {es} w (Step.subscribes topic qos cb p k r nz free active e) =
    let (c1, runs, w1, _) = subscribe-IsWell c es w topic qos cb p nz free k active in
    subst (λ x. IsWell x (entry p topic qos cb ∷ es)) (same_context runs e) w1
Step-IsWell {c} {c'} {es} w (Step.subscribe_leaks topic qos cb p answer r free e) =
    let (head, ready, others) = subscribe_leaks c c' w.ready topic qos cb p answer r e in
    let avoids = Chain-Avoids c.heap c.head p es free w.chain in
    record {
      chain =
          subst (λ q. Chain c'.heap q es) (sym head)
            (Chain-agree c.heap c'.heap c.head es (AgreeOn-all c.heap c'.heap p es avoids others)
              w.chain);
      distinct = w.distinct;
      ready = ready;
    }
Step-IsWell {c} {c'} {es} w (Step.unsubscribes fuel topic k r online an short e left) =
    let (c1, runs, w1, _, _) = unsubscribe_removes c es topic fuel k w online an short in
    subst (λ fs. IsWell c' fs) (sym left)
      (subst (λ x. IsWell x (remove_first topic es).1) (same_context runs e) w1)
Step-IsWell {c} {c'} {es} w (Step.deinits fuel sent r start short e) =
    let (c1, runs, w1, _, _, _, _) = deinit_frees c es fuel sent w start short in
    subst (λ x. IsWell x []) (same_context runs e) w1
Step-IsWell {c} {c'} {es} w (Step.receives answer fuel topic payload qos on an short e) =
    let runs = recv_delivers answer fuel topic payload qos c es w short an in
    subst (λ x. IsWell x es) (same_context runs e)
      (record { chain = w.chain; distinct = w.distinct; ready = refl })
Step-IsWell {c} {c'} {es} w (Step.resubscribes answer fuel on cb good short e) =
    let runs = connack_resubscribes answer fuel c es w cb short good in
    subst (λ x. IsWell x es) (same_context runs e)
      (record { chain = w.chain; distinct = w.distinct; ready = refl })

-- From a context with a free mutex and a well-formed topic list, any run of operations of the
-- threads that come back, in any order, leads to such a context again: no operation keeps the
-- mutex, and the list is that of the subscriptions that were made and not taken back. The
-- operations are the `MQTT_IF_` functions, the library's callback, the end of its thread and the
-- rounds of `MQTTAppThread` for every kind of queue element, with any answers but a broker's
-- refusal of a subscription or of a renewed one, filters that the matching cannot answer, a fuel
-- that the list is not shorter than, and an address that is 0 or not free.
pub Reach-IsWell :
    (c : Context) (es : List Entry) (c' : Context) (es' : List Entry)
    → IsWell c es
    → Reach c es c' es'
    → IsWell c' es'
Reach-IsWell c es c' es' w here = w
Reach-IsWell c es c' es' w (later {d = d} {fs = fs} r s) =
    Step-IsWell (Reach-IsWell c es d fs w r) s
