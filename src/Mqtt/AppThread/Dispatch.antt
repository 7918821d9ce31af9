-- ===== src/Mqtt/AppThread/Dispatch.antt =====
-- A received message goes to the first subscription whose filter matches.
use plhr_firmware.Common.{
  Bool-cases, if◌then◌else◌, inl, inr, pos, negsuc, append-nil, ℕ, zero, suc, ◌<◌, ◌≡◌, refl, ◌≢◌,
  ap, sym, ◌∙◌, true, false, some, List, [], ◌∷◌, ◌==◌, ℤ, length, arith, ◌++◌,
}
use plhr_firmware.Mqtt.Topics.{Match, matched, unmatched, topic_matching}
use plhr_firmware.Mqtt.Context.{
  recv, Node, Callback, on_topic, Context, ok, load, bind_ok, server_disconnect, client_disconnect,
  on_event,
}
use plhr_firmware.Mqtt.Context.Chain.{Entry, node_of, Chain}
use plhr_firmware.Mqtt.Topics.Exact.{IsText}
use plhr_firmware.Mqtt.AppThread.{
  received, c_string, queue_element, mqtt_client_callback, app_thread_round, dispatch_from,
  on_answer, run_topic_callback, take_flag, disconnect_event,
}
use plhr_firmware.Mqtt.Session.Subscribing.{IsWell}
use plhr_firmware.Mqtt.Session.Entries.{Answers}

-- The callbacks that a message leads to: that of the first entry that matches, or none.
unfoldable pub deliveries : List ℕ → List ℕ → ℕ → List Entry → List Callback
deliveries topic payload qos [] = []
deliveries topic payload qos (e ∷ es) = elim (topic_matching e.topic topic) [
  | some matched ↦ on_topic e.callback topic payload qos ∷ []
  | _ ↦ deliveries topic payload qos es
]

dispatch_step :
    (topic payload : List ℕ) (qos fuel p : ℕ) (n : Node) (c : Context) (o : Match)
    → p ≢ 0
    → c.heap p ≡ some n
    → topic_matching n.topic topic ≡ some o
    → dispatch_from topic payload qos (suc fuel) p c
      ≡ on_answer
          (some o)
          (run_topic_callback n.callback topic payload qos)
          (dispatch_from topic payload qos fuel n.next)
          c
unfolding dispatch_from
dispatch_step topic payload qos fuel zero n c o nz there m = absurd (nz refl)
dispatch_step topic payload qos fuel (suc p) n c o nz there m =
    bind_ok (load (suc p)) _ c c n (rw (there, load) refl)
    ∙ ap
        (λ v.
          on_answer v (run_topic_callback n.callback topic payload qos)
            (dispatch_from topic payload qos fuel n.next) c)
        m

dispatch_from_lem :
    (topic payload : List ℕ) (qos fuel p : ℕ) (c : Context) (es : List Entry)
    → length es < fuel
    → Chain c.heap p es
    → Answers topic es
    → dispatch_from topic payload qos fuel p c
      ≡ ok tt (record c { callbacks = c.callbacks ++ deliveries topic payload qos es })
unfolding deliveries on_answer run_topic_callback dispatch_from
dispatch_from_lem topic payload qos zero p c es h ch an = absurd (omega arith)
dispatch_from_lem topic payload qos (suc fuel) zero c [] h ch an =
    ap (λ z. ok tt (record c { callbacks = z })) (sym (append-nil c.callbacks))
dispatch_from_lem topic payload qos (suc fuel) (suc p) c [] h ch an = absurd (omega arith)
dispatch_from_lem topic payload qos (suc fuel) p c (x ∷ es) h (at, nz, (q, there, rest)) an =
    let there' : c.heap p ≡ some (node_of x q) = ap c.heap at ∙ there in
    let nz' : p ≢ 0 = λ z. nz (sym at ∙ z) in
    elim an.0 [
      | inl m ↦
          dispatch_step topic payload qos fuel p (node_of x q) c matched nz' there' m
          ∙ rw (m, deliveries) refl
      | inr m ↦
          dispatch_step topic payload qos fuel p (node_of x q) c unmatched nz' there' m
          ∙ dispatch_from_lem topic payload qos fuel q c es (omega arith) rest an.1
          ∙ rw (m, deliveries) refl
    ]

-- On a well-formed topic list shorter than the fuel whose filters the matching can answer, a
-- received message runs the callback of the first subscription whose filter matches its topic, with
-- the message's topic, payload and quality of service, and no other; nothing else changes and the
-- thread goes on.
pub recv_delivers :
    (answer : List ℕ → ℤ) (fuel : ℕ) (topic payload : List ℕ) (qos : ℕ) (c : Context)
    (es : List Entry)
    → IsWell c es
    → length es < fuel
    → Answers topic es
    → app_thread_round answer fuel (recv topic payload qos) c
      ≡ ok true (record c {
        mutex = some false;
        callbacks = c.callbacks ++ deliveries topic payload qos es;
      })
unfolding app_thread_round
recv_delivers answer fuel topic payload qos c es w h an =
    let c1 : Context = record c { mutex = some true } in
    let loop = dispatch_from_lem topic payload qos fuel c.head c1 es h w.chain an in
    ground (arith, w.ready, loop)

-- With an event callback, a disconnect of the library is reported as the client's where the flag of
-- `MQTT_IF_Disconnect` is up, which then comes down, and as the server's otherwise.
pub disconnect_is_reported :
    (answer : List ℕ → ℤ) (fuel : ℕ) (c : Context)
    → c.mutex ≡ some false
    → c.has_event_cb ≡ true
    → app_thread_round answer fuel server_disconnect c
      ≡ ok true (record c {
        mutex = some false;
        client_disconnect_flag =
            if c.client_disconnect_flag == 1 then 0 else c.client_disconnect_flag;
        callbacks =
            c.callbacks
            ++ on_event
                (if c.client_disconnect_flag == 1 then client_disconnect else server_disconnect)
              ∷ [];
      })
unfolding app_thread_round take_flag disconnect_event
disconnect_is_reported answer fuel c ready cb = elim (Bool-cases (c.client_disconnect_flag == 1)) [
  | inl up ↦ rw up (ground (arith, ready, cb, up))
  | inr down ↦ rw down (ground (arith, ready, cb, down))
]

c_string-text : (bs : List ℕ) → IsText bs → c_string bs ≡ bs
c_string-text [] t = refl
c_string-text (zero ∷ bs) t = absurd (t.0 refl)
c_string-text (suc b ∷ bs) t = ap (λ xs. suc b ∷ xs) (c_string-text bs t.1)

-- A received message whose topic has no zero byte is queued with the topic as it came, and the
-- payload with a zero byte behind it, where `mq_send` succeeds, and is lost where it fails.
pub received_is_queued :
    (topic payload : List ℕ) (qos k : ℕ) (c : Context)
    → IsText topic
    → (mqtt_client_callback (received topic payload qos) (pos k) c
        ≡ ok tt (record c { msg_queue = c.msg_queue ++ recv topic (payload ++ 0 ∷ []) qos ∷ [] }))
      × (mqtt_client_callback (received topic payload qos) (negsuc k) c ≡ ok tt c)
unfolding mqtt_client_callback queue_element
received_is_queued topic payload qos k c t = (
  ap (λ a. ok tt (record c { msg_queue = c.msg_queue ++ recv a (payload ++ 0 ∷ []) qos ∷ [] }))
      (c_string-text topic t),
  refl,
)
