-- ===== src/Mqtt/Client/Delivery.antt =====
-- A command on its way from the library to the device's identity.
use plhr_firmware.Common.{
  ℕ, ◌<◌, ◌≡◌, refl, sym, ap, ◌∙◌, ◌≢◌, true, false, Option, none, some, List, [], ◌∷◌, ◌++◌, ◌/◌,
  ◌%◌, ℤ, pos, inl, length, drop, arith,
}
use plhr_firmware.Mqtt.Topics.{topic_matching}
use plhr_firmware.Mqtt.Context.{
  Callback, recv, on_topic, Context, Result, fault, ok, bind_ok, M, ◌>>=◌, ◌>>◌, pure, get,
}
use plhr_firmware.Mqtt.Session.Subscribing.{IsWell, entry}
use plhr_firmware.Mqtt.AppThread.{received, mqtt_client_callback, app_thread_round}
use plhr_firmware.Mqtt.AppThread.Dispatch.{deliveries, recv_delivers, received_is_queued}
use plhr_firmware.Mqtt.Topics.Exact.{IsText}
use plhr_firmware.Mqtt.Device.{Device, op_cmd, cmd_resp_id, cmd_zero}
use plhr_firmware.Mqtt.Device.Identity.{mac, resp_id, cmd_zero-resp_id}
use plhr_firmware.Mqtt.Client.{topic_1, cmd_zero_callback, react, handle, receive_round}
use plhr_firmware.Mqtt.Client.Connection.{drop-append}

topic_1-IsText : IsText topic_1
topic_1-IsText = omega arith

-- The context after a command has been handled.
abbrev pub commanded : List ℕ → ℕ → Context → Context
commanded payload qos c = record c {
  mutex = some false;
  callbacks = c.callbacks ++ on_topic cmd_zero_callback topic_1 payload qos ∷ [];
}

module _ (answer : List ℕ → ℤ) (fuel qos p : ℕ) (payload : List ℕ) (d d' : Device) where
  runs_callback :
      (c : Context)
      → IsWell c (entry p topic_1 0 cmd_zero_callback ∷ [])
      → 1 < fuel
      → app_thread_round answer fuel (recv topic_1 payload qos) c
        ≡ ok true (commanded payload qos c)
  unfolding topic_matching deliveries
  runs_callback c w short =
      recv_delivers answer fuel topic_1 payload qos c (entry p topic_1 0 cmd_zero_callback ∷ []) w
        short (inl refl, tt)

  abbrev settle : List Callback → Context → Result Device
  settle cs c = (elim (react cs d) as (λ _. M Device) [ none ↦ λ _. fault | some x ↦ pure x ]) c

  react_command :
      cmd_zero payload d ≡ some d'
      → react (on_topic cmd_zero_callback topic_1 payload qos ∷ []) d ≡ some d'
  unfolding react
  react_command e = rw (e, react) refl

  handle_command :
      (c : Context)
      → IsWell c (entry p topic_1 0 cmd_zero_callback ∷ [])
      → 1 < fuel
      → cmd_zero payload d ≡ some d'
      → handle answer fuel (recv topic_1 payload qos) d c ≡ ok d' (commanded payload qos c)
  unfolding handle
  handle_command c w short e =
      let new = drop-append c.callbacks (on_topic cmd_zero_callback topic_1 payload qos ∷ []) in
      bind_ok (app_thread_round answer fuel (recv topic_1 payload qos))
        (λ _. get >>= λ now. settle (drop (length c.callbacks) now.callbacks)) c
        (commanded payload qos c) true (runs_callback c w short)
      ∙ ap (λ cs. settle cs (commanded payload qos c)) new
      ∙ ap
          (λ (o : Option Device).
            (elim o as (λ _. M Device) [ none ↦ λ _. fault | some x ↦ pure x ])
              (commanded payload qos c))
          (react_command e)

  receives_command :
      (c : Context)
      → IsWell c (entry p topic_1 0 cmd_zero_callback ∷ [])
      → 1 < fuel
      → cmd_zero payload d ≡ some d'
      → receive_round answer fuel d (record c { msg_queue = recv topic_1 payload qos ∷ [] })
        ≡ ok d' (commanded payload qos (record c { msg_queue = [] }))
  unfolding receive_round
  receives_command c w short e =
      handle_command (record c { msg_queue = [] })
        (record { chain = w.chain; distinct = w.distinct; ready = w.ready }) short e

-- The 14 bytes of a `CMD_RESP_ID` for a MAC address and an identity.
abbrev pub server_answer : List ℕ → ℕ → List ℕ
server_answer mac id = 0 ∷ op_cmd ∷ 14 ∷ 0 ∷ cmd_resp_id ∷ 0 ∷ mac ++ id % 256 ∷ id / 256 ∷ []

-- An answer of the server that the library reports on the command topic goes through the module's
-- queue to the callback of the only subscription, and the round of `MQTTAppThread` after it leaves
-- the device with the MAC address in the answer with its identity, and a device with another
-- address as it was. The queue, which was empty, is empty again, and nothing else of the context
-- changes but the record of the callback.
pub answer_arrives :
    (answer : List ℕ → ℤ) (fuel qos p k m0 m1 m2 m3 m4 m5 id : ℕ) (own other : Device) (c : Context)
    → IsWell c (entry p topic_1 0 cmd_zero_callback ∷ [])
    → c.msg_queue ≡ []
    → 1 < fuel
    → own.mac_address ≡ mac m0 m1 m2 m3 m4 m5
    → other.mac_address ≢ mac m0 m1 m2 m3 m4 m5
    → ((mqtt_client_callback
              (received topic_1 (server_answer (mac m0 m1 m2 m3 m4 m5) id) qos)
              (pos k)
            >> receive_round answer fuel own)
          c
        ≡ ok (record own { id_device = id }) (commanded (resp_id (mac m0 m1 m2 m3 m4 m5) id) qos c))
      × ((mqtt_client_callback
                (received topic_1 (server_answer (mac m0 m1 m2 m3 m4 m5) id) qos)
                (pos k)
              >> receive_round answer fuel other)
            c
          ≡ ok other (commanded (resp_id (mac m0 m1 m2 m3 m4 m5) id) qos c))
answer_arrives answer fuel qos p k m0 m1 m2 m3 m4 m5 id own other c w empty short same differs =
    (arrives own (record own { id_device = id }) taken, arrives other other left)
  where
    payload : List ℕ
    payload = resp_id (mac m0 m1 m2 m3 m4 m5) id

    taken : cmd_zero payload own ≡ some (record own { id_device = id })
    taken = (cmd_zero-resp_id m0 m1 m2 m3 m4 m5 id own other same differs).0

    left : cmd_zero payload other ≡ some other
    left = (cmd_zero-resp_id m0 m1 m2 m3 m4 m5 id own other same differs).1

    queued : Context
    queued = record c { msg_queue = recv topic_1 payload qos ∷ [] }

    arrives :
        (d d' : Device)
        → cmd_zero payload d ≡ some d'
        → (mqtt_client_callback
                (received topic_1 (server_answer (mac m0 m1 m2 m3 m4 m5) id) qos)
                (pos k)
              >> receive_round answer fuel d)
            c
          ≡ ok d' (commanded payload qos c)
    arrives d d' e =
        bind_ok
          (mqtt_client_callback (received topic_1 (server_answer (mac m0 m1 m2 m3 m4 m5) id) qos)
            (pos k))
          (λ _. receive_round answer fuel d) c queued tt
          ((received_is_queued topic_1 (server_answer (mac m0 m1 m2 m3 m4 m5) id) qos k c
              topic_1-IsText).0
            ∙ ap (λ q. ok tt (record c { msg_queue = q ++ recv topic_1 payload qos ∷ [] })) empty)
        ∙ receives_command answer fuel qos p payload d d' c w short e
        ∙ (λ i. ok d' (commanded payload qos (record c { msg_queue = sym empty i })))
