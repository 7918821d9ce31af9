-- ===== src/Startup/Session.antt =====
-- From the first instruction to a device with an identity.
use plhr_firmware.Common.{
  ℕ, suc, ◌<◌, ◌≡◌, refl, ◌≢◌, sym, ap, ◌∙◌, true, false, some, List, [], ◌∷◌, ◌++◌, is_neg, ℤ, pos,
  negsuc, append-nil, subst, length, replicate,
}
use plhr_firmware.Mqtt.Context.{
  initialized, connected, Event, connack, create, connect, subscribe, publish, Context, initial, ok,
  bind_ok, pure,
}
use plhr_firmware.Mqtt.Session.{InitAnswers, ClientParams, client_options}
use plhr_firmware.Mqtt.Session.Subscribing.{IsWell, entry}
use plhr_firmware.Mqtt.Device.{Device, topic_pub_cmd, default_id_device}
use plhr_firmware.Mqtt.Device.Identity.{resp_id, mac}
use plhr_firmware.Mqtt.Commands.{Asked, answered, ready_message, ask_for_id}
use plhr_firmware.Mqtt.Commands.Asking.{unnamed, AllIgnored, after, ask_for_id_lem}
use plhr_firmware.Mqtt.Client.{topic_1, cmd_zero_callback, returned, waiting, mqtt_client_connect}
use plhr_firmware.Mqtt.Client.Reconnection.{
  IsGiven, accepts, client_connect_lem, client_connect_refused, client_connect_then,
}
use plhr_firmware.Mqtt.Client.Connection.{answers}
use plhr_firmware.Startup.{connecting, asked, identify, main_session}

identified :
    (published : ℕ → ℤ) (mac_address : List ℕ) (id_sleeps : List (List (List ℕ))) (code : ℤ)
    (d : Device) (n : ℕ) (c c' : Context) (a : Asked)
    → ask_for_id published id_sleeps (record d { mac_address = mac_address }) c ≡ ok a c'
    → identify published mac_address id_sleeps (returned code d n) c ≡ ok (asked a) c'
unfolding identify
identified published mac_address id_sleeps code d n c c' a e =
    bind_ok (ask_for_id published id_sleeps (record d { mac_address = mac_address }))
      (λ b. pure (asked b)) c c' a e

-- From the static initialiser of the context, where the system and the library give what is asked
-- and the broker accepts the command topic, `mainThread` waits for the broker's acknowledgement and
-- then asks for an identity through any number of sleeps whose commands leave the device as it is.
-- It goes on with the identity of the first answer of the server for its MAC address, if that is
-- not 255: the module is connected with the command topic as its only subscription, and the library
-- was asked to connect, then to subscribe to that topic once, and then to publish the device's
-- message once for each sleep.
pub main_session_lem :
    (init : InitAnswers) (p code fuel k : ℕ) (subscribed : ℤ) (params : ClientParams)
    (answer : List ℕ → ℤ) (sleeps : List (List Event)) (published : ℕ → ℤ)
    (m0 m1 m2 m3 m4 m5 id : ℕ) (quiet id_sleeps : List (List (List ℕ))) (d : Device)
    → IsGiven init
    → p ≢ 0
    → is_neg (answer topic_1) ≡ false
    → 1 < fuel
    → d.mqtt_connected ≡ 0
    → id ≢ 255
    → AllIgnored
        (unnamed (record d { mqtt_connected = 1; mac_address = mac m0 m1 m2 m3 m4 m5 }))
        quiet
    → (c' : Context) × (main_session init
          (some p)
          true
          subscribed
          params
          (accepts code)
          answer
          fuel
          (replicate k [] ++ (connack ∷ []) ∷ sleeps)
          published
          (mac m0 m1 m2 m3 m4 m5)
          (quiet ++ (resp_id (mac m0 m1 m2 m3 m4 m5) id ∷ []) ∷ id_sleeps)
          d
          initial
        ≡ ok
            (asked (
              answered
                (published (length quiet))
                (record d {
                  id_device = id;
                  mqtt_connected = 1;
                  mac_address = mac m0 m1 m2 m3 m4 m5;
                })
                (suc (length quiet))))
            c')
      × IsWell c' (entry p topic_1 0 cmd_zero_callback ∷ [])
      × (c'.module_state ≡ connected)
      × (c'.calls
          ≡ (((create ∷ client_options params) ++ connect ∷ []) ++ subscribe topic_1 ∷ [])
            ++ replicate (suc (length quiet)) (
                publish
                  (topic_pub_cmd ++ default_id_device)
                  (ready_message 255 (mac m0 m1 m2 m3 m4 m5))
                  0))
unfolding main_session
main_session_lem init p code fuel k subscribed params answer sleeps published m0 m1 m2 m3 m4 m5 id
      quiet id_sleeps d given nz good short off ne silent =
    let waits = replicate k [] ++ (connack ∷ []) ∷ sleeps in
    let m = mac m0 m1 m2 m3 m4 m5 in
    let there : Device = record d { mqtt_connected = 1; mac_address = m } in
    let msgs = quiet ++ (resp_id m id ∷ []) ∷ id_sleeps in
    let go = identify published m msgs in
    let (c1, connects, w1, online, calls, _) =
      client_connect_lem initial init p code fuel k subscribed params answer sleeps d refl refl
        given nz refl good short off in
    let (_, names) =
      ask_for_id_lem m0 m1 m2 m3 m4 m5 id there published quiet id_sleeps c1 refl ne silent w1.ready
        online in
    (
      after (suc (length quiet)) (ready_message 255 m) c1,
      sym (
            client_connect_then init (some p) true subscribed params (accepts code) answer fuel
              waits d go initial)
          ∙ bind_ok
              (mqtt_client_connect init (some p) true subscribed params (accepts code) answer fuel
                waits d)
              go initial c1 (returned (pos 0) (record d { mqtt_connected = 1 }) (suc k)) connects
          ∙ identified published m msgs (pos 0) (record d { mqtt_connected = 1 }) (suc k) c1 _ _
              names,
      record { chain = w1.chain; distinct = w1.distinct; ready = refl },
      online,
      ap
          (λ z.
            z
            ++ replicate (suc (length quiet))
                (publish (topic_pub_cmd ++ default_id_device) (ready_message 255 m) 0))
          calls,
    )

-- Where the library refuses the connection, `mainThread` waits in `mqtt_connect` through every
-- sleep in which nothing arrives.
pub main_session_refused :
    (init : InitAnswers) (p code fuel k : ℕ) (subscribed : ℤ) (params : ClientParams)
    (answer : List ℕ → ℤ) (published : ℕ → ℤ) (mac_address : List ℕ)
    (id_sleeps : List (List (List ℕ))) (d : Device)
    → IsGiven init
    → p ≢ 0
    → d.mqtt_connected ≡ 0
    → (c' : Context) × (main_session init
          (some p)
          true
          subscribed
          params
          (answers (negsuc code))
          answer
          fuel
          (replicate k [])
          published
          mac_address
          id_sleeps
          d
          initial
        ≡ ok (connecting k) c')
      × (c'.module_state ≡ initialized)
      × (c'.calls ≡ (create ∷ client_options params) ++ connect ∷ [])
unfolding main_session identify
main_session_refused init p code fuel k subscribed params answer published mac_address id_sleeps d
      given nz off =
    let (c', waits, idles, calls) =
      client_connect_refused initial init p code fuel k subscribed params answer d refl refl given
        nz refl off in
    let all = append-nil (replicate {A = List Event} k []) in
    let go = identify published mac_address id_sleeps in
    (
      c',
      sym (
            client_connect_then init (some p) true subscribed params (answers (negsuc code)) answer
              fuel (replicate k []) d go initial)
          ∙ bind_ok
              (mqtt_client_connect init (some p) true subscribed params (answers (negsuc code))
                answer fuel (replicate k []) d)
              go initial c' (waiting k)
              (subst
                (λ z.
                  mqtt_client_connect init (some p) true subscribed params (answers (negsuc code))
                    answer fuel z d initial
                  ≡ ok (waiting k) c')
                all waits),
      idles,
      calls,
    )
