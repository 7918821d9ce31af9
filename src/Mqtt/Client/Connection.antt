-- ===== src/Mqtt/Client/Connection.antt =====
-- How a session begins: the connection of Core/mqtt_user.c and its wait for the broker.
use plhr_firmware.Common.{
  ℕ, zero, suc, ◌+◌, ◌<◌, ◌≡◌, refl, ap, ◌∙◌, true, false, none, some, List, [], ◌∷◌, ◌++◌, ℤ, pos,
  negsuc, length, drop, replicate, arith,
}
use plhr_firmware.Mqtt.Context.{
  ModuleState, initialized, connected, Event, connack, on_event, create, connect, Context, ok,
  bind_ok, M, Result, fault, ◌>>=◌, pure, get, Callback,
}
use plhr_firmware.Mqtt.Context.Chain.{Entry}
use plhr_firmware.Mqtt.Session.{ClientParams, client_options, mqtt_if_connect}
use plhr_firmware.Mqtt.Session.Subscribing.{IsWell}
use plhr_firmware.Mqtt.Session.States.{connect-state}
use plhr_firmware.Mqtt.AppThread.{app_thread_round}
use plhr_firmware.Mqtt.AppThread.Resubscribe.{subscriptions, AllAccepted, connack_resubscribes}
use plhr_firmware.Mqtt.Device.{Device}
use plhr_firmware.Mqtt.Client.{
  react, handle, handle_all, returned, waiting, wait_connected, ConnectAnswers, mqtt_connect,
}

pub drop-append {ℓ} : {A : Type ℓ} (xs ys : List A) → drop (length xs) (xs ++ ys) ≡ ys
drop-append [] ys = refl
drop-append (x ∷ xs) ys = drop-append xs ys

-- The context after the broker's answer to a connection has been handled.
abbrev pub acknowledged : List Entry → Context → Context
acknowledged es c = record c {
  mutex = some false;
  calls = c.calls ++ subscriptions es;
  callbacks = c.callbacks ++ on_event connack ∷ [];
}

module _ (answer : List ℕ → ℤ) (fuel : ℕ) (d : Device) where
  -- What `handle` makes of the callbacks that are new.
  abbrev settle : List Callback → Context → Result Device
  settle cs c = (elim (react cs d) as (λ _. M Device) [ none ↦ λ _. fault | some d' ↦ pure d' ]) c

  handle_connack :
      (c : Context) (es : List Entry)
      → IsWell c es
      → c.has_event_cb ≡ true
      → length es < fuel
      → AllAccepted answer es
      → handle answer fuel connack d c ≡ ok (record d { mqtt_connected = 1 }) (acknowledged es c)
  unfolding handle react
  handle_connack c es w cb h good =
      let e = connack_resubscribes answer fuel c es w cb h good in
      let new = drop-append c.callbacks (on_event connack ∷ []) in
      bind_ok (app_thread_round answer fuel connack)
        (λ _. get >>= λ now. settle (drop (length c.callbacks) now.callbacks)) c (acknowledged es c)
        true e
      ∙ ap (λ cs. settle cs (acknowledged es c)) new

  wait_quiet :
      (n k : ℕ) (sleeps : List (List Event)) (c : Context)
      → d.mqtt_connected ≡ 0
      → wait_connected answer fuel n (replicate k [] ++ sleeps) d c
        ≡ wait_connected answer fuel (k + n) sleeps d c
  unfolding wait_connected handle_all
  wait_quiet n zero sleeps c off =
      let z : n ≡ 0 + n = omega arith in ap (λ m. wait_connected answer fuel m sleeps d c) z
  wait_quiet n (suc k) sleeps c off =
      let move : k + suc n ≡ suc k + n = omega arith in
      ground (arith, off, wait_quiet (suc n) k sleeps c, move)

  wait_still :
      (n : ℕ) (c : Context)
      → d.mqtt_connected ≡ 0
      → wait_connected answer fuel n [] d c ≡ ok (waiting n) c
  unfolding wait_connected
  wait_still n c off = ground (arith, off)

wait_over :
    (answer : List ℕ → ℤ) (fuel n : ℕ) (sleeps : List (List Event)) (d : Device) (c : Context)
    → d.mqtt_connected ≡ 1
    → wait_connected answer fuel n sleeps d c ≡ ok (returned (pos 0) d n) c
unfolding wait_connected
wait_over answer fuel n [] d c on = ground (arith, on)
wait_over answer fuel n (es ∷ sleeps) d c on = ground (arith, on)

wait_connack :
    (answer : List ℕ → ℤ) (fuel n : ℕ) (sleeps : List (List Event)) (d : Device) (c c' : Context)
    → d.mqtt_connected ≡ 0
    → handle answer fuel connack d c ≡ ok (record d { mqtt_connected = 1 }) c'
    → wait_connected answer fuel n ((connack ∷ []) ∷ sleeps) d c
      ≡ ok (returned (pos 0) (record d { mqtt_connected = 1 }) (suc n)) c'
unfolding wait_connected handle_all
wait_connack answer fuel n sleeps d c c' off e =
    let over = wait_over answer fuel (suc n) sleeps (record d { mqtt_connected = 1 }) c' refl in
    ground (arith, off, e, over)

-- The context after `MQTT_IF_Connect` with a client, in the module state that it leads to.
abbrev pub asked_to_connect : ClientParams → ModuleState → Context → Context
asked_to_connect params state c = record c {
  module_state = state;
  mutex = some false;
  has_event_cb = true;
  calls = ((c.calls ++ create ∷ []) ++ client_options params) ++ connect ∷ [];
}

-- A client and its thread are there, and `MQTTClient_connect` gives a code.
abbrev pub answers : ℤ → ConnectAnswers
answers code = record { created = true; thread = 0; connect = code }

module _ (params : ClientParams) (answer : List ℕ → ℤ) (fuel k : ℕ) (d : Device) (c : Context)
    (es : List Entry) (w : IsWell c es) (start : c.module_state ≡ initialized)
    (off : d.mqtt_connected ≡ 0) where
  connect_then_wait :
      (code ret : ℤ) (sleeps : List (List Event)) (c' : Context)
      → mqtt_if_connect params true 0 code c ≡ ok ret c'
      → mqtt_connect params (answers code) answer fuel (replicate k [] ++ sleeps) d c
        ≡ wait_connected answer fuel k sleeps d c'
  unfolding mqtt_connect
  connect_then_wait code ret sleeps c' e =
      let plus_zero : k + 0 ≡ k = omega arith in
      bind_ok (mqtt_if_connect params true 0 code)
        (λ _. wait_connected answer fuel 0 (replicate k [] ++ sleeps) d) c c' ret e
      ∙ wait_quiet answer fuel d 0 k sleeps c' off
      ∙ ap (λ n. wait_connected answer fuel n sleeps d c') plus_zero

  -- Where the library refuses the connection, the wait goes on.
  pub connect_refused :
      (code : ℕ)
      → mqtt_connect params (answers (negsuc code)) answer fuel (replicate k [] ++ []) d c
        ≡ ok (waiting k) (asked_to_connect params initialized c)
  connect_refused code =
      let (_, refused) = connect-state c w.ready params code start in
      let c1 : Context = asked_to_connect params initialized c in
      connect_then_wait (negsuc code) (negsuc code) [] c1
        (refused ∙ λ i. ok (negsuc code) (record c1 { module_state = start i }))
      ∙ wait_still answer fuel d k c1 off

  -- From the initialised state, with a client, a well-formed list shorter than the fuel and a
  -- device that is not yet connected, `mqtt_connect` waits through any number of sleeps in which
  -- nothing arrives, also where the library has refused the connection. Where it has accepted, the
  -- acknowledgement of the broker ends the wait: if the broker accepts every topic again,
  -- `mqtt_connect` returns 0 in the connected state, with the flag of the device up and with every
  -- topic of the list subscribed to once, in order.
  pub mqtt_connect_waits :
      (code : ℕ) (sleeps : List (List Event))
      → length es < fuel
      → AllAccepted answer es
      → (mqtt_connect params (answers (negsuc code)) answer fuel (replicate k [] ++ []) d c
          ≡ ok (waiting k) (asked_to_connect params initialized c))
        × (mqtt_connect params (answers (pos code)) answer fuel (replicate k [] ++ []) d c
            ≡ ok (waiting k) (asked_to_connect params connected c))
        × (mqtt_connect params
              (answers (pos code))
              answer
              fuel
              (replicate k [] ++ (connack ∷ []) ∷ sleeps)
              d
              c
            ≡ ok
                (returned (pos 0) (record d { mqtt_connected = 1 }) (suc k))
                (acknowledged es (asked_to_connect params connected c)))
  mqtt_connect_waits code sleeps h good =
      let (accepted, _) = connect-state c w.ready params code start in
      let c1 : Context = asked_to_connect params connected c in
      let still : IsWell c1 es = record { chain = w.chain; distinct = w.distinct; ready = refl } in
      (
        connect_refused code,
        connect_then_wait (pos code) (pos 1) [] c1 accepted ∙ wait_still answer fuel d k c1 off,
        connect_then_wait (pos code) (pos 1) ((connack ∷ []) ∷ sleeps) c1 accepted
            ∙ wait_connack answer fuel k sleeps d c1 (acknowledged es c1) off
                (handle_connack answer fuel d c1 es still refl h good),
      )
