-- ===== src/Mqtt/Client/Reconnection.antt =====
-- `mqtt_client_connect` of Core/mqtt_user.c, from an idle module to a session.
use plhr_firmware.Common.{
  ℕ, suc, ◌<◌, ◌≡◌, refl, ◌≢◌, ap, fun_ext, ◌∙◌, Bool, Option, true, none, some, List, [], ◌∷◌,
  ◌++◌, is_neg, false, ℤ, pos, negsuc, replicate,
}
use plhr_firmware.Mqtt.Context.{
  idle, initialized, connected, Event, connack, on_event, create, connect, subscribe, Context, ok,
  bind_ok, bind_assoc, M, ◌>>=◌,
}
use plhr_firmware.Mqtt.Session.{InitAnswers, thread_code, ClientParams, client_options}
use plhr_firmware.Mqtt.Session.Subscribing.{IsWell, entry}
use plhr_firmware.Mqtt.Session.States.{init_accepted}
use plhr_firmware.Mqtt.Device.{Device}
use plhr_firmware.Mqtt.Client.{
  mqtt_init, mqtt_subscribe, topic_1, cmd_zero_callback, Connecting, returned, waiting,
  ConnectAnswers, mqtt_connect, mqtt_client_connect,
}
use plhr_firmware.Mqtt.Client.Shutdown.{subscribe_commands}
use plhr_firmware.Mqtt.Client.Connection.{
  asked_to_connect, acknowledged, answers, connect_refused, mqtt_connect_waits,
}

-- The system gives `MQTT_IF_Init` what it asks for.
abbrev pub IsGiven : InitAnswers → Type 0
IsGiven a =
    (a.allocated ≡ true)
    × (a.mutex_init ≡ 0)
    × ((k : ℕ) × (a.mq_open ≡ pos (suc k)))
    × (thread_code a ≡ 0)

-- What the library answers to a connection that it accepts.
abbrev pub accepts : ℕ → ConnectAnswers
accepts code = record { created = true; thread = 0; connect = pos code }

-- `mqtt_client_connect` comes to its connection.
client_connect_begins :
    (c c1 c2 : Context) (init : InitAnswers) (place : Option ℕ) (subscribed : ℤ)
    (params : ClientParams) (a : ConnectAnswers) (answer : List ℕ → ℤ) (fuel : ℕ)
    (sleeps : List (List Event)) (d : Device)
    → mqtt_init init c ≡ ok (pos 0) c1
    → mqtt_subscribe place true subscribed c1 ≡ ok (pos 0) c2
    → mqtt_client_connect init place true subscribed params a answer fuel sleeps d c
      ≡ mqtt_connect params a answer fuel sleeps d c2
unfolding mqtt_client_connect
client_connect_begins c c1 c2 init place subscribed params a answer fuel sleeps d starts
      subscribes =
    bind_ok (mqtt_init init)
      (λ _.
        mqtt_subscribe place true subscribed >>= λ _. mqtt_connect params a answer fuel sleeps d)
      c c1 (pos 0) starts
    ∙ bind_ok (mqtt_subscribe place true subscribed)
        (λ _. mqtt_connect params a answer fuel sleeps d) c1 c2 (pos 0) subscribes

-- From an idle module with an empty list, where the system and the library give what is asked, and
-- a node at a free address, `mqtt_client_connect` on a device that is not connected ends when the
-- broker's acknowledgement arrives, after any number of sleeps without one. It returns 0; the
-- module is connected, its list is the command topic alone, the library was asked to create a
-- client, set its options, connect, and then subscribe to this topic once, and the device's flag is
-- up.
pub client_connect_lem :
    (c : Context) (init : InitAnswers) (p code fuel k : ℕ) (subscribed : ℤ) (params : ClientParams)
    (answer : List ℕ → ℤ) (sleeps : List (List Event)) (d : Device)
    → c.head ≡ 0
    → c.module_state ≡ idle
    → IsGiven init
    → p ≢ 0
    → c.heap p ≡ none
    → is_neg (answer topic_1) ≡ false
    → 1 < fuel
    → d.mqtt_connected ≡ 0
    → (c' : Context) × (mqtt_client_connect init
          (some p)
          true
          subscribed
          params
          (accepts code)
          answer
          fuel
          (replicate k [] ++ (connack ∷ []) ∷ sleeps)
          d
          c
        ≡ ok (returned (pos 0) (record d { mqtt_connected = 1 }) (suc k)) c')
      × IsWell c' (entry p topic_1 0 cmd_zero_callback ∷ [])
      × (c'.module_state ≡ connected)
      × (c'.calls
          ≡ (((c.calls ++ create ∷ []) ++ client_options params) ++ connect ∷ [])
            ++ subscribe topic_1 ∷ [])
      × (c'.callbacks ≡ c.callbacks ++ on_event connack ∷ [])
unfolding mqtt_init
client_connect_lem c init p code fuel k subscribed params answer sleeps d nil s (m, i, (j, q), t) nz
      free good short off =
    let c1 : Context = record c { module_state = initialized; mutex = some false } in
    let w1 : IsWell c1 [] = record { chain = nil; distinct = tt; ready = refl } in
    let waits = replicate k [] ++ (connack ∷ []) ∷ sleeps in
    let (c2, subscribes, w2, same, quiet, still) =
      subscribe_commands c1 [] p subscribed w1 refl nz free in
    let (_, _, connects) =
      mqtt_connect_waits params answer fuel k d c2 (entry p topic_1 0 cmd_zero_callback ∷ []) w2
        still off code sleeps short (good, tt) in
    (
      acknowledged (entry p topic_1 0 cmd_zero_callback ∷ [])
          (asked_to_connect params connected c2),
      client_connect_begins c c1 c2 init (some p) subscribed params (accepts code) answer fuel waits
            d (init_accepted c init j s m i q t) subscribes
          ∙ connects,
      record { chain = w2.chain; distinct = w2.distinct; ready = refl },
      refl,
      ap
          (λ z.
            (((z ++ create ∷ []) ++ client_options params) ++ connect ∷ [])
            ++ subscribe topic_1 ∷ [])
          same,
      ap (λ z. z ++ on_event connack ∷ []) quiet,
    )

-- The same where the library refuses the connection: `mqtt_client_connect` waits through every
-- sleep in which nothing arrives, in the initialised state.
pub client_connect_refused :
    (c : Context) (init : InitAnswers) (p code fuel k : ℕ) (subscribed : ℤ) (params : ClientParams)
    (answer : List ℕ → ℤ) (d : Device)
    → c.head ≡ 0
    → c.module_state ≡ idle
    → IsGiven init
    → p ≢ 0
    → c.heap p ≡ none
    → d.mqtt_connected ≡ 0
    → (c' : Context) × (mqtt_client_connect init
          (some p)
          true
          subscribed
          params
          (answers (negsuc code))
          answer
          fuel
          (replicate k [] ++ [])
          d
          c
        ≡ ok (waiting k) c')
      × (c'.module_state ≡ initialized)
      × (c'.calls ≡ ((c.calls ++ create ∷ []) ++ client_options params) ++ connect ∷ [])
unfolding mqtt_init
client_connect_refused c init p code fuel k subscribed params answer d nil s (m, i, (j, q), t) nz
      free off =
    let c1 : Context = record c { module_state = initialized; mutex = some false } in
    let w1 : IsWell c1 [] = record { chain = nil; distinct = tt; ready = refl } in
    let (c2, subscribes, w2, same, _, still) =
      subscribe_commands c1 [] p subscribed w1 refl nz free in
    (
      asked_to_connect params initialized c2,
      client_connect_begins c c1 c2 init (some p) subscribed params (answers (negsuc code)) answer
            fuel (replicate k [] ++ []) d (init_accepted c init j s m i q t) subscribes
          ∙ connect_refused params answer fuel k d c2 (entry p topic_1 0 cmd_zero_callback ∷ []) w2
              still off code,
      refl,
      ap (λ z. ((z ++ create ∷ []) ++ client_options params) ++ connect ∷ []) same,
    )

-- What follows `mqtt_client_connect` follows its last call.
pub client_connect_then :
    {A : Type 0} (init : InitAnswers) (place : Option ℕ) (string : Bool) (subscribed : ℤ)
    (params : ClientParams) (a : ConnectAnswers) (answer : List ℕ → ℤ) (fuel : ℕ)
    (sleeps : List (List Event)) (d : Device) (g : Connecting → M A) (c : Context)
    → (mqtt_client_connect init place string subscribed params a answer fuel sleeps d >>= g) c
      ≡ (mqtt_init init >>= λ _. mqtt_subscribe place string subscribed >>= λ _.
            mqtt_connect params a answer fuel sleeps d >>= g)
          c
unfolding mqtt_client_connect
client_connect_then init place string subscribed params a answer fuel sleeps d g c =
    bind_assoc (mqtt_init init)
      (λ _.
        mqtt_subscribe place string subscribed >>= λ _. mqtt_connect params a answer fuel sleeps d)
      g c
    ∙ ap (λ f. (mqtt_init init >>= f) c)
        (fun_ext λ _. fun_ext λ c'.
          bind_assoc (mqtt_subscribe place string subscribed)
            (λ _. mqtt_connect params a answer fuel sleeps d) g c')
