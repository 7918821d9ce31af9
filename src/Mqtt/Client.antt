-- ===== src/Mqtt/Client.antt =====
-- The calls of Core/mqtt_user.c that are made of several `MQTT_IF_` functions, and the end of
-- `MQTTContextThread`.
pub mod Shutdown
pub mod Connection
pub mod Reconnection
pub mod Races
pub mod Delivery
use plhr_firmware.Common.{
  ℕ, zero, suc, Bool, true, false, Option, none, some, ℤ, pos, List, [], ◌∷◌, ◌==◌, if◌then◌else◌,
  drop, length,
}
use plhr_firmware.Mqtt.Context.{
  initialized, Event, Callback, on_event, on_topic, fault, M, ◌>>=◌, ◌>>◌, pure, modify, get, lock,
  unlock,
}
use plhr_firmware.Mqtt.Session.{
  set_state, mqtt_if_init, InitAnswers, ClientParams, mqtt_if_connect, mqtt_if_disconnect,
  mqtt_if_deinit, mqtt_if_subscribe,
}
use plhr_firmware.Mqtt.AppThread.{app_thread_round}
use plhr_firmware.Mqtt.Device.{Device, mqtt_event_callback, cmd_zero}

-- `MQTTContextThread`, after `MQTTClient_run` has come back and the client is deleted.
pub mqtt_context_thread : M (Unit {0})
mqtt_context_thread = do lock; set_state initialized; unlock

-- `topic_1`, "CC32xx/cmd/s2d/0", and a number for the callback `cmd_zero`.
abbrev pub topic_1 : List ℕ
topic_1 = 67 ∷ 67 ∷ 51 ∷ 50 ∷ 120 ∷ 120 ∷ 47 ∷ 99 ∷ 109 ∷ 100 ∷ 47 ∷ 115 ∷ 50 ∷ 100 ∷ 47 ∷ 48 ∷ []

abbrev pub cmd_zero_callback : ℕ
cmd_zero_callback = 0

-- `mqtt_subscribe`.
pub mqtt_subscribe : Option ℕ → Bool → ℤ → M ℤ
mqtt_subscribe place string answer =
    mqtt_if_subscribe topic_1 0 cmd_zero_callback place string answer

-- `mqtt_client_disconnect`; `answer` is the code of `MQTTClient_disconnect` and `sent` that of
-- `mq_send`.
pub mqtt_client_disconnect : ℕ → ℤ → ℤ → M ℤ
mqtt_client_disconnect fuel answer sent = do _ ← mqtt_if_disconnect answer; mqtt_if_deinit fuel sent

-- `mqtt_init`.
pub mqtt_init : InitAnswers → M ℤ
mqtt_init a = mqtt_if_init a

-- `mqtt_disconnect`; the flag `mqtt_connected` comes down whatever the library answers.
pub mqtt_disconnect : ℤ → Device → M (ℤ × Device)
mqtt_disconnect answer d = do
  ret ← mqtt_if_disconnect answer
  pure (ret, record d { mqtt_connected = 0 })

-- What the callbacks do to the device: `mqtt_event_callback` for an event, and for a message
-- `cmd_zero`, the only callback that a topic is given; none where it reads past its payload.
pub react : List Callback → Device → Option Device
react [] d = some d
react (on_event e ∷ cs) d = react cs (mqtt_event_callback e d)
react (on_topic cb topic payload qos ∷ cs) d = elim (cmd_zero payload d) [
  | none ↦ none
  | some d' ↦ react cs d'
]

-- A round of `MQTTAppThread` with what its callbacks do to the device.
pub handle : (List ℕ → ℤ) → ℕ → Event → Device → M Device
unfolding react
handle answer fuel e d = do
  before ← get
  _ ← app_thread_round answer fuel e
  now ← get
  elim (react (drop (length before.callbacks) now.callbacks) d) [
    | none ↦ λ _. fault
    | some d' ↦ pure d'
  ]

-- A round with the element that `mq_receive` gives: the oldest of the queue. On an empty queue the
-- thread waits.
pub take_element : (List ℕ → ℤ) → ℕ → List Event → Device → M Device
unfolding handle
take_element answer fuel [] d = pure d
take_element answer fuel (e ∷ q) d = do
  modify λ c. record c { msg_queue = q }
  handle answer fuel e d

pub receive_round : (List ℕ → ℤ) → ℕ → Device → M Device
unfolding take_element
receive_round answer fuel d = do c ← get; take_element answer fuel c.msg_queue d

pub handle_all : (List ℕ → ℤ) → ℕ → List Event → Device → M Device
unfolding handle
handle_all answer fuel [] d = pure d
handle_all answer fuel (e ∷ es) d = do d' ← handle answer fuel e d; handle_all answer fuel es d'

-- Where `mqtt_connect` stands: it has returned a code after a number of sleeps, or it still waits.
pub data Connecting : Type 0 where
  returned : ℤ → Device → ℕ → Connecting
  waiting : ℕ → Connecting

-- The loop of `mqtt_connect` that waits for `mqtt_connected`. The lists hold the queue elements
-- that `MQTTAppThread` handles in each sleep.
pub wait_connected : (List ℕ → ℤ) → ℕ → ℕ → List (List Event) → Device → M Connecting
unfolding handle_all
wait_connected answer fuel n [] d =
    if d.mqtt_connected == 0 then pure (waiting n) else pure (returned (pos 0) d n)
wait_connected answer fuel n (es ∷ sleeps) d = elim (d.mqtt_connected == 0) [
  | true ↦ do d' ← handle_all answer fuel es d; wait_connected answer fuel (suc n) sleeps d'
  | false ↦ pure (returned (pos 0) d n)
]

-- What `mqtt_connect` is answered: whether there is a client, the code of the four thread calls,
-- and the code of `MQTTClient_connect`.
pub record ConnectAnswers : Type 0 where
  pub created : Bool
  pub thread : ℕ
  pub connect : ℤ

-- `mqtt_connect`. A handle below 0 is only logged.
pub mqtt_connect :
    ClientParams → ConnectAnswers → (List ℕ → ℤ) → ℕ → List (List Event) → Device → M Connecting
unfolding wait_connected
mqtt_connect params a answer fuel sleeps d = do
  _ ← mqtt_if_connect params a.created a.thread a.connect
  wait_connected answer fuel 0 sleeps d

-- `mqtt_client_connect`; the node of `topic_1` is allocated at `place`, and `subscribed` is the
-- code of its subscription.
pub mqtt_client_connect :
    InitAnswers
    → Option ℕ
    → Bool
    → ℤ
    → ClientParams
    → ConnectAnswers
    → (List ℕ → ℤ)
    → ℕ
    → List (List Event)
    → Device
    → M Connecting
unfolding mqtt_init mqtt_subscribe mqtt_connect
mqtt_client_connect init place string subscribed params a answer fuel sleeps d = do
  _ ← mqtt_init init
  _ ← mqtt_subscribe place string subscribed
  mqtt_connect params a answer fuel sleeps d
