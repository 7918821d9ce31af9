-- ===== src/Mqtt/Session.antt =====
-- The `MQTT_IF_` functions of Core/mqtt_user.c. What the system and the MQTT library answer are
-- arguments; a return code is an integer.
pub mod Subscribing
pub mod Entries
pub mod Unlinking
pub mod Unsubscribing
pub mod States
pub mod Kept
use plhr_firmware.Common.{
  ℕ, zero, suc, Bool, true, false, not, ◌&&◌, ◌||◌, Option, none, some, List, [], ◌∷◌, ◌++◌, ◌==◌,
  ltb, bit_or, if◌then◌else◌, ℤ, pos, negsuc, is_neg,
}
use plhr_firmware.Mqtt.Topics.{Match, matched, unmatched, topic_matching}
use plhr_firmware.Mqtt.Topics
use plhr_firmware.Mqtt.Context.{
  ModuleState, idle, initialized, connected, Event, destroy, Node, update, ClientCall, create,
  set_will, set_username, set_password, set_clean_connect, set_keepalive, connect, disconnect,
  subscribe, unsubscribe, publish, Context, ok, fault, hang, out_of_fuel, M, ◌>>=◌, ◌>>◌, pure,
  modify, get, lock, unlock, load, store, free, call,
}

abbrev is_idle : ModuleState → Bool
is_idle idle = true
is_idle _ = false

abbrev pub is_initialized : ModuleState → Bool
is_initialized initialized = true
is_initialized _ = false

abbrev pub is_connected : ModuleState → Bool
is_connected connected = true
is_connected _ = false

abbrev pub minus_one : ℤ
minus_one = negsuc 0

abbrev pub set_state : ModuleState → M (Unit {0})
set_state s = modify λ c. record c { module_state = s }

-- What `MQTT_IF_Init` is answered: whether `malloc` gives a mutex, the code of
-- `pthread_mutex_init`, the queue of `mq_open`, and the codes of the four `pthread` calls.
pub record InitAnswers : Type 0 where
  pub allocated : Bool
  pub mutex_init : ℕ
  pub mq_open : ℤ
  pub set_sched : ℕ
  pub set_stack : ℕ
  pub set_detach : ℕ
  pub create_thread : ℕ

-- `(int)msgQueue <= 0`.
abbrev not_positive : ℤ → Bool
not_positive (pos zero) = true
not_positive (pos (suc n)) = false
not_positive (negsuc n) = true

-- `ret |= ...` over the four thread calls.
abbrev pub thread_code : InitAnswers → ℕ
thread_code a = bit_or (bit_or (bit_or a.set_sched a.set_stack) a.set_detach) a.create_thread

-- `MQTT_IF_Init`.
pub mqtt_if_init : InitAnswers → M ℤ
mqtt_if_init a = do
  c ← get
  if not (is_idle c.module_state)
      then pure minus_one
      else (if not a.allocated || not (a.mutex_init == 0) then (λ _. hang) else do
        modify λ c. record c { mutex = some false }
        lock
        if not_positive a.mq_open then (do unlock; pure a.mq_open) else do
          if thread_code a == 0 then set_state initialized else pure tt
          unlock
          pure (pos (thread_code a)))

-- The loop of `MQTT_IF_Deinit` that frees the list, by fuel.
pub free_all : ℕ → ℕ → M (Unit {0})
free_all zero tmp = λ _. out_of_fuel
free_all (suc fuel) zero = pure tt
free_all (suc fuel) (suc p) = do
  n ← load (suc p)
  modify λ c. record c { head = n.next }
  free (suc p)
  free_all fuel n.next

-- `MQTT_IF_Deinit`; `sent` is the code of `mq_send`.
pub mqtt_if_deinit : ℕ → ℤ → M ℤ
unfolding free_all
mqtt_if_deinit fuel sent = do
  lock
  c ← get
  if not (is_initialized c.module_state)
      then (do unlock; pure minus_one)
      else if is_neg sent
      then (do unlock; pure minus_one)
      else do
        modify λ c. record c { msg_queue = c.msg_queue ++ destroy ∷ [] }
        free_all fuel c.head
        set_state idle
        unlock
        pure (pos 0)

-- The parameters of `MQTT_IF_ClientParams_t` that decide which options are set.
pub record ClientParams : Type 0 where
  pub has_will : Bool
  pub has_username : Bool
  pub has_password : Bool
  pub clean_connect : Bool
  pub keepalive_time : ℕ

abbrev call_if : Bool → ClientCall → List ClientCall
call_if true k = k ∷ []
call_if false k = []

-- The options that a connection sets, in order.
abbrev pub client_options : ClientParams → List ClientCall
client_options params =
    call_if params.has_will set_will
    ++ call_if params.has_username set_username
    ++ call_if params.has_password set_password
    ++ call_if (not params.clean_connect) set_clean_connect
    ++ call_if (ltb 0 params.keepalive_time) set_keepalive

-- `MQTT_IF_Connect`: `created` tells whether `MQTTClient_create` gives a client, `thread` is the
-- code of the four thread calls, and `answer` that of `MQTTClient_connect`. A handle is 1.
pub mqtt_if_connect : ClientParams → Bool → ℕ → ℤ → M ℤ
mqtt_if_connect params created thread answer = do
  lock
  c ← get
  if not (is_initialized c.module_state) then (do unlock; pure minus_one) else do
    modify λ c. record c { has_event_cb = true }
    call create
    if not created
        then (do unlock; pure minus_one)
        else if not (thread == 0)
        then (do unlock; pure minus_one)
        else do
          modify λ c. record c { calls = c.calls ++ client_options params }
          call connect
          if is_neg answer then pure tt else set_state connected
          unlock
          pure (if is_neg answer then answer else pos 1)

-- `MQTT_IF_Disconnect`; `answer` is the code of `MQTTClient_disconnect`.
pub mqtt_if_disconnect : ℤ → M ℤ
mqtt_if_disconnect answer = do
  lock
  c ← get
  if not (is_connected c.module_state) then (do unlock; pure minus_one) else do
    modify λ c. record c { client_disconnect_flag = 1 }
    call disconnect
    if is_neg answer then pure tt else set_state initialized
    unlock
    pure answer

-- A node before its fields are written.
abbrev uninitialised : Node
uninitialised = record { topic = []; qos = 0; callback = 0; next = 0 }

abbrev allocate : ℕ → M (Unit {0})
allocate p = modify λ c. record c { heap = update c.heap p (some uninitialised) }

-- `MQTT_IF_Subscribe`: `place` is the address from the first `malloc`, `string` tells whether the
-- second succeeds, and `answer` is the code of `MQTTClient_subscribe`.
pub mqtt_if_subscribe : List ℕ → ℕ → ℕ → Option ℕ → Bool → ℤ → M ℤ
mqtt_if_subscribe topic qos cb place string answer = do
  lock
  c ← get
  if is_idle c.module_state then (do unlock; pure minus_one) else elim place [
    | none ↦ do unlock; pure minus_one
    | some p ↦ do
      allocate p
      if not string then (do unlock; pure minus_one) else do
        store p (record { topic = topic; qos = qos; callback = cb; next = c.head })
        modify λ c. record c { head = p }
        if is_connected c.module_state
            then (do
              call (subscribe topic)
              if is_neg answer then free p else pure tt
              unlock
              pure answer)
            else (do unlock; pure (pos 0))
  ]

-- A node leaves the list: the head pointer, if it is the head, or the node before it takes its
-- `next`.
pub relink : Bool → ℕ → ℕ → M (Unit {0})
relink true prev next = modify λ c. record c { head = next }
relink false prev next = do m ← load prev; store prev (record m { next = next })

-- The node at `curr` is unlinked and freed.
pub remove_node : ℕ → ℕ → ℕ → M Bool
unfolding relink
remove_node prev curr next = do c ← get; relink (curr == c.head) prev next; free curr; pure true

-- What the answer of the matching leads to.
pub on_match : Option Match → M Bool → M Bool → M Bool
on_match none hit miss = λ _. out_of_fuel
on_match (some matched) hit miss = hit
on_match (some unmatched) hit miss = miss
on_match (some Match.fault) hit miss = λ _. fault

-- The loop of `MQTT_IF_Unsubscribe`, by fuel: `true` when a node was removed.
pub unlink : List ℕ → ℕ → ℕ → ℕ → M Bool
unfolding on_match remove_node
unlink topic zero prev curr = λ _. out_of_fuel
unlink topic (suc fuel) prev zero = pure false
unlink topic (suc fuel) prev (suc p) = do
  n ← load (suc p)
  on_match (topic_matching n.topic topic) (remove_node prev (suc p) n.next)
      (unlink topic fuel (suc p) n.next)

-- `MQTT_IF_Unsubscribe`; `answer` is the code of `MQTTClient_unsubscribe`. Where no node is found
-- the mutex is unlocked twice.
pub mqtt_if_unsubscribe : ℕ → List ℕ → ℤ → M ℤ
unfolding unlink
mqtt_if_unsubscribe fuel topic answer = do
  lock
  c ← get
  if not (is_connected c.module_state) then (do unlock; pure minus_one) else do
    call (unsubscribe topic)
    if is_neg answer then (do unlock; pure answer) else do
      found ← unlink topic fuel 0 c.head
      if found then (do unlock; pure (pos 1)) else do unlock; unlock; pure minus_one

-- `MQTT_IF_Publish`; `answer` is the code of `MQTTClient_publish`.
pub mqtt_if_publish : List ℕ → List ℕ → ℕ → ℤ → M ℤ
mqtt_if_publish topic payload flags answer = do
  lock
  c ← get
  unlock
  if is_connected c.module_state
      then (do call (publish topic payload flags); pure answer)
      else pure minus_one
