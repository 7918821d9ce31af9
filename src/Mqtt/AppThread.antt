-- ===== src/Mqtt/AppThread.antt =====
-- `MQTTClientCallback` and `MQTTAppThread` of Core/mqtt_user.c: from the MQTT library's events to
-- the module's queue, and from the queue to the user's callbacks.
pub mod Dispatch
pub mod Resubscribe
pub mod Kept
use plhr_firmware.Common.{
  ℕ, zero, suc, Bool, true, false, Option, none, some, List, [], ◌∷◌, ◌++◌, ◌==◌, ltb,
  if◌then◌else◌, ℤ, is_neg, take,
}
use plhr_firmware.Mqtt.Topics.{Match, matched, unmatched, topic_matching}
use plhr_firmware.Mqtt.Topics
use plhr_firmware.Mqtt.Context.{
  Event, connack, suback, puback, unsuback, server_disconnect, client_disconnect, destroy, recv,
  Node, subscribe, Callback, on_topic, Context, fault, out_of_fuel, M, ◌>>=◌, ◌>>◌, pure, modify,
  get, lock, unlock, load, store, free, call, notify,
}

-- The message types of the library's operation event.
pub data Operation : Type 0 where
  operation_connack operation_puback operation_suback operation_unsuback : Operation

-- The events of the MQTT library, with what comes with them: bytes for a topic and a payload.
pub data LibraryEvent : Type 0 where
  operation : Operation → LibraryEvent
  received : List ℕ → List ℕ → ℕ → LibraryEvent
  disconnected : LibraryEvent

-- The C string in a buffer that ends with a zero byte.
abbrev pub c_string : List ℕ → List ℕ
c_string [] = []
c_string (zero ∷ bs) = []
c_string (suc b ∷ bs) = suc b ∷ c_string bs

-- The queue element of an event. A received topic and payload are copied and ended by a zero byte:
-- the topic is used as a C string, the payload as the memory that it is.
pub queue_element : LibraryEvent → Event
queue_element (operation operation_connack) = connack
queue_element (operation operation_puback) = puback
queue_element (operation operation_suback) = suback
queue_element (operation operation_unsuback) = unsuback
queue_element (received topic payload qos) = recv (c_string topic) (payload ++ 0 ∷ []) qos
queue_element disconnected = server_disconnect

-- `MQTTClientCallback`; `sent` is the code of `mq_send`.
pub mqtt_client_callback : LibraryEvent → ℤ → M (Unit {0})
unfolding queue_element
mqtt_client_callback e sent =
    if is_neg sent
    then pure tt
    else modify λ c. record c { msg_queue = c.msg_queue ++ queue_element e ∷ [] }

-- A call of a topic's callback.
pub run_topic_callback : ℕ → List ℕ → List ℕ → ℕ → M (Unit {0})
run_topic_callback cb topic payload qos =
    modify λ c. record c { callbacks = c.callbacks ++ on_topic cb topic payload qos ∷ [] }

-- What the answer of the matching leads to.
pub on_answer : Option Match → M (Unit {0}) → M (Unit {0}) → M (Unit {0})
on_answer none hit miss = λ _. out_of_fuel
on_answer (some matched) hit miss = hit
on_answer (some unmatched) hit miss = miss
on_answer (some Match.fault) hit miss = λ _. fault

-- The loop of a received message over the topic list, by fuel.
pub dispatch_from : List ℕ → List ℕ → ℕ → ℕ → ℕ → M (Unit {0})
unfolding on_answer run_topic_callback
dispatch_from topic payload qos zero tmp = λ _. out_of_fuel
dispatch_from topic payload qos (suc fuel) zero = pure tt
dispatch_from topic payload qos (suc fuel) (suc p) = do
  n ← load (suc p)
  on_answer (topic_matching n.topic topic) (run_topic_callback n.callback topic payload qos)
      (dispatch_from topic payload qos fuel n.next)

-- `prev->next = next`, or the head pointer where there is no node before.
pub bypass : Bool → ℕ → ℕ → M (Unit {0})
bypass true prev next = modify λ c. record c { head = next }
bypass false prev next = do m ← load prev; store prev (record m { next = next })

-- The node after a refused one: the next, or behind the head the one after it.
pub after_refused : Bool → ℕ → M ℕ
after_refused true next = pure next
after_refused false zero = pure 0
after_refused false (suc next) = do m ← load (suc next); pure m.next

-- A refused node leaves the list; the result is where the loop goes on.
pub drop_refused : ℕ → ℕ → ℕ → M ℕ
unfolding bypass after_refused
drop_refused prev curr next = do
  c ← get
  bypass (curr == c.head) prev next
  on ← after_refused (curr == c.head) next
  free curr
  pure on

-- The loop that subscribes again after a connection, by fuel; `answer` is the code of
-- `MQTTClient_subscribe` for a topic.
pub resubscribe : (List ℕ → ℤ) → ℕ → ℕ → ℕ → M (Unit {0})
unfolding drop_refused
resubscribe answer zero prev curr = λ _. out_of_fuel
resubscribe answer (suc fuel) prev zero = pure tt
resubscribe answer (suc fuel) prev (suc p) = do
  n ← load (suc p)
  call (subscribe n.topic)
  if is_neg (answer n.topic)
      then drop_refused prev (suc p) n.next >>= resubscribe answer fuel prev
      else resubscribe answer fuel (suc p) n.next

-- The flag of a disconnect that the client asked for comes down, and the event that is reported.
pub take_flag : Bool → M (Unit {0})
take_flag true = modify λ c. record c { client_disconnect_flag = 0 }
take_flag false = pure tt

pub disconnect_event : Bool → Event
disconnect_event true = client_disconnect
disconnect_event false = server_disconnect

-- One round of `MQTTAppThread` with the element that it took from the queue. The result tells
-- whether the thread goes on.
pub app_thread_round : (List ℕ → ℤ) → ℕ → Event → M Bool
unfolding dispatch_from resubscribe take_flag disconnect_event
app_thread_round answer fuel (recv topic payload qos) = do
  lock
  c ← get
  dispatch_from topic payload qos fuel c.head
  unlock
  pure true
app_thread_round answer fuel destroy = do notify destroy; pure false
app_thread_round answer fuel server_disconnect = do
  lock
  c ← get
  take_flag (c.client_disconnect_flag == 1)
  unlock
  notify (disconnect_event (c.client_disconnect_flag == 1))
  pure true
app_thread_round answer fuel connack = do
  lock
  c ← get
  resubscribe answer fuel 0 c.head
  unlock
  notify connack
  pure true
app_thread_round answer fuel e = do notify e; pure true
