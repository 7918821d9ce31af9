-- ===== src/Mqtt/Runs.antt =====
-- The threads of Core/mqtt_user.c over one context, in any order: an operation at a time, as
-- `moduleMutex` has it, with any answers of the system and the library.
pub mod Invariant
use plhr_firmware.Common.{
  ℕ, ◌<◌, ◌≡◌, ◌≢◌, Bool, true, false, Option, none, some, List, [], ◌∷◌, ℤ, pos, negsuc, length,
}
use plhr_firmware.Mqtt.Context.{
  idle, initialized, connected, Event, connack, suback, puback, unsuback, server_disconnect, recv,
  destroy, Context, ok,
}
use plhr_firmware.Mqtt.Context.Chain.{Entry}
use plhr_firmware.Mqtt.Session.{
  InitAnswers, ClientParams, mqtt_if_init, mqtt_if_deinit, mqtt_if_connect, mqtt_if_disconnect,
  mqtt_if_subscribe, mqtt_if_unsubscribe, mqtt_if_publish,
}
use plhr_firmware.Mqtt.Session.Subscribing.{entry}
use plhr_firmware.Mqtt.Session.Entries.{Answers, remove_first}
use plhr_firmware.Mqtt.AppThread.{LibraryEvent, mqtt_client_callback, app_thread_round}
use plhr_firmware.Mqtt.AppThread.Resubscribe.{AllAccepted}
use plhr_firmware.Mqtt.Client.{mqtt_context_thread}

-- The elements that the last branch of `MQTTAppThread` hands on.
pub data IsPlain : Event → Type 0 where
  plain_suback : IsPlain suback
  plain_puback : IsPlain puback
  plain_unsuback : IsPlain unsuback

-- The operations that leave the topic list alone, on all their branches.
pub data Calm (c : Context) : Context → Type 0 where
  inits : (a : InitAnswers) (r : ℤ) {c' : Context} → mqtt_if_init a c ≡ ok r c' → Calm c c'
  connects :
      (params : ClientParams) (created : Bool) (thread : ℕ) (answer r : ℤ) {c' : Context}
      → mqtt_if_connect params created thread answer c ≡ ok r c'
      → Calm c c'
  disconnects : (answer r : ℤ) {c' : Context} → mqtt_if_disconnect answer c ≡ ok r c' → Calm c c'
  publishes :
      (topic payload : List ℕ) (flags : ℕ) (answer r : ℤ) {c' : Context}
      → mqtt_if_publish topic payload flags answer c ≡ ok r c'
      → Calm c c'
  deinit_fails :
      (fuel j : ℕ) (r : ℤ) {c' : Context} → mqtt_if_deinit fuel (negsuc j) c ≡ ok r c' → Calm c c'
  subscribe_without_memory :
      (topic : List ℕ) (qos cb : ℕ) (answer r : ℤ) {c' : Context}
      → mqtt_if_subscribe topic qos cb none true answer c ≡ ok r c'
      → Calm c c'
  subscribe_idle :
      (topic : List ℕ) (qos cb : ℕ) (place : Option ℕ) (string : Bool) (answer r : ℤ) {c' : Context}
      → c.module_state ≡ idle
      → mqtt_if_subscribe topic qos cb place string answer c ≡ ok r c'
      → Calm c c'
  unsubscribe_offline :
      (fuel : ℕ) (topic : List ℕ) (answer r : ℤ) {c' : Context}
      → c.module_state ≢ connected
      → mqtt_if_unsubscribe fuel topic answer c ≡ ok r c'
      → Calm c c'
  deinit_refused :
      (fuel : ℕ) (sent r : ℤ) {c' : Context}
      → c.module_state ≢ initialized
      → mqtt_if_deinit fuel sent c ≡ ok r c'
      → Calm c c'
  unsubscribe_refused :
      (fuel : ℕ) (topic : List ℕ) (k : ℕ) (r : ℤ) {c' : Context}
      → mqtt_if_unsubscribe fuel topic (negsuc k) c ≡ ok r c'
      → Calm c c'
  library_calls :
      (e : LibraryEvent) (sent : ℤ) {c' : Context}
      → mqtt_client_callback e sent c ≡ ok tt c'
      → Calm c c'
  loop_ends : {c' : Context} → mqtt_context_thread c ≡ ok tt c' → Calm c c'
  reports_disconnect :
      (answer : List ℕ → ℤ) (fuel : ℕ) (on : Bool) {c' : Context}
      → app_thread_round answer fuel server_disconnect c ≡ ok on c'
      → Calm c c'
  reports_plain :
      (answer : List ℕ → ℤ) (fuel : ℕ) (e : Event) (on : Bool) {c' : Context}
      → IsPlain e
      → app_thread_round answer fuel e c ≡ ok on c'
      → Calm c c'
  app_thread_ends :
      (answer : List ℕ → ℤ) (fuel : ℕ) (on : Bool) {c' : Context}
      → app_thread_round answer fuel destroy c ≡ ok on c'
      → Calm c c'

-- A step, with the entries of the topic list before and after it. Of the answers only those are
-- left out that make the code lose its list, a broker that refuses a subscription, and filters that
-- the matching cannot answer.
pub data Step (c : Context) (es : List Entry) : Context → List Entry → Type 0 where
  calm : {c' : Context} → Calm c c' → Step c es c' es
  subscribes :
      (topic : List ℕ) (qos cb p k : ℕ) (r : ℤ) {c' : Context}
      → p ≢ 0
      → c.heap p ≡ none
      → c.module_state ≢ idle
      → mqtt_if_subscribe topic qos cb (some p) true (pos k) c ≡ ok r c'
      → Step c es c' (entry p topic qos cb ∷ es)
  subscribe_leaks :
      (topic : List ℕ) (qos cb p : ℕ) (answer r : ℤ) {c' : Context}
      → c.heap p ≡ none
      → mqtt_if_subscribe topic qos cb (some p) false answer c ≡ ok r c'
      → Step c es c' es
  unsubscribes :
      (fuel : ℕ) (topic : List ℕ) (k : ℕ) (r : ℤ) {c' : Context} {es' : List Entry}
      → c.module_state ≡ connected
      → Answers topic es
      → length es < fuel
      → mqtt_if_unsubscribe fuel topic (pos k) c ≡ ok r c'
      → es' ≡ (remove_first topic es).1
      → Step c es c' es'
  deinits :
      (fuel sent : ℕ) (r : ℤ) {c' : Context}
      → c.module_state ≡ initialized
      → length es < fuel
      → mqtt_if_deinit fuel (pos sent) c ≡ ok r c'
      → Step c es c' []
  receives :
      (answer : List ℕ → ℤ) (fuel : ℕ) (topic payload : List ℕ) (qos : ℕ) (on : Bool) {c' : Context}
      → Answers topic es
      → length es < fuel
      → app_thread_round answer fuel (recv topic payload qos) c ≡ ok on c'
      → Step c es c' es
  resubscribes :
      (answer : List ℕ → ℤ) (fuel : ℕ) (on : Bool) {c' : Context}
      → c.has_event_cb ≡ true
      → AllAccepted answer es
      → length es < fuel
      → app_thread_round answer fuel connack c ≡ ok on c'
      → Step c es c' es

pub data Reach (c : Context) (es : List Entry) : Context → List Entry → Type 0 where
  here : Reach c es c es
  later :
      {d d' : Context} {fs fs' : List Entry}
      → Reach c es d fs
      → Step d fs d' fs'
      → Reach c es d' fs'
