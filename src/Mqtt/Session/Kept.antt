-- ===== src/Mqtt/Session/Kept.antt =====
-- The `MQTT_IF_` operations that leave the topic list of Core/mqtt_user.c alone, on all their
-- branches.
use plhr_firmware.Common.{
  ℕ, ◌≡◌, ◌≢◌, sym, ◌∙◌, Bool, false, Option, none, some, List, [], ℤ, negsuc, arith,
}
use plhr_firmware.Mqtt.Context.{idle, initialized, connected, Result, Context, ok}
use plhr_firmware.Mqtt.Session.States.{refused, deinit_refused, unless_connected}
use plhr_firmware.Mqtt.Session.{
  InitAnswers, ClientParams, mqtt_if_init, mqtt_if_deinit, mqtt_if_connect, mqtt_if_disconnect,
  mqtt_if_subscribe, mqtt_if_unsubscribe, mqtt_if_publish,
}

-- The topic list is as it was and the mutex is free.
pub record Kept (c c' : Context) : Type 0 where
  pub heap : c'.heap ≡ c.heap
  pub head : c'.head ≡ c.head
  pub ready : c'.mutex ≡ some false

module _ (c c' : Context) (ready : c.mutex ≡ some false) where
  pub publish-Kept :
      (topic payload : List ℕ) (flags : ℕ) (answer r : ℤ)
      → mqtt_if_publish topic payload flags answer c ≡ ok r c'
      → Kept c c'
  unfolding mqtt_if_publish
  publish-Kept topic payload flags answer r e = ground (arith, ready)

  pub disconnect-Kept : (answer r : ℤ) → mqtt_if_disconnect answer c ≡ ok r c' → Kept c c'
  unfolding mqtt_if_disconnect
  disconnect-Kept answer r e = ground (arith, ready)

  pub connect-Kept :
      (params : ClientParams) (created : Bool) (thread : ℕ) (answer r : ℤ)
      → mqtt_if_connect params created thread answer c ≡ ok r c'
      → Kept c c'
  unfolding mqtt_if_connect
  connect-Kept params created thread answer r e = ground (arith, ready)

  pub init-Kept : (a : InitAnswers) (r : ℤ) → mqtt_if_init a c ≡ ok r c' → Kept c c'
  unfolding mqtt_if_init
  init-Kept a r e = ground (arith, ready)

  pub deinit_fails-Kept :
      (fuel j : ℕ) (r : ℤ) → mqtt_if_deinit fuel (negsuc j) c ≡ ok r c' → Kept c c'
  unfolding mqtt_if_deinit
  deinit_fails-Kept fuel j r e = ground (arith, ready)

  pub subscribe_without_memory-Kept :
      (topic : List ℕ) (qos cb : ℕ) (string : Bool) (answer r : ℤ)
      → mqtt_if_subscribe topic qos cb none string answer c ≡ ok r c'
      → Kept c c'
  unfolding mqtt_if_subscribe
  subscribe_without_memory-Kept topic qos cb string answer r e = ground (arith, ready)

  pub subscribe_idle-Kept :
      (topic : List ℕ) (qos cb : ℕ) (place : Option ℕ) (string : Bool) (answer r : ℤ)
      → c.module_state ≡ idle
      → mqtt_if_subscribe topic qos cb place string answer c ≡ ok r c'
      → Kept c c'
  unfolding mqtt_if_subscribe
  subscribe_idle-Kept topic qos cb place string answer r s e = ground (arith, ready, s)

  -- An operation that is refused leaves its context as it is.
  refused-Kept : (r : ℤ) {m : Result ℤ} → m ≡ refused c → m ≡ ok r c' → Kept c c'
  refused-Kept r e runs = ground (arith, sym e ∙ runs)

  pub unsubscribe_offline-Kept :
      (fuel : ℕ) (topic : List ℕ) (answer r : ℤ)
      → c.module_state ≢ connected
      → mqtt_if_unsubscribe fuel topic answer c ≡ ok r c'
      → Kept c c'
  unsubscribe_offline-Kept fuel topic answer r ne =
      refused-Kept r (unless_connected c ready fuel 0 answer topic [] ne).1

  pub deinit_refused-Kept :
      (fuel : ℕ) (sent r : ℤ)
      → c.module_state ≢ initialized
      → mqtt_if_deinit fuel sent c ≡ ok r c'
      → Kept c c'
  deinit_refused-Kept fuel sent r ne = refused-Kept r (deinit_refused c ready fuel sent ne)

  pub unsubscribe_refused-Kept :
      (fuel : ℕ) (topic : List ℕ) (k : ℕ) (r : ℤ)
      → mqtt_if_unsubscribe fuel topic (negsuc k) c ≡ ok r c'
      → Kept c c'
  unfolding mqtt_if_unsubscribe
  unsubscribe_refused-Kept fuel topic k r e = ground (arith, ready)

  -- A subscription without memory for its string leaves its node behind, outside the list.
  pub subscribe_leaks :
      (topic : List ℕ) (qos cb p : ℕ) (answer r : ℤ)
      → mqtt_if_subscribe topic qos cb (some p) false answer c ≡ ok r c'
      → (c'.head ≡ c.head) × (c'.mutex ≡ some false) × ((a : ℕ) → a ≢ p → c'.heap a ≡ c.heap a)
  unfolding mqtt_if_subscribe
  subscribe_leaks topic qos cb p answer r e =
      (ground (arith, ready), ground (arith, ready), λ a ne. ground (arith, ready, ne))
