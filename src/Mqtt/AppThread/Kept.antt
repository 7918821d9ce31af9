-- ===== src/Mqtt/AppThread/Kept.antt =====
-- The rounds of `MQTTAppThread` and the library's callback that leave the topic list alone.
use plhr_firmware.Common.{ℕ, ◌≡◌, Bool, false, some, List, ℤ, arith}
use plhr_firmware.Mqtt.Context.{suback, puback, unsuback, server_disconnect, destroy, Context, ok}
use plhr_firmware.Mqtt.Session.Kept.{Kept}
use plhr_firmware.Mqtt.AppThread.{LibraryEvent, mqtt_client_callback, app_thread_round, take_flag}

module _ (c c' : Context) (ready : c.mutex ≡ some false) where
  pub library-Kept :
      (e : LibraryEvent) (sent : ℤ) → mqtt_client_callback e sent c ≡ ok tt c' → Kept c c'
  unfolding mqtt_client_callback
  library-Kept e sent h = ground (arith, ready)

  pub server_disconnect-Kept :
      (answer : List ℕ → ℤ) (fuel : ℕ) (on : Bool)
      → app_thread_round answer fuel server_disconnect c ≡ ok on c'
      → Kept c c'
  unfolding app_thread_round take_flag
  server_disconnect-Kept answer fuel on h = ground (arith, ready)

  pub suback-Kept :
      (answer : List ℕ → ℤ) (fuel : ℕ) (on : Bool)
      → app_thread_round answer fuel suback c ≡ ok on c'
      → Kept c c'
  unfolding app_thread_round
  suback-Kept answer fuel on h = ground (arith, ready)

  pub puback-Kept :
      (answer : List ℕ → ℤ) (fuel : ℕ) (on : Bool)
      → app_thread_round answer fuel puback c ≡ ok on c'
      → Kept c c'
  unfolding app_thread_round
  puback-Kept answer fuel on h = ground (arith, ready)

  pub unsuback-Kept :
      (answer : List ℕ → ℤ) (fuel : ℕ) (on : Bool)
      → app_thread_round answer fuel unsuback c ≡ ok on c'
      → Kept c c'
  unfolding app_thread_round
  unsuback-Kept answer fuel on h = ground (arith, ready)

  pub destroy-Kept :
      (answer : List ℕ → ℤ) (fuel : ℕ) (on : Bool)
      → app_thread_round answer fuel destroy c ≡ ok on c'
      → Kept c c'
  unfolding app_thread_round
  destroy-Kept answer fuel on h = ground (arith, ready)
