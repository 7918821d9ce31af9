-- ===== src/Mqtt/Client/Shutdown.antt =====
-- How a session ends.
use plhr_firmware.Common.{
  ℕ, ◌<◌, ◌≡◌, refl, ◌≢◌, ◌∙◌, true, false, some, none, List, [], ◌∷◌, ◌++◌, ℤ, pos, negsuc, length,
  arith,
}
use plhr_firmware.Mqtt.Context.{idle, initialized, connected, disconnect, Context, ok, bind_ok}
use plhr_firmware.Mqtt.Context.Chain.{Entry, Avoids}
use plhr_firmware.Mqtt.Session.{mqtt_if_disconnect, mqtt_if_deinit, minus_one}
use plhr_firmware.Mqtt.Session.Subscribing.{
  IsWell, AllFree, deinit_frees, entry, subscribe_offline, with_node-IsWell,
}
use plhr_firmware.Mqtt.Session.States.{disconnect-state, deinit_unsent}
use plhr_firmware.Mqtt.Client.{
  mqtt_context_thread, mqtt_client_disconnect, mqtt_subscribe, topic_1, cmd_zero_callback,
}

-- The context after a disconnection that succeeds.
abbrev pub parted : Context → Context
parted c = record c {
  module_state = initialized;
  mutex = some false;
  client_disconnect_flag = 1;
  calls = c.calls ++ disconnect ∷ [];
}

module _ (c : Context) (es : List Entry) (w : IsWell c es)
    (online : c.module_state ≡ connected) where
  -- On a connected module with a well-formed list shorter than the fuel, where the library and
  -- `mq_send` succeed, `mqtt_client_disconnect` returns 0, frees every node of the list and leaves
  -- an idle module with an empty list. Where only `mq_send` fails it returns -1, and the module is
  -- initialised with the same list.
  pub client_disconnect_frees :
      (fuel k j : ℕ)
      → length es < fuel
      → ((c' : Context) × (mqtt_client_disconnect fuel (pos k) (pos j) c ≡ ok (pos 0) c')
          × IsWell c' []
          × (c'.module_state ≡ idle)
          × AllFree c'.heap es
          × ((a : ℕ) → Avoids a es → c'.heap a ≡ c.heap a))
        × ((c' : Context) × (mqtt_client_disconnect fuel (pos k) (negsuc j) c ≡ ok minus_one c')
            × IsWell c' es
            × (c'.module_state ≡ initialized))
  unfolding mqtt_client_disconnect
  client_disconnect_frees fuel k j h =
      let first = (disconnect-state c w.ready k online).0 in
      let still : IsWell (parted c) es = record {
        chain = w.chain;
        distinct = w.distinct;
        ready = refl;
      } in
      let (c', runs, well, gone, queue, freed, others) =
        deinit_frees (parted c) es fuel j still refl h in
      (
        (
          c',
          bind_ok (mqtt_if_disconnect (pos k)) (λ _. mqtt_if_deinit fuel (pos j)) c (parted c)
                (pos k) first
              ∙ runs,
          well,
          gone,
          freed,
          others,
        ),
        (
          parted c,
          bind_ok (mqtt_if_disconnect (pos k)) (λ _. mqtt_if_deinit fuel (negsuc j)) c (parted c)
                (pos k) first
              ∙ deinit_unsent (parted c) refl fuel j refl,
          still,
          refl,
        ),
      )

-- The end of the library's thread puts the module back to the initialised state, with the mutex
-- free.
pub context_thread_ends :
    (c : Context)
    → c.mutex ≡ some false
    → mqtt_context_thread c ≡ ok tt (record c { module_state = initialized; mutex = some false })
unfolding mqtt_context_thread
context_thread_ends c ready = ground (arith, ready)

-- Before a connection, `mqtt_subscribe` puts the topic of the commands in front of the list and
-- asks nobody.
pub subscribe_commands :
    (c : Context) (es : List Entry) (p : ℕ) (answer : ℤ)
    → IsWell c es
    → c.module_state ≡ initialized
    → p ≢ 0
    → c.heap p ≡ none
    → (c' : Context) × (mqtt_subscribe (some p) true answer c ≡ ok (pos 0) c')
      × IsWell c' (entry p topic_1 0 cmd_zero_callback ∷ es)
      × (c'.calls ≡ c.calls)
      × (c'.callbacks ≡ c.callbacks)
      × (c'.module_state ≡ initialized)
unfolding mqtt_subscribe
subscribe_commands c es p answer w s nz free = (
  _,
  subscribe_offline c es w topic_1 0 cmd_zero_callback p answer s,
  with_node-IsWell c es w topic_1 0 cmd_zero_callback p c.calls nz free,
  refl,
  refl,
  s,
)
