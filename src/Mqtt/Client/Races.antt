-- ===== src/Mqtt/Client/Races.antt =====
-- `MQTTContextThread` of Core/mqtt_user.c writes the module state when the library's loop has come
-- back. What a session comes to depends on when it does.
use plhr_firmware.Common.{ℕ, ◌<◌, ◌≡◌, refl, ◌∙◌, false, some, List, [], ℤ, pos, length, arith}
use plhr_firmware.Mqtt.Context.{initialized, connected, Context, ok, bind_ok, ◌>>=◌, ◌>>◌}
use plhr_firmware.Mqtt.Context.Chain.{Entry}
use plhr_firmware.Mqtt.Session.{
  InitAnswers, mqtt_if_disconnect, mqtt_if_deinit, mqtt_if_publish, minus_one,
}
use plhr_firmware.Mqtt.Session.Subscribing.{IsWell, deinit_frees}
use plhr_firmware.Mqtt.Session.States.{
  init_refused, init_accepted, unless_connected, disconnect-state,
}
use plhr_firmware.Mqtt.Client.{mqtt_context_thread, mqtt_init, mqtt_client_disconnect}
use plhr_firmware.Mqtt.Client.Shutdown.{parted, context_thread_ends, client_disconnect_frees}
use plhr_firmware.Mqtt.Client.Reconnection.{IsGiven}

-- The context after the end of the library's thread.
abbrev ended : Context → Context
ended c = record c { module_state = initialized; mutex = some false }

module _ (c : Context) (es : List Entry) (w : IsWell c es) (online : c.module_state ≡ connected)
    (init : InitAnswers) (given : IsGiven init) (fuel k j : ℕ) (short : length es < fuel) where
  -- The thread ends after `mqtt_client_disconnect` is through.
  late_end :
      (c' : Context) × ((mqtt_client_disconnect fuel (pos k) (pos j) >>= λ _.
      mqtt_context_thread >> mqtt_init init)
          c
        ≡ ok minus_one c')
      × (c'.module_state ≡ initialized)
  unfolding mqtt_init
  late_end =
      let ((c1, parts, w1, _, _, _), _) = client_disconnect_frees c es w online fuel k j short in
      (
        ended c1,
        bind_ok (mqtt_client_disconnect fuel (pos k) (pos j))
              (λ _. mqtt_context_thread >> mqtt_init init) c c1 (pos 0) parts
            ∙ bind_ok mqtt_context_thread (λ _. mqtt_init init) c1 (ended c1) tt
                (context_thread_ends c1 w1.ready)
            ∙ init_refused (ended c1) init (λ e. ground arith),
        refl,
      )

  -- It ends between the disconnection and the deinitialisation.
  early_end :
      (c' : Context) × ((mqtt_if_disconnect (pos k) >>= λ _.
      mqtt_context_thread >> (mqtt_if_deinit fuel (pos j) >>= λ _. mqtt_init init))
          c
        ≡ ok (pos 0) c')
      × (c'.module_state ≡ initialized)
      × IsWell c' []
  unfolding mqtt_init
  early_end =
      let (m, i, (n, q), t) = given in
      let c1 : Context = ended (parted c) in
      let w1 : IsWell c1 es = record { chain = w.chain; distinct = w.distinct; ready = refl } in
      let (c2, frees, w2, gone, _, _, _) = deinit_frees c1 es fuel j w1 refl short in
      (
        ended c2,
        bind_ok (mqtt_if_disconnect (pos k))
              (λ _. mqtt_context_thread >> (mqtt_if_deinit fuel (pos j) >>= λ _. mqtt_init init)) c
              (parted c) (pos k) (disconnect-state c w.ready k online).0
            ∙ bind_ok mqtt_context_thread (λ _. mqtt_if_deinit fuel (pos j) >>= λ _. mqtt_init init)
                (parted c) c1 tt (context_thread_ends (parted c) refl)
            ∙ bind_ok (mqtt_if_deinit fuel (pos j)) (λ _. mqtt_init init) c1 c2 (pos 0) frees
            ∙ init_accepted c2 init n gone m i q t,
        refl,
        record { chain = w2.chain; distinct = tt; ready = refl },
      )

  -- The end of the library's thread decides how a connected module begins a session again. Where
  -- the thread ends between the disconnection and the deinitialisation, the initialisation that
  -- follows returns 0, with an empty list. Where it ends behind `mqtt_client_disconnect`, it takes
  -- the idle module back to the initialised state, and the initialisation is refused with -1. And
  -- where it ends only in a later session, publications are refused with -1.
  pub context_thread_decides :
      (topic payload : List ℕ) (x : ℤ)
      → ((c' : Context) × ((mqtt_if_disconnect (pos k) >>= λ _.
                mqtt_context_thread >> (mqtt_if_deinit fuel (pos j) >>= λ _. mqtt_init init))
              c
            ≡ ok (pos 0) c')
          × (c'.module_state ≡ initialized)
          × IsWell c' [])
        × ((c' : Context) × ((mqtt_client_disconnect fuel (pos k) (pos j) >>= λ _.
                  mqtt_context_thread >> mqtt_init init)
                c
              ≡ ok minus_one c')
            × (c'.module_state ≡ initialized))
        × ((mqtt_context_thread >> mqtt_if_publish topic payload 0 x) c
            ≡ ok minus_one (record c { module_state = initialized; mutex = some false }))
  context_thread_decides topic payload x = (
    early_end,
    late_end,
    bind_ok mqtt_context_thread (λ _. mqtt_if_publish topic payload 0 x) c (ended c) tt
          (context_thread_ends c w.ready)
        ∙ (unless_connected (ended c) refl fuel 0 x topic payload (λ e. ground arith)).2,
  )
