-- ===== src/Mqtt/Session/States.antt =====
-- The module states of Core/mqtt_user.c: which operation is refused where, and where each one
-- leads.
use plhr_firmware.Common.{
  ℕ, suc, ◌≡◌, ◌≢◌, Bool, true, false, Option, some, List, [], ◌∷◌, ◌++◌, ℤ, pos, negsuc, arith,
  inl, inr,
}
use plhr_firmware.Mqtt.Context.{
  ModuleState-cases, idle, initialized, connected, create, connect, disconnect, Result, publish,
  Context, ok,
}
use plhr_firmware.Mqtt.Session.{
  InitAnswers, thread_code, ClientParams, mqtt_if_init, mqtt_if_deinit, mqtt_if_connect,
  mqtt_if_disconnect, mqtt_if_subscribe, mqtt_if_unsubscribe, mqtt_if_publish, minus_one,
  client_options,
}

-- What a refused operation comes to.
abbrev pub refused : Context → Result ℤ
refused c = ok minus_one (record c { mutex = some false })

pub init_refused :
    (c : Context) (a : InitAnswers) → c.module_state ≢ idle → mqtt_if_init a c ≡ ok minus_one c
unfolding mqtt_if_init
init_refused c a ne = elim (ModuleState-cases c.module_state) [
  | inl s ↦ absurd (ne s)
  | inr (inl s) ↦ ground (arith, s)
  | inr (inr s) ↦ ground (arith, s)
]

module _ (c : Context) (ready : c.mutex ≡ some false) where
  pub deinit_refused :
      (fuel : ℕ) (x : ℤ) → c.module_state ≢ initialized → mqtt_if_deinit fuel x c ≡ refused c
  unfolding mqtt_if_deinit
  deinit_refused fuel x ne = elim (ModuleState-cases c.module_state) [
    | inl s ↦ ground (arith, s, ready)
    | inr (inl s) ↦ absurd (ne s)
    | inr (inr s) ↦ ground (arith, s, ready)
  ]

  unless_initialized :
      (fuel n : ℕ) (x : ℤ) (params : ClientParams) (created : Bool)
      → c.module_state ≢ initialized
      → (mqtt_if_deinit fuel x c ≡ refused c) × (mqtt_if_connect params created n x c ≡ refused c)
  unfolding mqtt_if_connect
  unless_initialized fuel n x params created ne = (
    deinit_refused fuel x ne,
    elim (ModuleState-cases c.module_state) [
      | inl s ↦ ground (arith, s, ready)
      | inr (inl s) ↦ absurd (ne s)
      | inr (inr s) ↦ ground (arith, s, ready)
    ],
  )

  pub deinit_unsent :
      (fuel j : ℕ) → c.module_state ≡ initialized → mqtt_if_deinit fuel (negsuc j) c ≡ refused c
  unfolding mqtt_if_deinit
  deinit_unsent fuel j s = ground (arith, s, ready)

  pub unless_connected :
      (fuel flags : ℕ) (x : ℤ) (topic payload : List ℕ)
      → c.module_state ≢ connected
      → (mqtt_if_disconnect x c ≡ refused c)
        × (mqtt_if_unsubscribe fuel topic x c ≡ refused c)
        × (mqtt_if_publish topic payload flags x c ≡ refused c)
  unfolding mqtt_if_disconnect mqtt_if_unsubscribe mqtt_if_publish
  unless_connected fuel flags x topic payload ne = elim (ModuleState-cases c.module_state) [
    | inl s ↦ (ground (arith, s, ready), ground (arith, s, ready), ground (arith, s, ready))
    | inr (inl s) ↦ (ground (arith, s, ready), ground (arith, s, ready), ground (arith, s, ready))
    | inr (inr s) ↦ absurd (ne s)
  ]

  -- From the initialised state, with a client and its thread, a connection that the library accepts
  -- returns 1 and leads to the connected state; one that it refuses returns its code and leaves the
  -- module initialised. Both note the event callback, and create a client, set its options and ask
  -- to connect, in this order.
  pub connect-state :
      (params : ClientParams) (k : ℕ)
      → c.module_state ≡ initialized
      → (mqtt_if_connect params true 0 (pos k) c
          ≡ ok (pos 1) (record c {
            module_state = connected;
            mutex = some false;
            has_event_cb = true;
            calls = ((c.calls ++ create ∷ []) ++ client_options params) ++ connect ∷ [];
          }))
        × (mqtt_if_connect params true 0 (negsuc k) c
            ≡ ok (negsuc k) (record c {
              mutex = some false;
              has_event_cb = true;
              calls = ((c.calls ++ create ∷ []) ++ client_options params) ++ connect ∷ [];
            }))
  unfolding mqtt_if_connect
  connect-state params k s = (ground (arith, s, ready), ground (arith, s, ready))

  -- A disconnection of a connected module raises the flag of a client's disconnect whatever the
  -- library answers; it leads back to the initialised state only where the library accepts it.
  pub disconnect-state :
      (k : ℕ)
      → c.module_state ≡ connected
      → (mqtt_if_disconnect (pos k) c
          ≡ ok (pos k) (record c {
            module_state = initialized;
            mutex = some false;
            client_disconnect_flag = 1;
            calls = c.calls ++ disconnect ∷ [];
          }))
        × (mqtt_if_disconnect (negsuc k) c
            ≡ ok (negsuc k) (record c {
              mutex = some false;
              client_disconnect_flag = 1;
              calls = c.calls ++ disconnect ∷ [];
            }))
  unfolding mqtt_if_disconnect
  disconnect-state k s = (ground (arith, s, ready), ground (arith, s, ready))

-- An operation that is refused returns -1 and leaves its context as it is, with the mutex free:
-- another initialisation of a module that is not idle; a deinitialisation or a connection unless it
-- is initialised; a disconnection, an unsubscription or a publication unless it is connected; a
-- subscription of an idle module.
refusals :
    (c d e f : Context)
    → d.mutex ≡ some false
    → e.mutex ≡ some false
    → f.mutex ≡ some false
    → c.module_state ≢ idle
    → d.module_state ≢ initialized
    → e.module_state ≢ connected
    → f.module_state ≡ idle
    → (fuel n qos cb : ℕ) (a : InitAnswers) (params : ClientParams) (created string : Bool) (x : ℤ)
      (topic payload : List ℕ) (place : Option ℕ)
    → (mqtt_if_init a c ≡ ok minus_one c)
      × ((mqtt_if_deinit fuel x d ≡ refused d) × (mqtt_if_connect params created n x d ≡ refused d))
      × ((mqtt_if_disconnect x e ≡ refused e)
          × (mqtt_if_unsubscribe fuel topic x e ≡ refused e)
          × (mqtt_if_publish topic payload n x e ≡ refused e))
      × (mqtt_if_subscribe topic qos cb place string x f ≡ refused f)
unfolding mqtt_if_subscribe
refusals c d e f rd re rf nc nd ne s fuel n qos cb a params created string x topic payload place = (
  init_refused c a nc,
  unless_initialized d rd fuel n x params created nd,
  unless_connected e re fuel n x topic payload ne,
  ground (arith, s, rf),
)

pub publish_lem :
    (c : Context) (topic payload : List ℕ) (flags : ℕ) (x : ℤ)
    → c.mutex ≡ some false
    → c.module_state ≡ connected
    → mqtt_if_publish topic payload flags x c
      ≡ ok x (record c { mutex = some false; calls = c.calls ++ publish topic payload flags ∷ [] })
unfolding mqtt_if_publish
publish_lem c topic payload flags x ready s = ground (arith, ready)

-- `MQTT_IF_Init` of an idle module, where the system gives it a mutex, a queue and a thread.
pub init_accepted :
    (c : Context) (a : InitAnswers) (k : ℕ)
    → c.module_state ≡ idle
    → a.allocated ≡ true
    → a.mutex_init ≡ 0
    → a.mq_open ≡ pos (suc k)
    → thread_code a ≡ 0
    → mqtt_if_init a c ≡ ok (pos 0) (record c { module_state = initialized; mutex = some false })
unfolding mqtt_if_init
init_accepted c a k s m i q t = ground (arith, s, m, i, q, t)
