-- ===== src/Mqtt/Session/Subscribing.antt =====
-- `MQTT_IF_Subscribe` and `MQTT_IF_Deinit` on a well-formed topic list.
use plhr_firmware.Common.{
  inl, inr, if◌then◌else◌, subst, ℕ, zero, suc, ◌<◌, ◌≡◌, refl, ◌≢◌, ap, sym, ◌∙◌, true, false,
  none, some, List, [], ◌∷◌, ==_refl, ℤ, pos, negsuc, length, arith, ◌++◌,
}
use plhr_firmware.Mqtt.Context.{
  ModuleState, ModuleState-cases, idle, initialized, connected, destroy, Heap, update, ClientCall,
  subscribe, Context, ok, free,
}
use plhr_firmware.Mqtt.Context.Chain.{
  Entry, node_of, Chain, Avoids, AreDistinct, Chain-agree, Chain-Avoids, Avoids-update, update_self,
  update_ne,
}
use plhr_firmware.Mqtt.Session.{is_connected, mqtt_if_subscribe, mqtt_if_deinit, free_all}

-- The context's list is the entries, and no operation is under way.
pub record IsWell (c : Context) (es : List Entry) : Type 0 where
  pub chain : Chain c.heap c.head es
  pub distinct : AreDistinct es
  pub ready : c.mutex ≡ some false

-- The entry that a subscription makes.
abbrev pub entry : ℕ → List ℕ → ℕ → ℕ → Entry
entry p topic qos cb = record { address = p; topic = topic; qos = qos; callback = cb }

-- The context after a subscription that is kept.
abbrev pub with_node : ℕ → List ℕ → ℕ → ℕ → Context → Context
with_node p topic qos cb c = record c {
  heap =
      update (update c.heap p (some (record { topic = []; qos = 0; callback = 0; next = 0 }))) p
        (some (node_of (entry p topic qos cb) c.head));
  head = p;
  mutex = some false;
}

-- The other cells are as they were.
pub with_node_elsewhere :
    (p q : ℕ) (topic : List ℕ) (qos cb : ℕ) (c : Context)
    → q ≢ p
    → (with_node p topic qos cb c).heap q ≡ c.heap q
with_node_elsewhere p q topic qos cb c ne =
    let blank = some (record { topic = []; qos = 0; callback = 0; next = 0 }) in
    update_ne (update c.heap p blank) p q (some (node_of (entry p topic qos cb) c.head)) ne
    ∙ update_ne c.heap p q blank ne

module _ (c : Context) (es : List Entry) (w : IsWell c es) (topic : List ℕ) (qos cb p : ℕ) where
  -- A node at a free address in front of the list makes the list longer by its entry.
  pub with_node-IsWell :
      (cs : List ClientCall)
      → p ≢ 0
      → c.heap p ≡ none
      → IsWell (record (with_node p topic qos cb c) { calls = cs }) (entry p topic qos cb ∷ es)
  with_node-IsWell cs nz free = record {
    chain = (
      refl,
      nz,
      (c.head, update_self blank p (some (node_of (entry p topic qos cb) c.head)), tail),
    );
    distinct = (Chain-Avoids c.heap c.head p es free w.chain, w.distinct);
    ready = refl;
  }
    where
      blank : Heap
      blank = update c.heap p (some (record { topic = []; qos = 0; callback = 0; next = 0 }))

      tail : Chain (update blank p (some (node_of (entry p topic qos cb) c.head))) c.head es
      tail =
          let avoids = Chain-Avoids c.heap c.head p es free w.chain in
          Chain-agree blank _ c.head es (Avoids-update blank p _ es avoids)
            (Chain-agree c.heap blank c.head es (Avoids-update c.heap p _ es avoids) w.chain)

  pub subscribe_offline :
      (answer : ℤ)
      → c.module_state ≡ initialized
      → mqtt_if_subscribe topic qos cb (some p) true answer c
        ≡ ok (pos 0) (with_node p topic qos cb c)
  unfolding mqtt_if_subscribe
  subscribe_offline answer s = ground (arith, w.ready, ==_refl p)

  pub subscribe_accepted :
      (k : ℕ)
      → c.module_state ≡ connected
      → mqtt_if_subscribe topic qos cb (some p) true (pos k) c
        ≡ ok
            (pos k)
            (record (with_node p topic qos cb c) { calls = c.calls ++ subscribe topic ∷ [] })
  unfolding mqtt_if_subscribe
  subscribe_accepted k s = ground (arith, w.ready, ==_refl p)

  -- The context after a subscription that the broker refuses.
  abbrev refused : Context
  refused = record c {
    heap = update (with_node p topic qos cb c).heap p none;
    head = p;
    mutex = some false;
    calls = c.calls ++ subscribe topic ∷ [];
  }

  subscribe_refused :
      (k : ℕ)
      → c.module_state ≡ connected
      → mqtt_if_subscribe topic qos cb (some p) true (negsuc k) c ≡ ok (negsuc k) refused
  unfolding mqtt_if_subscribe
  subscribe_refused k s = ground (arith, w.ready, ==_refl p)

  -- With memory at a free address, a subscription that the broker does not refuse adds its entry in
  -- front of the topic list. The broker is asked, and its code returned, only while the module is
  -- connected; of an initialised module it returns 0.
  pub subscribe-IsWell :
      p ≢ 0
      → c.heap p ≡ none
      → (k : ℕ) → c.module_state ≢ idle
      → (c' : Context) × (mqtt_if_subscribe topic qos cb (some p) true (pos k) c
          ≡ ok (if is_connected c.module_state then pos k else pos 0) c')
        × IsWell c' (entry p topic qos cb ∷ es)
        × (c'.calls
            ≡ (if is_connected c.module_state then c.calls ++ subscribe topic ∷ [] else c.calls))
  subscribe-IsWell nz free k active = elim (ModuleState-cases c.module_state) [
    | inl s ↦ absurd (active s)
    | inr (inl s) ↦
        subst Kept (sym s) (_, subscribe_offline (pos k) s, with_node-IsWell c.calls nz free, refl)
    | inr (inr s) ↦ subst Kept (sym s) (
      _,
      subscribe_accepted k s,
      with_node-IsWell (c.calls ++ subscribe topic ∷ []) nz free,
      refl,
    )
  ]
    where
      Kept : ModuleState → Type 0
      Kept m =
          (c' : Context) × (mqtt_if_subscribe topic qos cb (some p) true (pos k) c
            ≡ ok (if is_connected m then pos k else pos 0) c')
          × IsWell c' (entry p topic qos cb ∷ es)
          × (c'.calls ≡ (if is_connected m then c.calls ++ subscribe topic ∷ [] else c.calls))

  -- Where the broker refuses a subscription, the head of the list is left at the node that was just
  -- freed: no list of entries lies behind it any more.
  pub subscribe_refused_dangles :
      (k : ℕ)
      → p ≢ 0
      → c.module_state ≡ connected
      → (c' : Context) × (mqtt_if_subscribe topic qos cb (some p) true (negsuc k) c
          ≡ ok (negsuc k) c')
        × (c'.head ≡ p)
        × (c'.heap p ≡ none)
        × ((es' : List Entry) → ¬ Chain c'.heap c'.head es')
  subscribe_refused_dangles k nz s =
      let freed : refused.heap p ≡ none = update_self (with_node p topic qos cb c).heap p none in
      (refused, subscribe_refused k s, refl, freed, no_list freed)
    where
      no_list : refused.heap p ≡ none → (es' : List Entry) → ¬ Chain refused.heap refused.head es'
      no_list freed [] e = nz e
      no_list freed (e ∷ es') (at, _, (q, cell, _)) =
          let there : refused.heap p ≡ refused.heap e.address = ap refused.heap at in cc

-- The heap after the nodes of a list are freed, in order.
abbrev pub freed : List Entry → Heap → Heap
freed [] h = h
freed (e ∷ es) h = freed es (update h e.address none)

free_all_lem :
    (fuel p : ℕ) (c : Context) (es : List Entry)
    → length es < fuel
    → c.head ≡ p
    → Chain c.heap p es
    → AreDistinct es
    → free_all fuel p c ≡ ok tt (record c { heap = freed es c.heap; head = 0 })
unfolding free_all
free_all_lem zero p c es h e ch d = absurd (omega arith)
free_all_lem (suc fuel) zero c [] h e ch d = λ i. ok tt (record c { head = e i })
free_all_lem (suc fuel) (suc p) c [] h e ch d = absurd (omega arith)
free_all_lem (suc fuel) zero c (x ∷ es) h e (at, nz, _) d = absurd (nz (sym at))
free_all_lem (suc fuel) (suc p) c (x ∷ es) h e (at, nz, (q, cell, rest)) d =
    let there : c.heap (suc p) ≡ some (node_of x q) = ap c.heap at ∙ cell in
    let avoids = subst (λ a. Avoids a es) (sym at) d.0 in
    let c1 : Context = record c { head = q; heap = update c.heap (suc p) none } in
    let ih =
      free_all_lem fuel q c1 es (omega arith) refl
        (Chain-agree c.heap c1.heap q es (Avoids-update c.heap (suc p) none es avoids) rest) d.1 in
    let step : free_all (suc fuel) (suc p) c ≡ free_all fuel q c1 = ground (arith, there) in
    step ∙ ih ∙ (λ i. ok tt (record c { heap = freed es (update c.heap (at i) none); head = 0 }))

freed-Avoids : (a : ℕ) (es : List Entry) (h : Heap) → Avoids a es → freed es h a ≡ h a
freed-Avoids a [] h av = refl
freed-Avoids a (e ∷ es) h av =
    freed-Avoids a es (update h e.address none) av.1
    ∙ update_ne h e.address a none (λ same. av.0 (sym same))

-- The cells of a list that is freed are free.
abbrev pub AllFree : Heap → List Entry → Type 0
AllFree h [] = Unit {0}
AllFree h (e ∷ es) = (h e.address ≡ none) × AllFree h es

freed-AllFree : (es : List Entry) (h : Heap) → AreDistinct es → AllFree (freed es h) es
freed-AllFree [] h d = tt
freed-AllFree (e ∷ es) h d = (
  freed-Avoids e.address es (update h e.address none) d.0 ∙ update_self h e.address none,
  freed-AllFree es (update h e.address none) d.1,
)

-- In the initialised state, with the destroy message sent, `MQTT_IF_Deinit` frees every node of the
-- list and no other cell, once each, and leaves an idle module with an empty list.
pub deinit_frees :
    (c : Context) (es : List Entry) (fuel sent : ℕ)
    → IsWell c es
    → c.module_state ≡ initialized
    → length es < fuel
    → (c' : Context) × (mqtt_if_deinit fuel (pos sent) c ≡ ok (pos 0) c')
      × IsWell c' []
      × (c'.module_state ≡ idle)
      × (c'.msg_queue ≡ c.msg_queue ++ destroy ∷ [])
      × AllFree c'.heap es
      × ((a : ℕ) → Avoids a es → c'.heap a ≡ c.heap a)
unfolding mqtt_if_deinit
deinit_frees c es fuel sent w s h = (
  record c {
    heap = freed es c.heap;
    head = 0;
    module_state = idle;
    mutex = some false;
    msg_queue = c.msg_queue ++ destroy ∷ [];
  },
  (let c1 : Context = record c { mutex = some true; msg_queue = c.msg_queue ++ destroy ∷ [] } in
      let loop = free_all_lem fuel c.head c1 es h refl w.chain w.distinct in
      ground (arith, w.ready)),
  record { chain = refl; distinct = tt; ready = refl },
  refl,
  refl,
  freed-AllFree es c.heap w.distinct,
  λ a av. freed-Avoids a es c.heap av,
)
