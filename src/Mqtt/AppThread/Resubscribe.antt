-- ===== src/Mqtt/AppThread/Resubscribe.antt =====
-- After a connection `MQTTAppThread` subscribes to the topics of its list again.
use plhr_firmware.Common.{
  append-nil, append_assoc, ℕ, zero, suc, ◌<◌, ◌≡◌, refl, ◌≢◌, ap, sym, ◌∙◌, true, false, none,
  some, List, [], ◌∷◌, ==_ne, ℤ, is_neg, length, arith, ◌++◌,
}
use plhr_firmware.Mqtt.Context.{
  connack, Node, Heap, update, ClientCall, subscribe, on_event, Context, ok, load, free, bind_ok,
  ◌>>=◌, ◌>>◌, pure,
}
use plhr_firmware.Mqtt.Context.Chain.{
  Entry, node_of, Chain, AreDistinct, Chain-agree, Avoids-update, update_self, update_ne,
}
use plhr_firmware.Mqtt.AppThread.{
  app_thread_round, resubscribe, drop_refused, bypass, after_refused,
}
use plhr_firmware.Mqtt.Session.Subscribing.{IsWell}

-- The broker accepts the topic of every entry.
abbrev pub AllAccepted : (List ℕ → ℤ) → List Entry → Type 0
AllAccepted answer [] = Unit {0}
AllAccepted answer (e ∷ es) = (is_neg (answer e.topic) ≡ false) × AllAccepted answer es

-- The calls that subscribe to the topics of the entries, in order.
abbrev pub subscriptions : List Entry → List ClientCall
subscriptions [] = []
subscriptions (e ∷ es) = subscribe e.topic ∷ subscriptions es

abbrev asked : List ℕ → Context → Context
asked topic c = record c { calls = c.calls ++ subscribe topic ∷ [] }

module _ (answer : List ℕ → ℤ) where
  step_accepted :
      (fuel prev p : ℕ) (n : Node) (c : Context)
      → p ≢ 0
      → c.heap p ≡ some n
      → is_neg (answer n.topic) ≡ false
      → resubscribe answer (suc fuel) prev p c ≡ resubscribe answer fuel p n.next (asked n.topic c)
  unfolding resubscribe
  step_accepted fuel prev zero n c nz there good = absurd (nz refl)
  step_accepted fuel prev (suc p) n c nz there good =
      bind_ok (load (suc p)) _ c c n (rw (there, load) refl) ∙ rw good refl

  step_refused :
      (fuel prev p : ℕ) (n : Node) (c : Context)
      → p ≢ 0
      → c.heap p ≡ some n
      → is_neg (answer n.topic) ≡ true
      → resubscribe answer (suc fuel) prev p c
        ≡ (drop_refused prev p n.next >>= resubscribe answer fuel prev) (asked n.topic c)
  unfolding resubscribe
  step_refused fuel prev zero n c nz there bad = absurd (nz refl)
  step_refused fuel prev (suc p) n c nz there bad =
      bind_ok (load (suc p)) _ c c n (rw (there, load) refl) ∙ rw bad refl

  resubscribe_lem :
      (fuel prev p : ℕ) (c : Context) (es : List Entry)
      → length es < fuel
      → Chain c.heap p es
      → AllAccepted answer es
      → resubscribe answer fuel prev p c ≡ ok tt (record c { calls = c.calls ++ subscriptions es })
  unfolding resubscribe
  resubscribe_lem zero prev p c es h ch good = absurd (omega arith)
  resubscribe_lem (suc fuel) prev zero c [] h ch good =
      ap (λ z. ok tt (record c { calls = z })) (sym (append-nil c.calls))
  resubscribe_lem (suc fuel) prev (suc p) c [] h ch good = absurd (omega arith)
  resubscribe_lem (suc fuel) prev p c (x ∷ es) h (at, nz, (q, there, rest)) good =
      step_accepted fuel prev p (node_of x q) c (λ z. nz (sym at ∙ z)) (ap c.heap at ∙ there) good.0
      ∙ resubscribe_lem fuel p q (asked x.topic c) es (omega arith) rest good.1
      ∙ ap (λ z. ok tt (record c { calls = z }))
          (append_assoc c.calls (subscribe x.topic ∷ []) (subscriptions es))

  -- On a well-formed list shorter than the fuel, whose topics the broker all accepts, a connection
  -- subscribes to every topic again, once and in the list's order, leaves the list as it is, and
  -- then tells the user of the connection.
  pub connack_resubscribes :
      (fuel : ℕ) (c : Context) (es : List Entry)
      → IsWell c es
      → c.has_event_cb ≡ true
      → length es < fuel
      → AllAccepted answer es
      → app_thread_round answer fuel connack c
        ≡ ok true (record c {
          mutex = some false;
          calls = c.calls ++ subscriptions es;
          callbacks = c.callbacks ++ on_event connack ∷ [];
        })
  unfolding app_thread_round
  connack_resubscribes fuel c es w cb h good =
      let c1 : Context = record c { mutex = some true } in
      let loop = resubscribe_lem fuel 0 c.head c1 es h w.chain good in ground (arith, w.ready, loop)

bypass_lem :
    (c : Context) (a : Entry) (next old : ℕ)
    → c.heap a.address ≡ some (node_of a old)
    → bypass false a.address next c
      ≡ ok tt (record c { heap = update c.heap a.address (some (node_of a next)) })
unfolding bypass
bypass_lem c a next old cell = ground (arith, cell)

after_lem :
    (c : Context) (p : ℕ) (n : Node)
    → p ≢ 0
    → c.heap p ≡ some n
    → after_refused false p c ≡ ok n.next c
unfolding after_refused
after_lem c zero n nz cell = absurd (nz refl)
after_lem c (suc p) n nz cell = bind_ok (load (suc p)) _ c c n (rw (cell, load) refl)

-- The removal of a refused node behind another, with a node after it.
drop_behind :
    (c : Context) (a x y : Entry) (q : ℕ)
    → c.heap a.address ≡ some (node_of a x.address)
    → c.heap x.address ≡ some (node_of x y.address)
    → c.heap y.address ≡ some (node_of y q)
    → y.address ≢ 0
    → x.address ≢ c.head
    → AreDistinct (a ∷ x ∷ y ∷ [])
    → drop_refused a.address x.address y.address c
      ≡ ok q (record c {
        heap = update (update c.heap a.address (some (node_of a y.address))) x.address none;
      })
unfolding drop_refused
drop_behind c a x y q at_a at_x at_y nz nh d =
    let h1 : Heap = update c.heap a.address (some (node_of a y.address)) in
    let c1 : Context = record c { heap = h1 } in
    let y1 : h1 y.address ≡ some (node_of y q) =
      update_ne c.heap a.address y.address _ (λ same. d.0.1.0 same) ∙ at_y in
    let x1 : h1 x.address ≡ some (node_of x y.address) =
      update_ne c.heap a.address x.address _ (λ same. d.0.0 same) ∙ at_x in
    rw (==_ne x.address c.head nh) (
      bind_ok (bypass false a.address y.address)
        (λ _. after_refused false y.address >>= λ on. free x.address >> pure on) c c1 tt
        (bypass_lem c a y.address x.address at_a)
      ∙ bind_ok (after_refused false y.address) (λ on. free x.address >> pure on) c1 c1 q
          (after_lem c1 y.address (node_of y q) nz y1)
      ∙ bind_ok (free x.address) (λ _. pure q) c1 _ tt (rw (x1, free) refl))

-- The heap without the refused entry `x` between `a` and `y`.
abbrev skipped : Context → Entry → Entry → Entry → Heap
skipped c a x y = update (update c.heap a.address (some (node_of a y.address))) x.address none

skipped-Chain :
    (c : Context) (a x y : Entry) (q : ℕ) (es : List Entry)
    → c.head ≡ a.address
    → a.address ≢ 0
    → c.heap y.address ≡ some (node_of y q)
    → y.address ≢ 0
    → Chain c.heap q es
    → AreDistinct (a ∷ x ∷ y ∷ es)
    → Chain (skipped c a x y) c.head (a ∷ y ∷ es)
skipped-Chain c a x y q es at nz at_y nz_y rest d =
    let h1 : Heap = update c.heap a.address (some (node_of a y.address)) in
    (
      at,
      nz,
      (
        y.address,
        update_ne h1 x.address a.address none (λ same. d.0.0 (sym same))
            ∙ update_self c.heap a.address (some (node_of a y.address)),
        (
          refl,
          nz_y,
          (
            q,
            update_ne h1 x.address y.address none (λ same. d.1.0.0 same)
                ∙ update_ne c.heap a.address y.address _ (λ same. d.0.1.0 same)
                ∙ at_y,
            Chain-agree h1 _ q es (Avoids-update h1 x.address none es d.1.0.1)
                (Chain-agree c.heap h1 q es (Avoids-update c.heap a.address _ es d.0.1.1) rest),
          ),
        ),
      ),
    )

skip_loop :
    (answer : List ℕ → ℤ) (fuel : ℕ) (c : Context) (a x y : Entry) (q : ℕ) (es : List Entry)
    → c.head ≡ a.address
    → a.address ≢ 0
    → c.heap a.address ≡ some (node_of a x.address)
    → x.address ≢ 0
    → c.heap x.address ≡ some (node_of x y.address)
    → y.address ≢ 0
    → c.heap y.address ≡ some (node_of y q)
    → Chain c.heap q es
    → AreDistinct (a ∷ x ∷ y ∷ es)
    → length es < fuel
    → is_neg (answer a.topic) ≡ false
    → is_neg (answer x.topic) ≡ true
    → AllAccepted answer es
    → resubscribe answer (suc (suc fuel)) 0 c.head c
      ≡ ok tt (record c {
        heap = skipped c a x y;
        calls = (c.calls ++ subscribe a.topic ∷ subscribe x.topic ∷ []) ++ subscriptions es;
      })
skip_loop answer fuel c a x y q es at nz at_a nz_x at_x nz_y at_y rest d h good bad all =
    let c1 = asked a.topic c in
    let c2 = asked x.topic c1 in
    let c3 : Context = record c2 { heap = skipped c a x y } in
    let h1 : Heap = update c.heap a.address (some (node_of a y.address)) in
    step_accepted answer (suc fuel) 0 c.head (node_of a x.address) c (λ z. nz (sym at ∙ z))
      (ap c.heap at ∙ at_a) good
    ∙ ap (λ p. resubscribe answer (suc fuel) p x.address c1) at
    ∙ step_refused answer fuel a.address x.address (node_of x y.address) c1 nz_x at_x bad
    ∙ bind_ok (drop_refused a.address x.address y.address) (resubscribe answer fuel a.address) c2 c3
        q
        (drop_behind c2 a x y q at_a at_x at_y nz_y (λ same. d.0.0 (same ∙ at))
          ((d.0.0, (d.0.1.0, tt)), ((d.1.0.0, tt), (tt, tt))))
    ∙ resubscribe_lem answer fuel a.address q c3 es h
        (Chain-agree h1 _ q es (Avoids-update h1 x.address none es d.1.0.1)
          (Chain-agree c.heap h1 q es (Avoids-update c.heap a.address _ es d.0.1.1) rest))
        all
    ∙ ap (λ z. ok tt (record c3 { calls = z ++ subscriptions es }))
        (append_assoc c.calls (subscribe a.topic ∷ []) (subscribe x.topic ∷ []))

-- Where the broker accepts the first topic, refuses the second and accepts those behind the third,
-- a connection on a well-formed list that the fuel suffices for takes the second entry out, and
-- never asks for the third, which stays in the list.
pub connack_skips :
    (answer : List ℕ → ℤ) (fuel : ℕ) (c : Context) (a x y : Entry) (es : List Entry)
    → IsWell c (a ∷ x ∷ y ∷ es)
    → c.has_event_cb ≡ true
    → suc (suc (suc (length es))) < fuel
    → is_neg (answer a.topic) ≡ false
    → is_neg (answer x.topic) ≡ true
    → AllAccepted answer es
    → (c' : Context) × (app_thread_round answer fuel connack c ≡ ok true c')
      × IsWell c' (a ∷ y ∷ es)
      × (c'.calls ≡ (c.calls ++ subscribe a.topic ∷ subscribe x.topic ∷ []) ++ subscriptions es)
unfolding app_thread_round
connack_skips answer zero c a x y es w cb h good bad all = absurd (omega arith)
connack_skips answer (suc zero) c a x y es w cb h good bad all = absurd (omega arith)
connack_skips answer (suc (suc fuel)) c a x y es w cb h good bad all =
    let (at, nz, (p1, at_a, (e1, nz_x, (p2, at_x, (e2, nz_y, (q, at_y, rest)))))) = w.chain in
    let c1 : Context = record c { mutex = some true } in
    let loop =
      skip_loop answer fuel c1 a x y q es at nz (at_a ∙ ap (λ p. some (node_of a p)) e1) nz_x
        (at_x ∙ ap (λ p. some (node_of x p)) e2) nz_y at_y rest w.distinct (omega arith) good bad
        all in
    (
      record c {
        heap = skipped c a x y;
        mutex = some false;
        calls = (c.calls ++ subscribe a.topic ∷ subscribe x.topic ∷ []) ++ subscriptions es;
        callbacks = c.callbacks ++ on_event connack ∷ [];
      },
      ground (arith, w.ready, loop),
      record {
        chain = skipped-Chain c a x y q es at nz at_y nz_y rest w.distinct;
        distinct = (w.distinct.0.1, w.distinct.1.1);
        ready = refl;
      },
      refl,
    )
