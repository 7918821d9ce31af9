-- ===== src/Mqtt/Session/Unlinking.antt =====
-- The loop of `MQTT_IF_Unsubscribe` behind an entry that stays.
use plhr_firmware.Common.{
  ℕ, zero, suc, ◌<◌, ◌≡◌, refl, ◌≢◌, ap, sym, subst, ◌∙◌, Bool, true, false, none, some, List, [],
  ◌∷◌, ◌==◌, ==_ne, ==_refl, length, arith, inl, inr,
}
use plhr_firmware.Mqtt.Topics.{Match, matched, unmatched, topic_matching}
use plhr_firmware.Mqtt.Context.{Heap, update, Context, Node, ok, bind_ok, pure, ◌>>◌, load, free}
use plhr_firmware.Mqtt.Context.Chain.{
  Entry, node_of, Chain, Avoids, AreDistinct, Chain-agree, Avoids-update, update_self, update_ne,
}
use plhr_firmware.Mqtt.Session.{unlink, remove_node, relink, on_match}
use plhr_firmware.Mqtt.Session.Entries.{Answers, remove_first, remove_first_hit, remove_first_miss}

-- What `unlink` does behind entry `e0`, with the list `es` from `curr` on: it comes to `r`.
pub record Unlinked (topic : List ℕ) (fuel curr : ℕ) (c : Context) (e0 : Entry) (es : List Entry)
    (r : Bool × List Entry) : Type 0 where
  pub heap : Heap
  pub runs : unlink topic fuel e0.address curr c ≡ ok r.0 (record c { heap = heap })
  pub next : ℕ
  pub cell : heap e0.address ≡ some (node_of e0 next)
  pub chain : Chain heap next r.1
  pub others : (a : ℕ) → Avoids a (e0 ∷ es) → heap a ≡ c.heap a

relink_behind :
    (c : Context) (prev next : ℕ) (m : Node)
    → c.heap prev ≡ some m
    → relink false prev next c
      ≡ ok tt (record c { heap = update c.heap prev (some (record m { next = next })) })
unfolding relink
relink_behind c prev next m cell = ground (arith, cell)

remove_behind :
    (c : Context) (prev curr next : ℕ) (m k : Node)
    → (curr == c.head) ≡ false
    → c.heap prev ≡ some m
    → update c.heap prev (some (record m { next = next })) curr ≡ some k
    → remove_node prev curr next c
      ≡ ok true (record c {
        heap = update (update c.heap prev (some (record m { next = next }))) curr none;
      })
unfolding remove_node
remove_behind c prev curr next m k nh cell there =
    let c1 : Context = record c { heap = update c.heap prev (some (record m { next = next })) } in
    rw nh (
      bind_ok (relink false prev next) (λ _. free curr >> pure true) c c1 tt
        (relink_behind c prev next m cell)
      ∙ bind_ok (free curr) (λ _. pure true) c1 _ tt (rw (there, free) refl))

pub remove_head :
    (c : Context) (prev next : ℕ) (k : Node)
    → c.heap c.head ≡ some k
    → remove_node prev c.head next c
      ≡ ok true (record c { head = next; heap = update c.heap c.head none })
unfolding remove_node relink
remove_head c prev next k there =
    let c1 : Context = record c { head = next } in
    rw (==_refl c.head) (bind_ok (free c.head) (λ _. pure true) c1 _ tt (rw (there, free) refl))

-- A step of the loop at a node.
pub unlink_step :
    (topic : List ℕ) (fuel prev p : ℕ) (n : Node) (c : Context) (o : Match)
    → p ≢ 0
    → c.heap p ≡ some n
    → topic_matching n.topic topic ≡ some o
    → unlink topic (suc fuel) prev p c
      ≡ on_match (some o) (remove_node prev p n.next) (unlink topic fuel p n.next) c
unfolding unlink
unlink_step topic fuel prev zero n c o nz there m = absurd (nz refl)
unlink_step topic fuel prev (suc p) n c o nz there m =
    bind_ok (load (suc p)) _ c c n (rw (there, load) refl)
    ∙ ap (λ v. on_match v (remove_node prev (suc p) n.next) (unlink topic fuel (suc p) n.next) c) m

module _ (topic : List ℕ) (fuel : ℕ) (c : Context) (e0 x : Entry) (es : List Entry) (q : ℕ) where
  abbrev bypassed : Heap
  bypassed = update c.heap e0.address (some (node_of e0 q))

  Unlinked-hit :
      c.heap e0.address ≡ some (node_of e0 x.address)
      → c.heap x.address ≡ some (node_of x q)
      → x.address ≢ 0
      → x.address ≢ c.head
      → Chain c.heap q es
      → AreDistinct (e0 ∷ x ∷ es)
      → topic_matching x.topic topic ≡ some matched
      → Unlinked topic (suc fuel) x.address c e0 (x ∷ es) (true, es)
  unfolding on_match
  Unlinked-hit here there nz nh rest d m = record {
    heap = update bypassed x.address none;
    runs =
        unlink_step topic fuel e0.address x.address (node_of x q) c matched nz there m
        ∙ remove_behind c e0.address x.address q (node_of e0 x.address) (node_of x q)
            (==_ne x.address c.head nh) here
            (update_ne c.heap e0.address x.address _ (λ same. d.0.0 same) ∙ there);
    next = q;
    cell =
        update_ne bypassed x.address e0.address none (λ same. d.0.0 (sym same))
        ∙ update_self c.heap e0.address (some (node_of e0 q));
    chain =
        Chain-agree bypassed _ q es (Avoids-update bypassed x.address none es d.1.0)
          (Chain-agree c.heap bypassed q es (Avoids-update c.heap e0.address _ es d.0.1) rest);
    others = λ a av.
        update_ne bypassed x.address a none (λ same. av.1.0 (sym same))
        ∙ update_ne c.heap e0.address a _ (λ same. av.0 (sym same));
  }

  Unlinked-miss :
      c.heap e0.address ≡ some (node_of e0 x.address)
      → c.heap x.address ≡ some (node_of x q)
      → x.address ≢ 0
      → AreDistinct (e0 ∷ x ∷ es)
      → topic_matching x.topic topic ≡ some unmatched
      → (r : Bool × List Entry) → Unlinked topic fuel q c x es r
      → Unlinked topic (suc fuel) x.address c e0 (x ∷ es) (r.0, x ∷ r.1)
  unfolding on_match
  Unlinked-miss here there nz d m r u = record {
    heap = u.heap;
    runs =
        unlink_step topic fuel e0.address x.address (node_of x q) c unmatched nz there m ∙ u.runs;
    next = x.address;
    cell = u.others e0.address (d.0.0, d.0.1) ∙ here;
    chain = (refl, nz, (u.next, u.cell, u.chain));
    others = λ a av. u.others a av.1;
  }

-- The loop behind an entry that stays.
pub unlinked :
    (topic : List ℕ) (fuel curr : ℕ) (c : Context) (e0 : Entry) (es : List Entry)
    → length es < fuel
    → c.heap e0.address ≡ some (node_of e0 curr)
    → Avoids c.head es
    → Chain c.heap curr es
    → AreDistinct (e0 ∷ es)
    → Answers topic es
    → Unlinked topic fuel curr c e0 es (remove_first topic es)
unfolding remove_first unlink
unlinked topic zero curr c e0 es h here av ch d an = absurd (omega arith)
unlinked topic (suc fuel) zero c e0 [] h here av ch d an = record {
  heap = c.heap;
  runs = refl;
  next = 0;
  cell = here;
  chain = refl;
  others = λ a _. refl;
}
unlinked topic (suc fuel) (suc p) c e0 [] h here av ch d an = absurd (omega arith)
unlinked topic (suc fuel) curr c e0 (x ∷ es) h here av (at, nz, (q, there, rest)) d an =
    let here' = here ∙ ap (λ a. some (node_of e0 a)) at in
    subst (λ a. Unlinked topic (suc fuel) a c e0 (x ∷ es) (remove_first topic (x ∷ es))) (sym at)
      (elim an.0 [
        | inl m ↦
            subst (Unlinked topic (suc fuel) x.address c e0 (x ∷ es))
              (sym (remove_first_hit topic x es m))
              (Unlinked-hit topic fuel c e0 x es q here' there nz av.0 rest d m)
        | inr m ↦
            subst (Unlinked topic (suc fuel) x.address c e0 (x ∷ es))
              (sym (remove_first_miss topic x es m))
              (Unlinked-miss topic fuel c e0 x es q here' there nz d m (remove_first topic es)
                (unlinked topic fuel q c x es (omega arith) there av.1 rest d.1 an.1))
      ])
