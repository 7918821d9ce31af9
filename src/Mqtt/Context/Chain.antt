-- ===== src/Mqtt/Context/Chain.antt =====
-- The topic list in the heap: a chain of nodes at distinct addresses.
use plhr_firmware.Common.{ℕ, ◌≡◌, ap, ◌≢◌, ◌∙◌, Option, none, some, List, [], ◌∷◌, ==_ne, ==_refl}
use plhr_firmware.Mqtt.Context.{Node, Heap, update}

-- A subscription and where its node lies.
pub record Entry : Type 0 where
  pub address : ℕ
  pub topic : List ℕ
  pub qos : ℕ
  pub callback : ℕ

abbrev pub node_of : Entry → ℕ → Node
node_of e q = record { topic = e.topic; qos = e.qos; callback = e.callback; next = q }

-- `p` points to the nodes of the entries, in order, and the last `next` is null.
abbrev pub Chain : Heap → ℕ → List Entry → Type 0
Chain h p [] = p ≡ 0
Chain h p (e ∷ es) =
    (p ≡ e.address)
    × (e.address ≢ 0)
    × ((q : ℕ) × (h e.address ≡ some (node_of e q)) × Chain h q es)

-- No entry lies at `a`.
abbrev pub Avoids : ℕ → List Entry → Type 0
Avoids a [] = Unit {0}
Avoids a (e ∷ es) = (e.address ≢ a) × Avoids a es

abbrev pub AreDistinct : List Entry → Type 0
AreDistinct [] = Unit {0}
AreDistinct (e ∷ es) = Avoids e.address es × AreDistinct es

pub update_self : (h : Heap) (a : ℕ) (v : Option Node) → update h a v a ≡ v
update_self h a v = rw (==_refl a)

pub update_ne : (h : Heap) (a b : ℕ) (v : Option Node) → b ≢ a → update h a v b ≡ h b
update_ne h a b v ne = rw (==_ne b a ne)

-- Two heaps agree on the nodes of a chain.
abbrev pub AgreeOn : Heap → Heap → List Entry → Type 0
AgreeOn h h' [] = Unit {0}
AgreeOn h h' (e ∷ es) = (h' e.address ≡ h e.address) × AgreeOn h h' es

pub Chain-agree :
    (h h' : Heap) (p : ℕ) (es : List Entry) → AgreeOn h h' es → Chain h p es → Chain h' p es
Chain-agree h h' p [] g c = c
Chain-agree h h' p (e ∷ es) g (at, nz, (q, cell, rest)) =
    (at, nz, (q, g.0 ∙ cell, Chain-agree h h' q es g.1 rest))

-- An address without a node is no address of the chain.
pub Chain-Avoids : (h : Heap) (p a : ℕ) (es : List Entry) → h a ≡ none → Chain h p es → Avoids a es
Chain-Avoids h p a [] n c = tt
Chain-Avoids h p a (e ∷ es) n (at, nz, (q, cell, rest)) =
    (λ same. let there : h e.address ≡ h a = ap h same in cc, Chain-Avoids h q a es n rest)

pub Avoids-update :
    (h : Heap) (a : ℕ) (v : Option Node) (es : List Entry)
    → Avoids a es
    → AgreeOn h (update h a v) es
Avoids-update h a v [] av = tt
Avoids-update h a v (e ∷ es) av = (update_ne h a e.address v av.0, Avoids-update h a v es av.1)
