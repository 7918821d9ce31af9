-- ===== src/Mqtt/Context.antt =====
-- `mMQTTContext` of Core/mqtt_user.c with the heap of its topic list, and the primitive steps on
-- it.
pub mod Chain
use plhr_firmware.Common.{
  ◌⊎◌, inl, inr, ℕ, suc, ◌≡◌, refl, Bool, true, false, Option, none, some, List, [], ◌∷◌, ◌++◌,
  ◌==◌, if◌then◌else◌,
}

-- `moduleState`.
pub data ModuleState : Type 0 where
  idle initialized connected : ModuleState

pub ModuleState-cases : (s : ModuleState) → (s ≡ idle) ⊎ ((s ≡ initialized) ⊎ (s ≡ connected))
ModuleState-cases idle = inl refl
ModuleState-cases initialized = inr (inl refl)
ModuleState-cases connected = inr (inr refl)

-- The events of mqtt_user.h, and `MQTT_EVENT_RECV` with what comes with it.
pub data Event : Type 0 where
  connack suback puback unsuback server_disconnect client_disconnect destroy : Event
  recv : List ℕ → List ℕ → ℕ → Event

-- `struct Node`; a topic is a C string, a callback a number, and `next` a pointer, 0 for null.
pub record Node : Type 0 where
  pub topic : List ℕ
  pub qos : ℕ
  pub callback : ℕ
  pub next : ℕ

-- The cells of the nodes; a cell that was freed, or never allocated, is `none`.
abbrev pub Heap : Type 0
Heap = ℕ → Option Node

abbrev pub update : Heap → ℕ → Option Node → Heap
update h p v q = if q == p then v else h q

-- A call of the MQTT library.
pub data ClientCall : Type 0 where
  create set_will set_username set_password set_clean_connect set_keepalive connect disconnect :
      ClientCall
  subscribe : List ℕ → ClientCall
  unsubscribe : List ℕ → ClientCall
  publish : List ℕ → List ℕ → ℕ → ClientCall

-- A call of a function that the user registered: the event callback, or a topic's callback.
pub data Callback : Type 0 where
  on_event : Event → Callback
  on_topic : ℕ → List ℕ → List ℕ → ℕ → Callback

pub record Context : Type 0 where
  pub heap : Heap
  pub head : ℕ
  pub module_state : ModuleState
  pub client_disconnect_flag : ℕ
  pub msg_queue : List Event
  pub has_event_cb : Bool  -- eventCB is not null
  pub mutex : Option Bool  -- none before its creation, and whether it is locked
  pub bad_unlocks : ℕ  -- unlocks of a mutex that was not locked
  pub calls : List ClientCall
  pub callbacks : List Callback

-- The static initialiser of `mMQTTContext`.
abbrev pub initial : Context
initial = record {
  heap = λ _. none;
  head = 0;
  module_state = idle;
  client_disconnect_flag = 0;
  msg_queue = [];
  has_event_cb = false;
  mutex = none;
  bad_unlocks = 0;
  calls = [];
  callbacks = [];
}

-- What a step comes to: a value and the new context, an access through a bad pointer, an endless
-- loop of the source (`while (1);`), or the end of a model loop's fuel.
pub data Result {ℓ} (A : Type ℓ) : Type ℓ where
  ok : A → Context → Result A
  fault : Result A
  hang : Result A
  out_of_fuel : Result A

abbrev pub M {ℓ} : Type ℓ → Type ℓ
M A = Context → Result A

infixl 5 ◌>>=◌ ◌>>◌
abbrev pub ◌>>=◌ {ℓ κ} : {A : Type ℓ} {B : Type κ} → M A → (A → M B) → M B
◌>>=◌ m f c = elim (m c) [
  | ok a c' ↦ f a c'
  | fault ↦ fault
  | hang ↦ hang
  | out_of_fuel ↦ out_of_fuel
]

-- A step that is known to succeed is passed.
pub bind_ok {ℓ κ} :
    {A : Type ℓ} {B : Type κ} (m : M A) (f : A → M B) (c c' : Context) (a : A)
    → m c ≡ ok a c'
    → (m >>= f) c ≡ f a c'
bind_ok m f c c' a e = rw (e, ◌>>=◌) refl

-- Steps may be grouped in either way.
pub bind_assoc :
    {A B C : Type 0} (m : M A) (f : A → M B) (g : B → M C) (c : Context)
    → ((m >>= f) >>= g) c ≡ (m >>= λ a. f a >>= g) c
bind_assoc {A} {B} {C} m f g c = grouped (m c)
  where
    grouped :
        (r : Result A)
        → (elim (elim r as (λ _. Result B) [
          | ok a c' ↦ f a c'
          | fault ↦ fault
          | hang ↦ hang
          | out_of_fuel ↦ out_of_fuel
        ])
            as (λ _. Result C) [
              | ok b c' ↦ g b c'
              | fault ↦ fault
              | hang ↦ hang
              | out_of_fuel ↦ out_of_fuel
            ])
          ≡ (elim r as (λ _. Result C) [
            | ok a c' ↦ (f a >>= g) c'
            | fault ↦ fault
            | hang ↦ hang
            | out_of_fuel ↦ out_of_fuel
          ])
    grouped (ok a c') = refl
    grouped fault = refl
    grouped hang = refl
    grouped out_of_fuel = refl

abbrev pub ◌>>◌ {ℓ} : {B : Type ℓ} → M (Unit {0}) → M B → M B
m >> k = m >>= λ _. k

abbrev pub pure {ℓ} : {A : Type ℓ} → A → M A
pure a c = ok a c

abbrev pub modify : (Context → Context) → M (Unit {0})
modify f c = ok tt (f c)

abbrev pub get : M Context
get c = ok c c

-- `pthread_mutex_lock` and `pthread_mutex_unlock` on `moduleMutex`. No other thread holds it while
-- an operation runs, so a lock does not wait.
abbrev pub lock : M (Unit {0})
lock c = elim c.mutex [ none ↦ fault | some _ ↦ ok tt (record c { mutex = some true }) ]

abbrev pub unlock : M (Unit {0})
unlock c = elim c.mutex [
  | none ↦ fault
  | some true ↦ ok tt (record c { mutex = some false })
  | some false ↦ ok tt (record c { bad_unlocks = suc c.bad_unlocks })
]

abbrev pub load : ℕ → M Node
load p c = elim (c.heap p) [ none ↦ fault | some n ↦ ok n c ]

-- A write to a node that is there.
abbrev pub store : ℕ → Node → M (Unit {0})
store p n c = elim (c.heap p) [
  | none ↦ fault
  | some _ ↦ ok tt (record c { heap = update c.heap p (some n) })
]

-- `free` of a node, with that of its topic string.
abbrev pub free : ℕ → M (Unit {0})
free p c = elim (c.heap p) [
  | none ↦ fault
  | some _ ↦ ok tt (record c { heap = update c.heap p none })
]

abbrev pub call : ClientCall → M (Unit {0})
call k = modify λ c. record c { calls = c.calls ++ k ∷ [] }

-- A call of `eventCB`.
abbrev pub notify : Event → M (Unit {0})
notify e c = elim c.has_event_cb [
  | true ↦ ok tt (record c { callbacks = c.callbacks ++ on_event e ∷ [] })
  | false ↦ fault
]
