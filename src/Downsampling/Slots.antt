-- ===== src/Downsampling/Slots.antt =====
-- Which buffer of the message memory a round of `thread_downsampling` writes, and that it writes no
-- other.
use plhr_firmware.Common.{
  ℕ, suc, ◌<◌, ◌≡◌, ◌≢◌, ◌⊎◌, inl, inr, refl, ap, sym, ◌∙◌, List, length, get_or, set, length-set,
  get_or-set_self, get_or-set_ne, arith, ℕ_discrete, replicate, zero,
}
use plhr_firmware.Messages.{DataBuffer, MsgData, zero_buffer, zero_message, zero_messages}
use plhr_firmware.Downsampling.{modify_message, modify_buffer}

abbrev pub message_at : List MsgData → ℕ → MsgData
message_at ms m = get_or ms m zero_message

abbrev pub buffer_at : List MsgData → ℕ → ℕ → DataBuffer
buffer_at ms m j = get_or (message_at ms m).buffers j zero_buffer

-- Ten messages of 78 buffers of 150 bytes.
pub record IsShaped (ms : List MsgData) : Type 0 where
  pub messages : length ms ≡ 10
  pub buffers : (m : ℕ) → m < 10 → length (message_at ms m).buffers ≡ 78
  pub bytes : (m j : ℕ) → m < 10 → j < 78 → length (buffer_at ms m j).bytes ≡ 150

get_or-replicate {ℓ} : {A : Type ℓ} (n i : ℕ) (a : A) → get_or (replicate n a) i a ≡ a
get_or-replicate zero i a = refl
get_or-replicate (suc n) zero a = refl
get_or-replicate (suc n) (suc i) a = get_or-replicate n i a

pub zero_messages-IsShaped : IsShaped zero_messages
zero_messages-IsShaped = record {
  messages = refl;
  buffers = λ m _. rw (get_or-replicate 10 m zero_message);
  bytes = λ m j _ _. rw (get_or-replicate 10 m zero_message, get_or-replicate 78 j zero_buffer);
}

pub message_at-modify :
    (ms : List MsgData) (n m : ℕ) (f : MsgData → MsgData)
    → n < length ms
    → ((m ≡ n) × (message_at (modify_message n f ms) m ≡ f (message_at ms n)))
      ⊎ ((m ≢ n) × (message_at (modify_message n f ms) m ≡ message_at ms m))
message_at-modify ms n m f h = elim (ℕ_discrete m n) [
  | yes e ↦ inl (e, rw e (get_or-set_self ms n (f (message_at ms n)) zero_message h))
  | no ne ↦ inr (ne, get_or-set_ne ms n m (f (message_at ms n)) zero_message (λ e. ne (sym e)))
]

-- What the write keeps of a message, it keeps of all.
pub modify-keeps {ℓ} :
    {A : Type ℓ} (g : MsgData → A) (f : MsgData → MsgData)
    → ((x : MsgData) → g (f x) ≡ g x)
    → (ms : List MsgData) (n m : ℕ) → n < length ms
    → g (message_at (modify_message n f ms) m) ≡ g (message_at ms m)
modify-keeps g f same ms n m h = elim (message_at-modify ms n m f h) [
  | inl (e, w) ↦ rw w (rw e (same (message_at ms n)))
  | inr (_, w) ↦ ap g w
]

-- A write to message `n` that keeps the array of its buffers.
module _ (ms : List MsgData) (v : IsShaped ms) (n : ℕ) (hn : n < 10) (f : MsgData → MsgData) where
  pub header-buffers :
      ((x : MsgData) → (f x).buffers ≡ x.buffers)
      → (m : ℕ) → (message_at (modify_message n f ms) m).buffers ≡ (message_at ms m).buffers
  header-buffers same m = modify-keeps (λ x. x.buffers) f same ms n m (omega (arith, v.messages))

  pub header-IsShaped :
      ((x : MsgData) → (f x).buffers ≡ x.buffers) → IsShaped (modify_message n f ms)
  header-IsShaped same = record {
    messages = length-set ms n (f (message_at ms n)) ∙ v.messages;
    buffers = λ m hm. rw (header-buffers same m) (v.buffers m hm);
    bytes = λ m j hm hj. rw (header-buffers same m) (v.bytes m j hm hj);
  }

-- A write to buffer `j` of message `n`, and to its header.
module _ (ms : List MsgData) (v : IsShaped ms) (n j : ℕ) (hn : n < 10) (hj : j < 78)
    (h : MsgData → MsgData) (same : (x : MsgData) → (h x).buffers ≡ x.buffers)
    (g : DataBuffer → DataBuffer) where
  abbrev written : List MsgData
  written = modify_message n (λ m. modify_buffer j g (h m)) ms

  buffers-written :
      (m : ℕ)
      → ((m ≡ n)
          × ((message_at written m).buffers
              ≡ set (message_at ms n).buffers j (g (buffer_at ms n j))))
        ⊎ ((m ≢ n) × ((message_at written m).buffers ≡ (message_at ms m).buffers))
  buffers-written m =
      elim (message_at-modify ms n m (λ x. modify_buffer j g (h x)) (omega (arith, v.messages))) [
        | inl (e, w) ↦ inl (e, rw (w, same (message_at ms n)) refl)
        | inr (ne, w) ↦ inr (ne, ap (λ (x : MsgData). x.buffers) w)
      ]

  pub buffer_at-written_self : buffer_at written n j ≡ g (buffer_at ms n j)
  buffer_at-written_self = elim (buffers-written n) [
    | inl (_, w) ↦ rw w (
        get_or-set_self (message_at ms n).buffers j (g (buffer_at ms n j)) zero_buffer
          (omega (arith, v.buffers n hn)))
    | inr (ne, _) ↦ absurd (ne refl)
  ]

  pub buffer_at-written_ne :
      (m i : ℕ) → (m ≢ n) ⊎ (i ≢ j) → buffer_at written m i ≡ buffer_at ms m i
  buffer_at-written_ne m i d = elim (buffers-written m) [
    | inl (e, w) ↦ rw w (elim d [
      | inl ne ↦ absurd (ne e)
      | inr ne ↦ rw e (
          get_or-set_ne (message_at ms n).buffers j i (g (buffer_at ms n j)) zero_buffer
            (λ e'. ne (sym e')))
    ])
    | inr (_, w) ↦ rw w refl
  ]

  pub written-IsShaped : length (g (buffer_at ms n j)).bytes ≡ 150 → IsShaped written
  written-IsShaped hg = record {
    messages = length-set ms n _ ∙ v.messages;
    buffers = λ m hm. elim (buffers-written m) [
      | inl (_, w) ↦
          rw (w, length-set (message_at ms n).buffers j (g (buffer_at ms n j))) (v.buffers n hn)
      | inr (_, w) ↦ rw w (v.buffers m hm)
    ];
    bytes = λ m i hm hi. elim (ℕ_discrete m n) [
      | yes e ↦ rw e (elim (ℕ_discrete i j) [
        | yes e' ↦ rw (e', buffer_at-written_self) hg
        | no ne ↦ rw (buffer_at-written_ne n i (inr ne)) (v.bytes n i hn hi)
      ])
      | no ne ↦ rw (buffer_at-written_ne m i (inl ne)) (v.bytes m i hm hi)
    ];
  }
