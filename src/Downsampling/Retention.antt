-- ===== src/Downsampling/Retention.antt =====
-- What `thread_downsampling` leaves in the message memory: each buffer stays until the ring of ten
-- messages comes round to it.
use native.Mathlib.Numerals.{add-one}
use plhr_firmware.Common.{
  subst, ℕ, zero, suc, ◌+◌, ◌*◌, ◌/◌, ◌%◌, ◌^◌, ◌≤◌, ◌<◌, ◌≡◌, ◌≢◌, ◌⊎◌, inl, inr, refl, ap, ◌∙◌,
  List, length, get_or, arith, ℕ_discrete, Bool-cases, ◌==◌,
}
use plhr_firmware.Messages.{DataBuffer, MsgData, zero_buffer}
use plhr_firmware.Samples.{rate, pack_buffer, unpack_right, unpack_left, right_value, left_value}
use plhr_firmware.Samples.RoundTrip.{length-pack_buffer, unpack-pack_buffer}
use plhr_firmware.Downsampling.{
  Args, Shared, Dws, Input, start, take_time, synchronise, fill, advance, iteration, rounds,
}
use plhr_firmware.Downsampling.Cursor.{IsAt, synchronise-IsAt, rounds-IsAt}
use plhr_firmware.Downsampling.Slots.{
  buffer_at, IsShaped, zero_messages-IsShaped, header-buffers, header-IsShaped,
  buffer_at-written_self, buffer_at-written_ne, written-IsShaped,
}

-- `ms'` is well shaped and holds the same buffers as `ms`.
record Same (ms ms' : List MsgData) : Type 0 where
  shaped : IsShaped ms'
  same : (m j : ℕ) → buffer_at ms' m j ≡ buffer_at ms m j

-- `ms'` differs from `ms` in buffer `j` of message `n` alone, which is `b`.
record Wrote (n j : ℕ) (b : DataBuffer) (ms ms' : List MsgData) : Type 0 where
  shaped : IsShaped ms'
  slot : buffer_at ms' n j ≡ b
  others : (m i : ℕ) → (m ≢ n) ⊎ (i ≢ j) → buffer_at ms' m i ≡ buffer_at ms m i

module _ (to_nanoseconds : ℕ → ℕ) where
  take_time-Same :
      (i : Input) (d : Dws) (s : Shared)
      → d.n_msg < 10
      → IsShaped d.messages
      → Same d.messages (take_time to_nanoseconds i (d, s)).0.messages
  unfolding take_time
  take_time-Same i d s h v = record {
    shaped =
        header-IsShaped d.messages v d.n_msg h
          (λ m. record m { corr_buffer_id = d.data_buffer_count }) (λ _. refl);
    same = λ m j.
        ap (λ (bs : List DataBuffer). get_or bs j zero_buffer)
          (header-buffers d.messages v d.n_msg h
            (λ m. record m { corr_buffer_id = d.data_buffer_count }) (λ _. refl) m);
  }

  synchronise-Same :
      (i : Input) (d : Dws) (s : Shared)
      → d.n_msg < 10
      → IsShaped d.messages
      → Same d.messages (synchronise to_nanoseconds i (d, s)).0.messages
  unfolding synchronise
  synchronise-Same i d s h v = elim (Bool-cases (s.status_time_sync == 0)) [
    | inl e ↦ rw e (record { shaped = v; same = λ _ _. refl })
    | inr e ↦ rw e (take_time-Same i d s h v)
  ]

fill-Wrote :
    (a : Args) (i : Input) (d : Dws)
    → d.n_msg < 10
    → d.cnt_buffer_out < 78
    → IsShaped d.messages
    → Wrote d.n_msg d.cnt_buffer_out
        (record {
          buffer_id = d.data_buffer_count;
          bytes =
              pack_buffer i.memory d.base a.size_buffer_in
                (buffer_at d.messages d.n_msg d.cnt_buffer_out).bytes;
        })
        d.messages
        (fill a i d).messages
unfolding fill
fill-Wrote a i d hn hj v = record {
  shaped =
      written-IsShaped ms v n j hn hj head (λ _. refl) store
        (length-pack_buffer i.memory d.base a.size_buffer_in (buffer_at ms n j).bytes
          ∙ v.bytes n j hn hj);
  slot = buffer_at-written_self ms v n j hn hj head (λ _. refl) store;
  others = buffer_at-written_ne ms v n j hn hj head (λ _. refl) store;
}
  where
    open d use {messages as ms, n_msg as n, cnt_buffer_out as j}

    head : MsgData → MsgData
    head m = record m { corr_buffer_id = d.data_buffer_sync; rtc_value = d.time_synchro_us }

    store : DataBuffer → DataBuffer
    store b = record {
      buffer_id = d.data_buffer_count;
      bytes = pack_buffer i.memory d.base a.size_buffer_in b.bytes;
    }

-- The record that round `k` stores, over the bytes that were there.
abbrev stored : Args → Input → ℕ → List ℕ → DataBuffer
stored a i k old = record {
  buffer_id = k % 2 ^ 64;
  bytes = pack_buffer i.memory (k % a.dma_num_buffers * a.size_buffer_in) a.size_buffer_in old;
}

Same-Wrote :
    {ms ms' ms'' : List MsgData} {n j : ℕ} {b : DataBuffer}
    → Same ms ms'
    → Wrote n j b ms' ms''
    → Wrote n j b ms ms''
Same-Wrote p q = record {
  shaped = q.shaped;
  slot = q.slot;
  others = λ m i d. q.others m i d ∙ p.same m i;
}

module _ (to_nanoseconds : ℕ → ℕ) (a : Args) where
  iteration-Wrote :
      (i : Input) (n : ℕ) (d : Dws) (s : Shared)
      → IsAt a n d
      → IsShaped d.messages
      → Wrote
          (n / 78 % 10)
          (n % 78)
          (stored a i n (buffer_at d.messages (n / 78 % 10) (n % 78)).bytes)
          d.messages
          (iteration to_nanoseconds a i (d, s)).0.messages
  unfolding iteration advance
  iteration-Wrote i n d s at v =
      let d' = (synchronise to_nanoseconds i (d, s)).0 in
      let at' : IsAt a n d' = synchronise-IsAt to_nanoseconds a i n d s at in
      let p = synchronise-Same to_nanoseconds i d s (omega (arith, at.message)) v in
      let w = fill-Wrote a i d' (omega (arith, at'.message)) (omega (arith, at'.slot)) p.shaped in
      Same-Wrote p (rw (at'.message, at'.slot, at'.count, at'.pointer, p.same) at w)

-- Buffer `b` has the number of round `k`, and unpacks to the averages of that round's DMA buffer.
pub record Holds (a : Args) (i : Input) (k : ℕ) (b : DataBuffer) : Type 0 where
  pub number : b.buffer_id ≡ k % 2 ^ 64
  pub right :
      (index : ℕ)
      → index < a.size_buffer_in / (rate * 2)
      → unpack_right (λ q. get_or b.bytes q 0) (index * 3)
        ≡ right_value i.memory (k % a.dma_num_buffers * a.size_buffer_in) index
  pub left :
      (index : ℕ)
      → index < a.size_buffer_in / (rate * 2)
      → unpack_left (λ q. get_or b.bytes q 0) (index * 3)
        ≡ left_value i.memory (k % a.dma_num_buffers * a.size_buffer_in) index

stored-Holds :
    (a : Args) (i : Input) (k : ℕ) (old : List ℕ)
    → a.size_buffer_in / (rate * 2) * 3 ≤ length old
    → Holds a i k (stored a i k old)
stored-Holds a i k old h = record {
  number = refl;
  right = λ index p. (unpack-pack_buffer i.memory base a.size_buffer_in index old h p).0;
  left = λ index p. (unpack-pack_buffer i.memory base a.size_buffer_in index old h p).1;
}
  where
    base : ℕ
    base = k % a.dma_num_buffers * a.size_buffer_in

other_slot : (n k : ℕ) → k < n → n < k + 780 → (k / 78 % 10 ≢ n / 78 % 10) ⊎ (k % 78 ≢ n % 78)
other_slot n k h h' = elim (ℕ_discrete (k % 78) (n % 78)) [
  | yes e ↦ inl (omega arith)
  | no ne ↦ inr ne
]

-- After `n` rounds the memory holds, in its slot, the buffer of each of the last 780 rounds.
pub record Retains (a : Args) (inputs : ℕ → Input) (n : ℕ) (ms : List MsgData) : Type 0 where
  pub shaped : IsShaped ms
  pub kept :
      (k : ℕ) → k < n → n ≤ k + 780 → Holds a (inputs k) k (buffer_at ms (k / 78 % 10) (k % 78))

pub start-Retains : (a : Args) (inputs : ℕ → Input) → Retains a inputs 0 start.messages
unfolding start
start-Retains a inputs = record {
  shaped = zero_messages-IsShaped;
  kept = λ k h _. absurd (omega arith);
}

module _ (to_nanoseconds : ℕ → ℕ) (a : Args) (inputs : ℕ → Input)
    (room : a.size_buffer_in / (rate * 2) * 3 ≤ 150) where
  pub iteration-Retains :
      (n : ℕ) (d : Dws) (s : Shared)
      → IsAt a n d
      → Retains a inputs n d.messages
      → Retains a inputs (n + 1) (iteration to_nanoseconds a (inputs n) (d, s)).0.messages
  iteration-Retains n d s at r =
      let w = iteration-Wrote to_nanoseconds a (inputs n) n d s at r.shaped in
      record {
        shaped = w.shaped;
        kept = λ k h h'. elim (ℕ_discrete k n) [
          | yes e ↦
              rw (e, w.slot)
                (stored-Holds a (inputs n) n _
                  (rw (r.shaped.bytes (n / 78 % 10) (n % 78) (omega arith) (omega arith)) room))
          | no ne ↦
              rw (w.others _ _ (other_slot n k (omega arith) (omega arith)))
                (r.kept k (omega arith) (omega arith))
        ];
      }

module _ (to_nanoseconds : ℕ → ℕ) (a : Args) (inputs : ℕ → Input) (others : ℕ → Shared → Shared)
    (s : Shared) (dma : 0 < a.dma_num_buffers) where
  rounds-Retains :
      a.size_buffer_in / (rate * 2) * 3 ≤ 150
      → (n : ℕ) → Retains a inputs n (rounds to_nanoseconds a inputs others n (start, s)).0.messages
  unfolding rounds
  rounds-Retains room zero = start-Retains a inputs
  rounds-Retains room (suc n) =
      let (d, s') = rounds to_nanoseconds a inputs others n (start, s) in
      subst
        (λ k.
          Retains a inputs k (iteration to_nanoseconds a (inputs n) (d, others n s')).0.messages)
        (add-one n)
        (iteration-Retains to_nanoseconds a inputs room n d (others n s')
          (rounds-IsAt to_nanoseconds a inputs others s n dma) (rounds-Retains room n))

  -- The buffer of round `k` is in slot `k % 78` of message `k / 78 % 10` from then on, for 780
  -- rounds: it has the number of the round, and what the receiver unpacks from it are the averages
  -- over that round's DMA buffer. (A buffer must have room for three bytes for each sixteen
  -- samples.)
  pub buffer_retained :
      a.size_buffer_in / (rate * 2) * 3 ≤ 150
      → (n k : ℕ) → k < n
      → n ≤ k + 780
      → Holds a (inputs k) k (
          buffer_at
            (rounds to_nanoseconds a inputs others n (start, s)).0.messages
            (k / 78 % 10)
            (k % 78))
  buffer_retained room n k h h' = (rounds-Retains room n).kept k h h'
