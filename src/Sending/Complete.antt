-- ===== src/Sending/Complete.antt =====
-- What `send_data` publishes beside what `thread_downsampling` fills.
use plhr_firmware.Common.{
  ℕ, suc, ◌+◌, ◌*◌, ◌/◌, ◌%◌, ◌≤◌, ◌<◌, ◌≡◌, sym, ap, subst, ◌∙◌, List, [], ◌∷◌, length, get_or,
  get_or-append_right, arith, ℤ,
}
use plhr_firmware.Messages.{MsgData, zero_message, zero_buffer}
use plhr_firmware.Samples.{rate}
use plhr_firmware.Downsampling.{Args, Shared, Input, start, rounds}
use plhr_firmware.Downsampling.Slots.{buffer_at}
use plhr_firmware.Downsampling.Retention.{Holds, buffer_retained}
use plhr_firmware.Sending.{first_message, publish_message}
use plhr_firmware.Sending.Order.{sends, sends-IsAt}

-- The message of publication `j`.
abbrev pub message_of : (ℕ → ℤ) → (ℕ → List MsgData) → ℕ → MsgData
message_of answers memory j =
    get_or (sends answers memory (suc j) first_message).published j zero_message

message_of_lem :
    (answers : ℕ → ℤ) (memory : ℕ → List MsgData) (j : ℕ)
    → message_of answers memory j ≡ get_or (memory j) (j % 10) zero_message
unfolding sends publish_message
message_of_lem answers memory j =
    let s = sends answers memory j first_message in
    let at = sends-IsAt answers memory j in
    let last : length s.published + 0 ≡ j = omega (arith, at.count) in
    ap (λ (k : ℕ). get_or (sends answers memory (suc j) first_message).published k zero_message)
      (sym last)
    ∙ get_or-append_right s.published (get_or (memory j) s.n_msg zero_message ∷ []) 0 zero_message
    ∙ ap (λ (k : ℕ). get_or (memory j) k zero_message) at.index

module _ (to_nanoseconds : ℕ → ℕ) (a : Args) (inputs : ℕ → Input) (others : ℕ → Shared → Shared)
    (s : Shared) (dma : 0 < a.dma_num_buffers) where
  -- If the downsampling thread has filled message `j` of the stream, and has not come round the
  -- ring of ten messages to it again, when the sender makes its publication `j`, then the published
  -- message has the 78 buffers of the rounds `78 * j` to `78 * j + 77`, in order, each with its
  -- number, and each unpacks to the averages of its round's DMA buffer. (The other thread's buffers
  -- are in the memory as it left them after `n` rounds, and a buffer must have room for three bytes
  -- for each sixteen samples.)
  pub message_complete :
      (answers : ℕ → ℤ) (memory : ℕ → List MsgData) (n j : ℕ)
      → a.size_buffer_in / (rate * 2) * 3 ≤ 150
      → ((m i : ℕ)
          → buffer_at (memory j) m i
            ≡ buffer_at (rounds to_nanoseconds a inputs others n (start, s)).0.messages m i)
      → 78 * j + 78 ≤ n
      → n ≤ 78 * j + 780
      → (i : ℕ) → i < 78
      → Holds a
          (inputs (78 * j + i))
          (78 * j + i)
          (get_or (message_of answers memory j).buffers i zero_buffer)
  message_complete answers memory n j room same filled ahead i hi =
      let k = 78 * j + i in
      let slot : k % 78 ≡ i = omega arith in
      let message : k / 78 % 10 ≡ j % 10 = omega arith in
      let kept =
        buffer_retained to_nanoseconds a inputs others s dma room n k (omega arith) (omega arith) in
      subst (Holds a (inputs k) k)
        (ap
            (λ (q : ℕ).
              buffer_at (rounds to_nanoseconds a inputs others n (start, s)).0.messages q (k % 78))
            message
          ∙ ap
              (λ (q : ℕ).
                buffer_at (rounds to_nanoseconds a inputs others n (start, s)).0.messages (j % 10)
                  q)
              slot
          ∙ sym (same (j % 10) i)
          ∙ ap (λ (x : MsgData). get_or x.buffers i zero_buffer)
              (sym (message_of_lem answers memory j)))
        kept
