-- ===== src/Pipeline/Received.antt =====
-- What a receiver reads in the messages that the sender has handed over.
use plhr_firmware.Common.{
  ℕ, zero, suc, ◌+◌, ◌*◌, ◌/◌, ◌%◌, ◌^◌, ◌≤◌, ◌<◌, ◌≡◌, refl, sym, ap, subst, ◌∙◌, some, List, [],
  ◌∷◌, ◌++◌, map, length, get_or, byte_at, word_at, long_at, quad_at, arith, ℤ,
}
use plhr_firmware.Messages.{MsgData, zero_buffer, zero_message}
use plhr_firmware.Messages.Wire.{msg_data_bytes, buffer_offset}
use plhr_firmware.Messages.Wire.Reading.{
  buffer_id-read, buffer_data-read, length-msg_data_bytes, headers-place,
}
use plhr_firmware.Samples.{rate, unpack_right, unpack_left, right_value, left_value}
use plhr_firmware.Samples.RoundTrip.{unpack_same}
use plhr_firmware.Downsampling.{Args, Shared, Input}
use plhr_firmware.Downsampling.Retention.{Holds}
use plhr_firmware.Sending.Headers.{Header}
use plhr_firmware.Sending.Transport.{Transport, send_all, send_all-delivers}
use plhr_firmware.Sending.Transport.OverMqtt.{over_mqtt, IsOnline, payloads}
use plhr_firmware.Mqtt.Context.{Context}
use plhr_firmware.Pipeline.{Pipe, created, Reach}
use plhr_firmware.Pipeline.Invariant.{IsComplete}
use plhr_firmware.Pipeline.Published.{published_messages}

-- At place `o` of a payload stands the buffer of round `k`: its number, and packed samples that
-- unpack to the averages of that round's DMA buffer.
pub record Carries (a : Args) (i : Input) (k : ℕ) (w : List ℕ) (o : ℕ) : Type 0 where
  pub number : quad_at w o ≡ k % 2 ^ 64
  pub right :
      (index : ℕ)
      → index < a.size_buffer_in / (rate * 2)
      → unpack_right (λ q. byte_at w (o + 8 + q)) (index * 3)
        ≡ right_value i.memory (k % a.dma_num_buffers * a.size_buffer_in) index
  pub left :
      (index : ℕ)
      → index < a.size_buffer_in / (rate * 2)
      → unpack_left (λ q. byte_at w (o + 8 + q)) (index * 3)
        ≡ left_value i.memory (k % a.dma_num_buffers * a.size_buffer_in) index

-- Payload `w`, handed over as number `j` after `n` rounds.
pub record IsReceived (a : Args) (inputs : ℕ → Input) (n j : ℕ) (w : List ℕ) : Type 0 where
  pub size : length w ≡ 12352
  pub op : byte_at w 1 ≡ 2
  pub msg_size : word_at w 2 ≡ 12352
  pub data_id : long_at w 4 ≡ j % 2 ^ 32
  pub buffer_size : word_at w 8 ≡ 158
  pub data_buffer_num : word_at w 10 ≡ 78
  pub buffers :
      (q i : ℕ)
      → i < 78
      → 780 * q + (78 * j + i) < n
      → n ≤ 780 * q + (78 * j + i) + 780
      → Carries a (inputs (780 * q + (78 * j + i))) (780 * q + (78 * j + i)) w (buffer_offset i)

module _ (a : Args) (room : a.size_buffer_in / (rate * 2) * 3 ≤ 150) where
  IsComplete-Carries :
      (inputs : ℕ → Input) (n j : ℕ) (m : MsgData) (c : IsComplete a inputs n j m) (k i : ℕ)
      → i < 78
      → Holds a (inputs k) k (get_or m.buffers i zero_buffer)
      → Carries a (inputs k) k (msg_data_bytes m) (buffer_offset i)
  IsComplete-Carries inputs n j m c k i hi h =
      let inside : i < length m.buffers = omega (arith, c.count) in
      let read = buffer_data-read m c.full i inside in
      let same = λ (index : ℕ) (short : index < a.size_buffer_in / (rate * 2)).
        unpack_same (λ q. byte_at (msg_data_bytes m) (buffer_offset i + 8 + q))
          (λ q. get_or (get_or m.buffers i zero_buffer).bytes q 0) (index * 3)
          (read (index * 3) (omega arith)) (read (index * 3 + 1) (omega arith))
          (read (index * 3 + 2) (omega arith)) in
      record {
        number = buffer_id-read m c.full i inside (omega (arith, h.number)) ∙ h.number;
        right = λ index short. (same index short).0 ∙ h.right index short;
        left = λ index short. (same index short).1 ∙ h.left index short;
      }

  IsComplete-IsReceived :
      (inputs : ℕ → Input) (n j : ℕ) (m : MsgData)
      → IsComplete a inputs n j m
      → IsReceived a inputs n j (msg_data_bytes m)
  IsComplete-IsReceived inputs n j m c =
      let (at_op, at_size, at_id, at_buffer, at_num) = headers-place m in
      let op : m.msg_op ≡ 2 = ap (λ (h : Header). h.msg_op) c.header in
      let size : m.msg_size ≡ 12352 = ap (λ (h : Header). h.msg_size) c.header in
      let number : m.data_id ≡ j % 2 ^ 32 = ap (λ (h : Header). h.data_id) c.header in
      let buffer : m.buffer_size ≡ 158 = ap (λ (h : Header). h.buffer_size) c.header in
      let many : m.data_buffer_num ≡ 78 = ap (λ (h : Header). h.data_buffer_num) c.header in
      record {
        size = length-msg_data_bytes m c.count c.full;
        op = omega (arith, at_op, op);
        msg_size = omega (arith, at_size, size);
        data_id = omega (arith, at_id, number);
        buffer_size = omega (arith, at_buffer, buffer);
        data_buffer_num = omega (arith, at_num, many);
        buffers = λ q i hi h h'.
            IsComplete-Carries inputs n j m c (780 * q + (78 * j + i)) i hi (c.buffers q i hi h h');
      }

length-map : (ms : List MsgData) → length (map msg_data_bytes ms) ≡ length ms
length-map [] = refl
length-map (m ∷ ms) = ap suc (length-map ms)

get_or-map :
    (ms : List MsgData) (j : ℕ)
    → j < length ms
    → get_or (map msg_data_bytes ms) j [] ≡ msg_data_bytes (get_or ms j zero_message)
get_or-map [] j h = absurd (omega arith)
get_or-map (m ∷ ms) zero h = refl
get_or-map (m ∷ ms) (suc j) h = get_or-map ms j (omega arith)

module _ (to_nanoseconds : ℕ → ℕ) (a : Args) (inputs : ℕ → Input)
    (room : a.size_buffer_in / (rate * 2) * 3 ≤ 150) (s : Shared) (p : Pipe)
    (dma : 0 < a.dma_num_buffers) (reach : Reach to_nanoseconds a inputs (created s) p) where
  -- Any transport that is ready and has delivered nothing delivers what the sender has published up
  -- to any moment of any interleaving, one payload for each message, each with the fields and the
  -- samples of its message.
  pub messages_arrive :
      (t : Transport) (first : t.State)
      → t.IsReady first
      → t.delivered first ≡ []
      → (last : t.State) × (send_all t p.sender.published first ≡ some last)
        × (length (t.delivered last) ≡ length p.sender.published)
        × ((j : ℕ)
            → j < length p.sender.published
            → IsReceived a inputs (get_or p.rounds_at j 0) j (get_or (t.delivered last) j []))
  messages_arrive t first ready nothing =
      let ms = p.sender.published in
      let (last, runs, _, more) = send_all-delivers t ms first ready in
      let all : t.delivered last ≡ map msg_data_bytes ms =
        more ∙ ap (λ ds. ds ++ map msg_data_bytes ms) nothing in
      let complete = (published_messages to_nanoseconds a inputs room s p dma reach).0 in
      (
        last,
        runs,
        ap length all ∙ length-map ms,
        λ j h.
            subst (IsReceived a inputs (get_or p.rounds_at j 0) j)
              (sym (ap (λ (ds : List (List ℕ)). get_or ds j []) all ∙ get_or-map ms j h))
              (IsComplete-IsReceived a room inputs (get_or p.rounds_at j 0) j
                (get_or ms j zero_message) (complete j h)),
      )

  -- A connected device whose session has published nothing yet publishes over MQTT what the sender
  -- has taken up to any moment of any interleaving, one payload of 12352 bytes for each message.
  -- From the payload of message `j` a receiver reads the header with that number (modulo 2 ^ 32),
  -- and at the place of buffer `i` the number and the averages of the last round, among those
  -- before the publication, that wrote that buffer.
  pub messages_arrive_over_mqtt :
      (id : ℕ) (answer : List ℕ → ℤ) (small : id < 2 ^ 16) (c : Context)
      → IsOnline c
      → payloads c.calls ≡ []
      → (c' : Context) × (send_all (over_mqtt id answer small) p.sender.published c ≡ some c')
        × (length (payloads c'.calls) ≡ length p.sender.published)
        × ((j : ℕ)
            → j < length p.sender.published
            → IsReceived a inputs (get_or p.rounds_at j 0) j (get_or (payloads c'.calls) j []))
  messages_arrive_over_mqtt id answer small c online nothing =
      messages_arrive (over_mqtt id answer small) c online nothing
