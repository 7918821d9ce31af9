-- ===== src/Messages/Wire/Reading.antt =====
-- What a receiver reads in the bytes of a data message.
use plhr_firmware.Common.{
  ℕ, zero, suc, ◌+◌, ◌*◌, ◌%◌, ◌^◌, ◌<◌, ◌≡◌, refl, ◌∙◌, List, [], ◌∷◌, length, length-append,
  get_or, get_or-append_left, get_or-append_right, le64, byte_at, word_at, long_at, quad_at, arith,
}
use plhr_firmware.Messages.{DataBuffer, MsgData, zero_buffer}
use plhr_firmware.Messages.Wire.{
  data_buffer_bytes, buffers_bytes, headers_bytes, msg_data_bytes, AreFull, buffer_offset,
}

pub AreFull-each :
    (bs : List DataBuffer)
    → ((j : ℕ) → j < length bs → length (get_or bs j zero_buffer).bytes ≡ 150)
    → AreFull bs
AreFull-each [] each = tt
AreFull-each (b ∷ bs) each =
    (each 0 (omega arith), AreFull-each bs (λ j h. each (suc j) (omega arith)))

length-data_buffer_bytes : (b : DataBuffer) → length (data_buffer_bytes b) ≡ 8 + length b.bytes
unfolding data_buffer_bytes
length-data_buffer_bytes b = omega arith

buffers_bytes-at :
    (bs : List DataBuffer) (i k : ℕ)
    → AreFull bs
    → i < length bs
    → k < 158
    → get_or (buffers_bytes bs) (158 * i + k) 0
      ≡ get_or (data_buffer_bytes (get_or bs i zero_buffer)) k 0
unfolding buffers_bytes
buffers_bytes-at [] i k full h hk = absurd (omega arith)
buffers_bytes-at (b ∷ bs) zero k full h hk =
    let e : 158 * 0 + k ≡ k = omega arith in
    rw e (
      get_or-append_left (data_buffer_bytes b) (buffers_bytes bs) k 0
        (omega (arith, length-data_buffer_bytes b, full.0)))
buffers_bytes-at (b ∷ bs) (suc i) k full h hk =
    let e : 158 * suc i + k ≡ length (data_buffer_bytes b) + (158 * i + k) =
      omega (arith, length-data_buffer_bytes b, full.0) in
    rw e (
      get_or-append_right (data_buffer_bytes b) (buffers_bytes bs) (158 * i + k) 0
      ∙ buffers_bytes-at bs i k full.1 (omega arith) hk)

length-buffers_bytes :
    (bs : List DataBuffer) → AreFull bs → length (buffers_bytes bs) ≡ 158 * length bs
unfolding buffers_bytes
length-buffers_bytes [] full = refl
length-buffers_bytes (b ∷ bs) full = omega (
  arith,
  length-append (data_buffer_bytes b) (buffers_bytes bs),
  length-data_buffer_bytes b,
  full.0,
  length-buffers_bytes bs full.1,
)

length-headers_bytes : (m : MsgData) → length (headers_bytes m) ≡ 28
unfolding headers_bytes
length-headers_bytes m = refl

-- Byte `k` of buffer `i` of a message.
msg_data_bytes-at :
    (m : MsgData) (i k : ℕ)
    → AreFull m.buffers
    → i < length m.buffers
    → k < 158
    → byte_at (msg_data_bytes m) (buffer_offset i + k)
      ≡ get_or (data_buffer_bytes (get_or m.buffers i zero_buffer)) k 0
unfolding msg_data_bytes
msg_data_bytes-at m i k full h hk =
    let e : 28 + 158 * i + k ≡ length (headers_bytes m) + (158 * i + k) =
      omega (arith, length-headers_bytes m) in
    rw e (
      get_or-append_right (headers_bytes m) (buffers_bytes m.buffers) (158 * i + k) 0
      ∙ buffers_bytes-at m.buffers i k full h hk)

buffer_bytes-id :
    (b : DataBuffer)
    → b.buffer_id < 2 ^ 64
    → let p = data_buffer_bytes b in quad_at p 0 ≡ b.buffer_id
unfolding data_buffer_bytes
buffer_bytes-id b h = omega arith

buffer_bytes-data :
    (b : DataBuffer) (q : ℕ) → get_or (data_buffer_bytes b) (8 + q) 0 ≡ get_or b.bytes q 0
unfolding data_buffer_bytes
buffer_bytes-data b q = get_or-append_right (le64 b.buffer_id) b.bytes q 0

module _ (m : MsgData) (full : AreFull m.buffers) (i : ℕ) (h : i < length m.buffers) where
  at_place :
      (j k : ℕ)
      → j ≡ buffer_offset i + k
      → k < 158
      → byte_at (msg_data_bytes m) j
        ≡ get_or (data_buffer_bytes (get_or m.buffers i zero_buffer)) k 0
  at_place j k e hk = rw e (msg_data_bytes-at m i k full h hk)

  -- The number of buffer `i`, and its data, at their offsets.
  pub buffer_id-read :
      (get_or m.buffers i zero_buffer).buffer_id < 2 ^ 64
      → quad_at (msg_data_bytes m) (buffer_offset i) ≡ (get_or m.buffers i zero_buffer).buffer_id
  buffer_id-read small =
      let o = buffer_offset i in
      omega (
        arith,
        buffer_bytes-id (get_or m.buffers i zero_buffer) small,
        at_place o 0 (omega arith) (omega arith),
        at_place (o + 1) 1 (omega arith) (omega arith),
        at_place (o + 2) 2 (omega arith) (omega arith),
        at_place (o + 2 + 1) 3 (omega arith) (omega arith),
        at_place (o + 4) 4 (omega arith) (omega arith),
        at_place (o + 4 + 1) 5 (omega arith) (omega arith),
        at_place (o + 4 + 2) 6 (omega arith) (omega arith),
        at_place (o + 4 + 2 + 1) 7 (omega arith) (omega arith),
      )

  pub buffer_data-read :
      (q : ℕ)
      → q < 150
      → byte_at (msg_data_bytes m) (buffer_offset i + 8 + q)
        ≡ get_or (get_or m.buffers i zero_buffer).bytes q 0
  buffer_data-read q hq =
      at_place (buffer_offset i + 8 + q) (8 + q) (omega arith) (omega arith)
      ∙ buffer_bytes-data (get_or m.buffers i zero_buffer) q

-- The whole message has `sizeof(msg_data_t)` bytes.
pub length-msg_data_bytes :
    (m : MsgData) → length m.buffers ≡ 78 → AreFull m.buffers → length (msg_data_bytes m) ≡ 12352
unfolding msg_data_bytes
length-msg_data_bytes m all full = omega (
  arith,
  length-append (headers_bytes m) (buffers_bytes m.buffers),
  length-headers_bytes m,
  length-buffers_bytes m.buffers full,
  all,
)

-- The header fields of a message at their offsets.
pub headers-read :
    (m : MsgData)
    → m.msg_size < 2 ^ 16
    → m.data_id < 2 ^ 32
    → m.buffer_size < 2 ^ 16
    → m.data_buffer_num < 2 ^ 16
    → m.rtc_value < 2 ^ 64
    → m.corr_buffer_id < 2 ^ 64
    → let p = msg_data_bytes m in
      (byte_at p 0 ≡ m.id_device % 256)
      × (byte_at p 1 ≡ m.msg_op % 256)
      × (word_at p 2 ≡ m.msg_size)
      × (long_at p 4 ≡ m.data_id)
      × (word_at p 8 ≡ m.buffer_size)
      × (word_at p 10 ≡ m.data_buffer_num)
      × (quad_at p 12 ≡ m.rtc_value)
      × (quad_at p 20 ≡ m.corr_buffer_id)
unfolding msg_data_bytes headers_bytes
headers-read m h2 h3 h4 h5 h6 h7 =
    (refl, refl, omega arith, omega arith, omega arith, omega arith, omega arith, omega arith)

-- The same for the fields of the sender's header alone.
pub headers-place :
    (m : MsgData)
    → let p = msg_data_bytes m in
      (byte_at p 1 ≡ m.msg_op % 256)
      × (word_at p 2 ≡ m.msg_size % 2 ^ 16)
      × (long_at p 4 ≡ m.data_id % 2 ^ 32)
      × (word_at p 8 ≡ m.buffer_size % 2 ^ 16)
      × (word_at p 10 ≡ m.data_buffer_num % 2 ^ 16)
unfolding msg_data_bytes headers_bytes
headers-place m = (refl, omega arith, omega arith, omega arith, omega arith)
