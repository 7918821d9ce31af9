-- ===== src/Messages/Wire.antt =====
-- The bytes of the packed `msg_data_t` of Core/msg_structs.h, which `send_data` of Core/mqtt_user.c
-- gives to `mqtt_publish`.
pub mod Reading
use plhr_firmware.Common.{ℕ, ◌+◌, ◌*◌, ◌%◌, ◌≡◌, List, [], ◌∷◌, ◌++◌, length, le16, le32, le64}
use plhr_firmware.Messages.{DataBuffer, MsgData}

-- `data_buffer_t`.
pub data_buffer_bytes : DataBuffer → List ℕ
data_buffer_bytes b = le64 b.buffer_id ++ b.bytes

-- The array `p` of `data_payload_t`.
pub buffers_bytes : List DataBuffer → List ℕ
unfolding data_buffer_bytes
buffers_bytes [] = []
buffers_bytes (b ∷ bs) = data_buffer_bytes b ++ buffers_bytes bs

-- `msg_header_t` and `data_header_t`.
pub headers_bytes : MsgData → List ℕ
headers_bytes m =
    m.id_device % 256
    ∷ m.msg_op % 256
    ∷ (le16 m.msg_size
        ++ (le32 m.data_id
            ++ (le16 m.buffer_size
                ++ (le16 m.data_buffer_num ++ (le64 m.rtc_value ++ le64 m.corr_buffer_id)))))

-- `msg_data_t`.
pub msg_data_bytes : MsgData → List ℕ
unfolding headers_bytes buffers_bytes
msg_data_bytes m = headers_bytes m ++ buffers_bytes m.buffers

-- Every buffer has 150 bytes.
abbrev pub AreFull : List DataBuffer → Type 0
AreFull [] = Unit {0}
AreFull (b ∷ bs) = (length b.bytes ≡ 150) × AreFull bs

-- Where buffer `i` of a message begins.
abbrev pub buffer_offset : ℕ → ℕ
buffer_offset i = 28 + 158 * i
