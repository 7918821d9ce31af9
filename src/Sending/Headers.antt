-- ===== src/Sending/Headers.antt =====
-- The header that `send_data` writes into a message, and what the downsampling thread leaves of it.
use plhr_firmware.Common.{ℕ, ◌≡◌, refl, List, ℤ, [], ◌∷◌, ◌++◌}
use plhr_firmware.Messages.{MsgData, data_buffer_max}
use plhr_firmware.Downsampling.Slots.{message_at}
use plhr_firmware.Sending.{Sender, write_header, publish_message, data_buffer_size, msg_data_size}

-- The fields that the sender alone writes, but the identity.
pub record Header : Type 0 where
  pub msg_op : ℕ
  pub msg_size : ℕ
  pub data_id : ℕ
  pub buffer_size : ℕ
  pub data_buffer_num : ℕ

abbrev pub header_of : MsgData → Header
header_of m = record {
  msg_op = m.msg_op;
  msg_size = m.msg_size;
  data_id = m.data_id;
  buffer_size = m.buffer_size;
  data_buffer_num = m.data_buffer_num;
}

-- The header of a data message with a number.
abbrev pub data_header : ℕ → Header
data_header number = record {
  msg_op = 2;
  msg_size = msg_data_size;
  data_id = number;
  buffer_size = data_buffer_size;
  data_buffer_num = data_buffer_max;
}

pub write_header-header :
    (id_device number : ℕ) (m : MsgData)
    → header_of (write_header id_device number m) ≡ data_header number
unfolding write_header
write_header-header id_device number m = refl

pub write_header-buffers :
    (id_device number : ℕ) (m : MsgData) → (write_header id_device number m).buffers ≡ m.buffers
unfolding write_header
write_header-buffers id_device number m = refl

-- What a publication adds, and what it counts.
pub published-snoc :
    (answer : ℤ) (s : Sender) (ms : List MsgData)
    → (publish_message answer (s, ms)).0.published ≡ s.published ++ message_at ms s.n_msg ∷ []
unfolding publish_message
published-snoc answer s ms = refl
