-- ===== src/Messages.antt =====
-- The data message of Core/msg_structs.h, as records in place of packed structs.
pub mod Wire
use plhr_firmware.Common.{ℕ, List, replicate}

-- `DATA_BUFFER_L`, `DATA_BUFFER_MAX` and `N_MSG_DATA`.
abbrev pub data_buffer_l : ℕ
data_buffer_l = 150

abbrev pub data_buffer_max : ℕ
data_buffer_max = 78

abbrev pub n_msg_data : ℕ
n_msg_data = 10

-- `data_buffer_t`.
pub record DataBuffer : Type 0 where
  pub buffer_id : ℕ
  pub bytes : List ℕ

-- `msg_data_t`, with the fields of `msg_header_t` and `data_header_t` side by side.
pub record MsgData : Type 0 where
  pub id_device : ℕ
  pub msg_op : ℕ
  pub msg_size : ℕ
  pub data_id : ℕ
  pub buffer_size : ℕ
  pub data_buffer_num : ℕ
  pub rtc_value : ℕ
  pub corr_buffer_id : ℕ
  pub buffers : List DataBuffer

-- Static memory starts as zeros.
abbrev pub zero_buffer : DataBuffer
zero_buffer = record { buffer_id = 0; bytes = replicate data_buffer_l 0 }

abbrev pub zero_message : MsgData
zero_message = record {
  id_device = 0;
  msg_op = 0;
  msg_size = 0;
  data_id = 0;
  buffer_size = 0;
  data_buffer_num = 0;
  rtc_value = 0;
  corr_buffer_id = 0;
  buffers = replicate data_buffer_max zero_buffer;
}

-- `msg_data`.
abbrev pub zero_messages : List MsgData
zero_messages = replicate n_msg_data zero_message
