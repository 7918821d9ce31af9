-- ===== src/Sending.antt =====
-- `send_data` of Core/mqtt_user.c: one call of `send_round` is one round of its loop, from the pend
-- on the semaphore of a full message on.
pub mod Order
pub mod Headers
pub mod Transport
pub mod Complete
use plhr_firmware.Common.{
  ℕ, zero, suc, ◌+◌, ◌*◌, ◌%◌, ◌^◌, Bool, true, false, Option, none, some, List, [], ◌∷◌, ◌++◌,
  get_or, if◌then◌else◌, ℤ, is_neg,
}
use plhr_firmware.Messages.{MsgData, zero_message, data_buffer_l, data_buffer_max, n_msg_data}
use plhr_firmware.Downsampling.{modify_message}

-- The thread's variables, what it has published, and how often it cleared the watchdog.
pub record Sender : Type 0 where
  pub n_msg : ℕ  -- int n_msg_data
  pub msg_data_id : ℕ  -- uint32_t
  pub published : List MsgData
  pub watchdog_clears : ℕ

-- The variables before the loop.
pub first_message : Sender
first_message = record { n_msg = 0; msg_data_id = 0; published = []; watchdog_clears = 0 }

-- `sizeof(data_buffer_t)` and `sizeof(msg_data_t)` of the packed structs.
abbrev pub data_buffer_size : ℕ
data_buffer_size = 8 + data_buffer_l

abbrev pub msg_data_size : ℕ
msg_data_size = 4 + 24 + data_buffer_max * data_buffer_size

-- The six `memcpy` into the header. The field for the identity has one byte; the second byte of
-- `id_device` falls on `msg_op`, which `DATA` then overwrites.
pub write_header : ℕ → ℕ → MsgData → MsgData
write_header id_device msg_data_id m = record m {
  data_buffer_num = data_buffer_max;
  buffer_size = data_buffer_size;
  id_device = id_device % 2 ^ 8;
  msg_op = 2;
  msg_size = msg_data_size;
  data_id = msg_data_id;
}

-- The loop that reads `send_data_status` until it is `start`; the list holds what the reads give.
-- What is left of the list, or none where every read gives `stop`.
pub wait_start : List Bool → Option (List Bool)
wait_start [] = none
wait_start (true ∷ reads) = some reads
wait_start (false ∷ reads) = wait_start reads

-- The publication and the step to the next message; `answer` is the code of `mqtt_publish`.
unfoldable pub publish_message : ℤ → Sender × List MsgData → Sender × List MsgData
publish_message answer (s, ms) = (
  record {
    n_msg = (s.n_msg + 1) % n_msg_data;
    msg_data_id = (s.msg_data_id + 1) % 2 ^ 32;
    published = s.published ++ get_or ms s.n_msg zero_message ∷ [];
    watchdog_clears = if is_neg answer then s.watchdog_clears else s.watchdog_clears + 1;
  },
  ms,
)

-- One round; `meanwhile` is what the downsampling thread does to the messages during the wait.
pub send_round :
    ℕ
    → (List MsgData → List MsgData)
    → List Bool
    → ℤ
    → Sender × List MsgData
    → Option (Sender × List MsgData)
unfolding write_header wait_start publish_message
send_round id_device meanwhile reads answer (s, ms) = elim (wait_start reads) [
  | none ↦ none
  | some left ↦ some (
      publish_message answer
        (s, meanwhile (modify_message s.n_msg (write_header id_device s.msg_data_id) ms)))
]
