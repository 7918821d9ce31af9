-- ===== src/Downsampling.antt =====
-- `thread_downsampling` of Core/dws_user.c: one call of `iteration` is one round of its loop, from
-- the pend on the DMA semaphore on.
pub mod Slots
pub mod Cursor
pub mod Stamps
pub mod Retention
pub mod Clock
pub mod Headers
use plhr_firmware.Common.{
  ℕ, zero, suc, ◌+◌, ◌-◌, ◌*◌, ◌/◌, ◌%◌, ◌^◌, List, get_or, set, bit_and, if◌then◌else◌, ◌==◌, not,
}
use plhr_firmware.Messages.{
  DataBuffer, MsgData, zero_buffer, zero_message, zero_messages, data_buffer_max, n_msg_data,
}
use plhr_firmware.Samples.{pack_buffer}

-- The fields of `arg_thread_downsampling_t` that steer the loop.
pub record Args : Type 0 where
  pub dma_num_buffers : ℕ  -- uint8_t
  pub size_buffer_in : ℕ  -- uint16_t, in samples

-- The words behind `status_time_sync` and `ptr_sntp_time`, which other threads write too.
pub record Shared : Type 0 where
  pub status_time_sync : ℕ  -- uint64_t
  pub sntp_time : ℕ  -- uint64_t

-- The thread's variables, and the message memory that it fills.
pub record Dws : Type 0 where
  pub cnt_buffer_in : ℕ  -- uint16_t
  pub cnt_buffer_out : ℕ  -- uint16_t
  pub data_buffer_count : ℕ  -- uint64_t
  pub n_msg : ℕ  -- uint16_t n_msg_data
  pub time_synchro_us : ℕ  -- uint64_t
  pub data_buffer_sync : ℕ  -- uint64_t
  pub base : ℕ  -- buffer_downsampling, as an index into the DMA memory
  pub messages : List MsgData
  pub mqtt_posts : ℕ  -- how often ptr_semaphore_mqtt was posted

-- What the outside gives one round: the DMA memory, and what `clock_gettime` reads.
pub record Input : Type 0 where
  pub memory : ℕ → ℕ
  pub tv_sec : ℕ
  pub tv_nsec : ℕ

-- The initialisation of the variables.
pub start : Dws
start = record {
  cnt_buffer_in = 0;
  cnt_buffer_out = 0;
  data_buffer_count = 0;
  n_msg = 0;
  time_synchro_us = 0;
  data_buffer_sync = 0;
  base = 0;
  messages = zero_messages;
  mqtt_posts = 0;
}

abbrev pub epoch_offset : ℕ
epoch_offset = 2208988800

abbrev pub seconds_to_nseconds : ℕ
seconds_to_nseconds = 1000000000

-- A write through `ptr_msg_data`, which points to message `n`.
abbrev pub modify_message : ℕ → (MsgData → MsgData) → List MsgData → List MsgData
modify_message n f messages = set messages n (f (get_or messages n zero_message))

-- A write to `p.p[j]`.
abbrev pub modify_buffer : ℕ → (DataBuffer → DataBuffer) → MsgData → MsgData
modify_buffer j f m = record m { buffers = set m.buffers j (f (get_or m.buffers j zero_buffer)) }

-- The two `memcpy` into the header, the packing loop and the buffer's id.
pub fill : Args → Input → Dws → Dws
fill a i d = record d {
  messages =
      modify_message d.n_msg
        (λ m.
          modify_buffer d.cnt_buffer_out
            (λ b. record {
              buffer_id = d.data_buffer_count;
              bytes = pack_buffer i.memory d.base a.size_buffer_in b.bytes;
            })
            (record m { corr_buffer_id = d.data_buffer_sync; rtc_value = d.time_synchro_us }))
        d.messages;
}

-- The counters, the post of a full message, and the next DMA buffer.
pub advance : Args → Dws → Dws
advance a d =
    let out = (d.cnt_buffer_out + 1) % 2 ^ 16 in
    let full = out == data_buffer_max in
    let cnt_in = (d.cnt_buffer_in + 1) % a.dma_num_buffers in
    record d {
      data_buffer_count = (d.data_buffer_count + 1) % 2 ^ 64;
      cnt_buffer_out = if full then 0 else out;
      n_msg = if full then (d.n_msg + 1) % n_msg_data else d.n_msg;
      cnt_buffer_in = cnt_in;
      base = cnt_in * a.size_buffer_in;
      mqtt_posts = if full then d.mqtt_posts + 1 else d.mqtt_posts;
    }

-- `to_nanoseconds` is the conversion by `double` arithmetic of a 32-bit fraction of a second.
module _ (to_nanoseconds : ℕ → ℕ) where
  -- `seconds + nanoseconds`: the SNTP time and the time since, from 1970 on, as a uint64_t.
  pub synchro_time : ℕ → ℕ → ℕ → ℕ
  synchro_time time_synchro tv_sec tv_nsec =
      let seconds = bit_and 0xffffffff00000000 time_synchro / 2 ^ 32 in
      let seconds' =
        ((seconds + tv_sec + 2 ^ 64 - epoch_offset) % 2 ^ 64 * seconds_to_nseconds + tv_nsec)
        % 2 ^ 64 in
      let nanoseconds = to_nanoseconds (bit_and 0xffffffff time_synchro) % 2 ^ 32 in
      (seconds' + nanoseconds) % 2 ^ 64

  -- The branch for `time_sync_status != 0`. Storing a uint16_t zero clears the two low bytes of the
  -- flag.
  pub take_time : Input → Dws × Shared → Dws × Shared
  take_time i (d, s) = (
    record d {
      time_synchro_us = synchro_time s.sntp_time i.tv_sec i.tv_nsec;
      messages =
          modify_message d.n_msg (λ m. record m { corr_buffer_id = d.data_buffer_count })
            d.messages;
      data_buffer_sync = d.data_buffer_count;
    },
    record s { status_time_sync = s.status_time_sync - s.status_time_sync % 2 ^ 16 },
  )

  pub synchronise : Input → Dws × Shared → Dws × Shared
  unfolding take_time
  synchronise i (d, s) = if s.status_time_sync == 0 then (d, s) else take_time i (d, s)

  -- One round of `while(true)`.
  pub iteration : Args → Input → Dws × Shared → Dws × Shared
  iteration a i p = let (d, s) = synchronise i p in (advance a (fill a i d), s)

  -- `n` rounds; `inputs k` is what the outside gives round `k`, and `others k` what the other
  -- threads do to the shared words before it.
  pub rounds : Args → (ℕ → Input) → (ℕ → Shared → Shared) → ℕ → Dws × Shared → Dws × Shared
  rounds a inputs others zero p = p
  rounds a inputs others (suc n) p =
      let (d, s) = rounds a inputs others n p in iteration a (inputs n) (d, others n s)
