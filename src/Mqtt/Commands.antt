-- ===== src/Mqtt/Commands.antt =====
-- The command messages that a device sends, `msg_cmd_t` of Core/msg_structs.h, and the functions of
-- Core/mqtt_user.c that send them: `send_rssi` and `ask_for_id`.
pub mod Layout
pub mod Asking
use plhr_firmware.Common.{
  le16, le32, le64, ℕ, suc, ◌+◌, ◌*◌, ◌/◌, ◌%◌, bit_xor, Option, none, some, true, false, List, [],
  ◌∷◌, ◌++◌, ◌==◌, if◌then◌else◌, ℤ, pos,
}
use plhr_firmware.Mqtt.Context.{M, ◌>>=◌, pure}
use plhr_firmware.Mqtt.Device.{
  Device, op_cmd, commands, type_cmd, type_cmd_default_id, mqtt_publish,
}

-- `CMD_READY` and `CMD_RSSI_STATUS` of `cmd_enum_t`.
abbrev pub cmd_ready : ℕ
cmd_ready = 1

abbrev pub cmd_rssi_status : ℕ
cmd_rssi_status = 4

-- The packed `msg_header_t` and `cmd_header_t` in front of a command.
pub command_header : ℕ → ℕ → ℕ → List ℕ
command_header id_device msg_size cmd_id = id_device % 256 ∷ op_cmd ∷ le16 msg_size ++ le16 cmd_id

-- `F_SAMPLE` and `DWS_RATE`.
abbrev f_sample : ℕ
f_sample = 62500

abbrev dws_rate : ℕ
dws_rate = 8

-- `(1 / (F_SAMPLE / DWS_RATE)) * 10 ^ 9`, where `^` is the exclusive or.
pub time_per_sample : ℕ
time_per_sample = bit_xor (1 / (f_sample / dws_rate) * 10) 9

-- The `ready_cmd_len` bytes of the message of `ask_for_id`.
pub ready_message : ℕ → List ℕ → List ℕ
unfolding command_header time_per_sample
ready_message id_device mac_address =
    command_header id_device (14 + 2 + 4) cmd_ready ++ (mac_address ++ le64 time_per_sample)

-- The fields of `SlDeviceGetStat_t` that `send_rssi` copies, as the bit patterns of their C types.
pub record Statistics : Type 0 where
  pub received_valid_packets_number : ℕ  -- uint32_t
  pub avarage_data_ctrl_rssi : ℕ  -- int16_t
  pub avarage_mg_mnt_rssi : ℕ  -- int16_t

-- All bytes of the `msg_cmd_t` of `send_rssi`; `stack` holds the eight of its union that are not
-- written.
pub rssi_message : ℕ → Statistics → List ℕ → List ℕ
unfolding command_header
rssi_message id_device rssi_status stack =
    command_header id_device (8 + 2 + 4) cmd_rssi_status
    ++ (le16 rssi_status.avarage_data_ctrl_rssi
        ++ (le16 rssi_status.avarage_mg_mnt_rssi
            ++ (le32 rssi_status.received_valid_packets_number ++ stack)))

-- `send_rssi`. `rssi_status` is what stands in the local variable after `sl_DeviceStatGet`, whose
-- failure is only logged, and `answer` is the code of `MQTTClient_publish`.
pub send_rssi : ℕ → Statistics → List ℕ → ℤ → M ℤ
unfolding rssi_message
send_rssi id_device rssi_status stack answer =
    mqtt_publish type_cmd id_device (rssi_message id_device rssi_status stack) answer

-- Where `ask_for_id` stands: it has returned a code, with a device that has an identity, after a
-- number of publications; or still asks after the given sleeps; or a callback read past its
-- payload.
pub data Asked : Type 0 where
  answered : ℤ → Device → ℕ → Asked
  asking : ℕ → Asked
  bad_read : Asked

-- The loop of `ask_for_id` with its message: `answer` gives the code of `MQTTClient_publish` for
-- the n-th publication, `ret` is the code of the last, and the lists hold the commands that arrive
-- in each sleep.
pub ask_loop : List ℕ → (ℕ → ℤ) → ℕ → ℤ → List (List (List ℕ)) → Device → M Asked
ask_loop msg answer n ret [] d =
    if d.id_device == 255 then pure (asking n) else pure (answered ret d n)
ask_loop msg answer n ret (ps ∷ sleeps) d = elim (d.id_device == 255) [
  | true ↦ do
    r ← mqtt_publish type_cmd_default_id d.id_device msg (answer n)
    elim (commands ps d) [
      | none ↦ pure bad_read
      | some d' ↦ ask_loop msg answer (suc n) r sleeps d'
    ]
  | false ↦ pure (answered ret d n)
]

-- `ask_for_id`.
pub ask_for_id : (ℕ → ℤ) → List (List (List ℕ)) → Device → M Asked
unfolding ask_loop ready_message
ask_for_id answer sleeps d =
    ask_loop (ready_message 255 d.mac_address) answer 0 (pos 0) sleeps
      (record d { id_device = 255 })
