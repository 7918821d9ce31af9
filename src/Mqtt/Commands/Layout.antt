-- ===== src/Mqtt/Commands/Layout.antt =====
-- The layout of the command messages, and what a device that receives one makes of it.
use plhr_firmware.Common.{
  byte_at, word_at, long_at, ℕ, ◌+◌, ◌%◌, ◌^◌, ◌<◌, ◌≡◌, refl, false, some, List, [], ◌∷◌, ◌++◌,
  length, drop, read_decimal, ℤ, arith,
}
use plhr_firmware.Mqtt.Context.{connected, publish, Context, ok}
use plhr_firmware.Mqtt.Device.{Device, op_cmd, cmd_zero, topic_pub_cmd}
use plhr_firmware.Mqtt.Device.Identity.{cmd_zero_other}
use plhr_firmware.Mqtt.Device.Publishing.{mqtt_publish-reads}
use plhr_firmware.Mqtt.Commands.{
  cmd_ready, cmd_rssi_status, ready_message, Statistics, rssi_message, send_rssi,
}

-- The fields of an RSSI message read back at their offsets: the low byte of the identity, the
-- command with its number, and the statistics. Its size field says 14, which is 8 less than its
-- length.
rssi_message-reads :
    (id : ℕ) (s : Statistics) (stack : List ℕ)
    → s.avarage_data_ctrl_rssi < 2 ^ 16
    → s.avarage_mg_mnt_rssi < 2 ^ 16
    → s.received_valid_packets_number < 2 ^ 32
    → length stack ≡ 8
    → let msg = rssi_message id s stack in
      (byte_at msg 0 ≡ id % 256)
      × (byte_at msg 1 ≡ op_cmd)
      × (word_at msg 4 ≡ cmd_rssi_status)
      × (word_at msg 6 ≡ s.avarage_data_ctrl_rssi)
      × (word_at msg 8 ≡ s.avarage_mg_mnt_rssi)
      × (long_at msg 10 ≡ s.received_valid_packets_number)
      × (word_at msg 2 + 8 ≡ length msg)
unfolding rssi_message
rssi_message-reads id s stack h k l n = omega arith

-- No command message that a device sends, its question for an identity or its signal strength,
-- changes a device that receives it, whatever the two devices' identities are.
pub devices_ignore :
    (id : ℕ) (mac_address : List ℕ) (s : Statistics) (stack : List ℕ) (d : Device)
    → (cmd_zero (ready_message id mac_address ++ 0 ∷ []) d ≡ some d)
      × (cmd_zero (rssi_message id s stack ++ 0 ∷ []) d ≡ some d)
unfolding ready_message rssi_message
devices_ignore id mac_address s stack d = (
  cmd_zero_other (id % 256) op_cmd 20 0 cmd_ready 0 _ d (omega arith),
  cmd_zero_other (id % 256) op_cmd 14 0 cmd_rssi_status 0 _ d (omega arith),
)

-- While connected, `send_rssi` publishes its message once on the command topic of the device's
-- identity, and returns the library's code. The message is 8 bytes longer than its size field says,
-- and these are what stood on the stack; before them its fields read back as the low byte of the
-- identity, the command with its number, and the three statistics.
pub send_rssi-reads :
    (c : Context) (id : ℕ) (s : Statistics) (stack : List ℕ) (answer : ℤ)
    → id < 2 ^ 16
    → s.avarage_data_ctrl_rssi < 2 ^ 16
    → s.avarage_mg_mnt_rssi < 2 ^ 16
    → s.received_valid_packets_number < 2 ^ 32
    → length stack ≡ 8
    → c.mutex ≡ some false
    → c.module_state ≡ connected
    → (digits msg : List ℕ) × (send_rssi id s stack answer c
        ≡ ok answer (record c {
          mutex = some false;
          calls = c.calls ++ publish (topic_pub_cmd ++ digits) msg 0 ∷ [];
        }))
      × (read_decimal 0 digits ≡ id)
      × (byte_at msg 0 ≡ id % 256)
      × (byte_at msg 1 ≡ op_cmd)
      × (word_at msg 4 ≡ cmd_rssi_status)
      × (word_at msg 6 ≡ s.avarage_data_ctrl_rssi)
      × (word_at msg 8 ≡ s.avarage_mg_mnt_rssi)
      × (long_at msg 10 ≡ s.received_valid_packets_number)
      × (word_at msg 2 + 8 ≡ length msg)
      × (drop 14 msg ≡ stack)
unfolding send_rssi rssi_message
send_rssi-reads c id s stack answer small h k l n ready online =
    let (digits, reads, _, runs) =
      mqtt_publish-reads c id (rssi_message id s stack) answer small ready online in
    let (f0, f1, f2, f3, f4, f5, size) = rssi_message-reads id s stack h k l n in
    (digits, rssi_message id s stack, runs, reads, f0, f1, f2, f3, f4, f5, size, dropped)
  where
    dropped : drop 14 (rssi_message id s stack) ≡ stack
    dropped = refl
