-- ===== src/Examples/Devices.antt =====
-- The theorems about the device's identity and names at concrete values.
use plhr_firmware.Common.{
  byte_at, word_at, long_at, ℕ, ◌+◌, ◌<◌, ◌≡◌, refl, List, [], ◌∷◌, ◌++◌, length, drop,
  read_decimal, some, pos, arith, false,
}
use plhr_firmware.Mqtt.Context.{connected, Context, initial, ok, publish}
use plhr_firmware.Mqtt.Device.{
  Device, cmd_zero, client_id, topic_pub_cmd, type_cmd_default_id, default_id_device, topic_size,
  publish_topic,
}
use plhr_firmware.Mqtt.Device.Identity.{resp_id, mac, cmd_zero-resp_id}
use plhr_firmware.Mqtt.Commands.{
  cmd_rssi_status, ready_message, answered, asking, ask_for_id, Statistics, send_rssi,
}
use plhr_firmware.Mqtt.Commands.Asking.{after, ask_for_id_lem}
use plhr_firmware.Mqtt.Commands.Layout.{send_rssi-reads}
use plhr_firmware.Mqtt.Device.Publishing.{read_hex, client_id-reads, topic_overruns}

abbrev device : Device
device = record { id_device = 0; mac_address = mac 1 2 3 4 5 6; mqtt_connected = 1 }

abbrev neighbour : Device
neighbour = record { id_device = 9; mac_address = mac 1 2 3 4 5 7; mqtt_connected = 1 }

cmd_zero-resp_id_example :
    (cmd_zero (resp_id (mac 1 2 3 4 5 6) 300) device ≡ some (record device { id_device = 300 }))
    × (cmd_zero (resp_id (mac 1 2 3 4 5 6) 300) neighbour ≡ some neighbour)
cmd_zero-resp_id_example =
    cmd_zero-resp_id 1 2 3 4 5 6 300 device neighbour refl (λ e. ground arith)

client_id-reads_example :
    (read_hex (client_id (mac 1 2 3 4 171 255)) ≡ mac 1 2 3 4 171 255)
    × (length (client_id (mac 1 2 3 4 171 255)) ≡ 12)
client_id-reads_example =
    client_id-reads (mac 1 2 3 4 171 255)
      (omega arith, (omega arith, (omega arith, (omega arith, (omega arith, (omega arith, tt))))))

topic_overruns_example :
    topic_size type_cmd_default_id < length (topic_pub_cmd ++ default_id_device) + 1
unfolding publish_topic
topic_overruns_example =
    topic_overruns type_cmd_default_id 7 (topic_pub_cmd ++ default_id_device) refl

abbrev online : Context
online = record initial { module_state = connected; mutex = some false }

-- A quiet sleep, then one in which the server's own message for another device arrives.
abbrev quiet : List (List (List ℕ))
quiet = [] ∷ (resp_id (mac 1 2 3 4 5 7) 9 ∷ []) ∷ []

other_is_ignored :
    cmd_zero (resp_id (mac 1 2 3 4 5 7) 9) (record device { id_device = 255 })
    ≡ some (record device { id_device = 255 })
other_is_ignored =
    (cmd_zero-resp_id 1 2 3 4 5 7 9 neighbour (record device { id_device = 255 }) refl
      (λ e. ground arith)).1

ask_for_id_lem_example :
    (ask_for_id pos quiet device online
      ≡ ok (asking 2) (after 2 (ready_message 255 device.mac_address) online))
    × (ask_for_id pos (quiet ++ (resp_id (mac 1 2 3 4 5 6) 7 ∷ []) ∷ []) device online
        ≡ ok
            (answered (pos 2) (record device { id_device = 7 }) 3)
            (after 3 (ready_message 255 device.mac_address) online))
ask_for_id_lem_example =
    ask_for_id_lem 1 2 3 4 5 6 7 device pos quiet [] online refl (omega arith)
      (tt, ((other_is_ignored, tt), tt)) refl refl

abbrev statistics : Statistics
statistics = record {
  received_valid_packets_number = 70000;
  avarage_data_ctrl_rssi = 65476;
  avarage_mg_mnt_rssi = 65470;
}

abbrev leftover : List ℕ
leftover = 1 ∷ 2 ∷ 3 ∷ 4 ∷ 5 ∷ 6 ∷ 7 ∷ 8 ∷ []

send_rssi-reads_example :
    (digits msg : List ℕ) × (send_rssi 300 statistics leftover (pos 0) online
      ≡ ok (pos 0) (record online { calls = publish (topic_pub_cmd ++ digits) msg 0 ∷ [] }))
    × (read_decimal 0 digits ≡ 300)
    × (byte_at msg 0 ≡ 44)
    × (byte_at msg 1 ≡ 1)
    × (word_at msg 4 ≡ cmd_rssi_status)
    × (word_at msg 6 ≡ 65476)
    × (word_at msg 8 ≡ 65470)
    × (long_at msg 10 ≡ 70000)
    × (word_at msg 2 + 8 ≡ length msg)
    × (drop 14 msg ≡ leftover)
send_rssi-reads_example =
    send_rssi-reads online 300 statistics leftover (pos 0) (omega arith) (omega arith) (omega arith)
      (omega arith) refl refl refl
