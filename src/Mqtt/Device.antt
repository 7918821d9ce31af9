-- ===== src/Mqtt/Device.antt =====
-- The device's side of Core/mqtt_user.c: its identity, the commands it receives and the topics it
-- publishes on. Messages are byte lists, with the layouts of Core/msg_structs.h.
pub mod Identity
pub mod Publishing
use plhr_firmware.Common.{
  ℕ, zero, suc, ◌+◌, ◌-◌, ◌*◌, ◌/◌, ◌%◌, Bool, true, false, not, ◌&&◌, Option, none, some, List, [],
  ◌∷◌, ◌++◌, ◌==◌, ltb, bit_and, if◌then◌else◌, decimal, ℤ, pos, get_elem?, length,
}
use plhr_firmware.Mqtt.Context.{Event, connack, client_disconnect, server_disconnect, M, pure}
use plhr_firmware.Mqtt.Session.{mqtt_if_publish}

-- The globals `id_device` and `mac_address`, and the flag `mqtt_connected`.
pub record Device : Type 0 where
  pub id_device : ℕ
  pub mac_address : List ℕ
  pub mqtt_connected : ℕ

-- `mqtt_event_callback`.
abbrev pub mqtt_event_callback : Event → Device → Device
mqtt_event_callback connack d = record d { mqtt_connected = 1 }
mqtt_event_callback client_disconnect d = record d { mqtt_connected = 0 }
mqtt_event_callback server_disconnect d = record d { mqtt_connected = 0 }
mqtt_event_callback _ d = d

-- `CMD` of `msg_op_t` and `CMD_RESP_ID` of `cmd_enum_t`.
abbrev pub op_cmd : ℕ
op_cmd = 1

abbrev pub cmd_resp_id : ℕ
cmd_resp_id = 2

abbrev pub same_bytes : List ℕ → List ℕ → Bool
same_bytes [] [] = true
same_bytes (a ∷ xs) (b ∷ bs) = (a == b) && same_bytes xs bs
same_bytes _ _ = false

-- The body of a `CMD_RESP_ID`: six bytes of a MAC address, then the new identity.
pub take_id : List ℕ → Device → Option Device
take_id (m0 ∷ m1 ∷ m2 ∷ m3 ∷ m4 ∷ m5 ∷ r0 ∷ r1 ∷ p) d = some (
    if same_bytes (m0 ∷ m1 ∷ m2 ∷ m3 ∷ m4 ∷ m5 ∷ []) d.mac_address
    then record d { id_device = r0 + 256 * r1 }
    else d)
take_id _ d = none

-- What follows the header of a command.
pub take_command : List ℕ → Device → Option Device
unfolding take_id
take_command (c0 ∷ c1 ∷ p) d = if c0 + 256 * c1 == cmd_resp_id then take_id p d else some d
take_command _ d = none

-- `cmd_zero`, the callback of the command topic; none where it reads past the payload.
pub cmd_zero : List ℕ → Device → Option Device
unfolding take_command
cmd_zero (sender ∷ op ∷ l0 ∷ l1 ∷ p) d =
    if not (sender == 0) then some d else if op == op_cmd then take_command p d else some d
cmd_zero _ d = none

-- The commands that arrive one after the other.
unfoldable pub commands : List (List ℕ) → Device → Option Device
unfolding cmd_zero
commands [] d = some d
commands (p ∷ ps) d = elim (cmd_zero p d) [ none ↦ none | some d' ↦ commands ps d' ]

-- The ASCII character of a hexadecimal digit.
pub hex_char : ℕ → ℕ
hex_char n = if ltb 9 n then n + 97 - 10 else n + 48

-- `SetClientIdNamefromMacAddress`: the characters of `client_id`.
pub client_id : List ℕ → List ℕ
unfolding hex_char
client_id [] = []
client_id (b ∷ bs) = hex_char (bit_and (b / 16) 15) ∷ hex_char (bit_and b 15) ∷ client_id bs

-- `TOPIC_PUB_CMD`, `TOPIC_PUB_DATA` and `DEFAULT_ID_DEVICE`.
abbrev pub topic_pub_cmd : List ℕ
topic_pub_cmd = 67 ∷ 67 ∷ 51 ∷ 50 ∷ 120 ∷ 120 ∷ 47 ∷ 99 ∷ 109 ∷ 100 ∷ 47 ∷ 100 ∷ 50 ∷ 115 ∷ 47 ∷ []

abbrev pub topic_pub_data : List ℕ
topic_pub_data = 67 ∷ 67 ∷ 51 ∷ 50 ∷ 120 ∷ 120 ∷ 47 ∷ 100 ∷ 97 ∷ 116 ∷ 97 ∷ 47 ∷ []

abbrev pub default_id_device : List ℕ
default_id_device = 50 ∷ 53 ∷ 53 ∷ []

pub data TypePublish : Type 0 where
  type_cmd_default_id type_data_default_id type_cmd type_data type_other : TypePublish

-- The topic that `mqtt_publish` builds.
unfoldable pub publish_topic : TypePublish → ℕ → Option (List ℕ)
unfolding decimal
publish_topic type_cmd_default_id id = some (topic_pub_cmd ++ default_id_device)
publish_topic type_data_default_id id = some (topic_pub_data ++ default_id_device)
publish_topic type_cmd id = some (topic_pub_cmd ++ decimal 5 id)
publish_topic type_data id = some (topic_pub_data ++ decimal 5 id)
publish_topic type_other id = none

-- `sizeof` of the array that holds the topic; `id_device` has two bytes.
pub topic_size : TypePublish → ℕ
topic_size type_cmd_default_id = length topic_pub_cmd + 1 + (length default_id_device + 1) - 2
topic_size type_data_default_id = length topic_pub_data + 1 + (length default_id_device + 1) - 2
topic_size type_cmd = length topic_pub_cmd + 1 + 2 - 2
topic_size type_data = length topic_pub_data + 1 + 2 - 2
topic_size type_other = 0

-- `mqtt_publish`; `answer` is the code of `MQTTClient_publish`, and QoS 0 is flag 0. The topic
-- array, and the two bytes for the digits of an identity of two or more, are written behind their
-- ends: here these writes leave the rest of the memory as it is.
pub mqtt_publish : TypePublish → ℕ → List ℕ → ℤ → M ℤ
unfolding publish_topic
mqtt_publish type_publish id payload answer = elim (publish_topic type_publish id) [
  | none ↦ pure (pos 0)
  | some topic ↦ mqtt_if_publish topic payload 0 answer
]
