-- ===== src/Mqtt/Device/Publishing.antt =====
-- The names that the device goes by: its topics and its client identifier.
use plhr_firmware.Common.{
  ℕ, ◌+◌, ◌-◌, ◌*◌, ◌/◌, ◌^◌, ◌<◌, ◌≡◌, refl, ap, ap₂, true, false, Option, none, some, List, [],
  ◌∷◌, ◌++◌, ◌==◌, ==_iff, if◌then◌else◌, ltb, arith, decimal, bit_and, holds_below,
  holds_below_sound, read_decimal, decimal-reads, decimal-length, length, ℤ,
}
use plhr_firmware.Mqtt.Context.{connected, publish, Context, ok}
use plhr_firmware.Mqtt.Session.States.{publish_lem}
use plhr_firmware.Mqtt.Device.{
  default_id_device, hex_char, client_id, topic_pub_cmd, topic_pub_data, TypePublish,
  type_cmd_default_id, type_data_default_id, type_cmd, type_data, type_other, publish_topic,
  topic_size, mqtt_publish,
}

-- Reads a hexadecimal character.
abbrev hex_value : ℕ → ℕ
hex_value c = if ltb c 58 then c - 48 else c - 87

-- Reads pairs of hexadecimal characters.
abbrev pub read_hex : List ℕ → List ℕ
read_hex [] = []
read_hex (c ∷ []) = []
read_hex (h ∷ l ∷ cs) = (hex_value h * 16 + hex_value l) ∷ read_hex cs

-- What the two characters of a byte read as.
abbrev byte_value : ℕ → ℕ
byte_value b = hex_value (hex_char (bit_and (b / 16) 15)) * 16 + hex_value (hex_char (bit_and b 15))

byte_table : holds_below (λ b. byte_value b == b) 256 ≡ true
unfolding holds_below hex_char
byte_table = refl

byte_reads : (b : ℕ) → b < 256 → byte_value b ≡ b
byte_reads b h = (==_iff _ b).0 (holds_below_sound (λ k. byte_value k == k) 256 b h byte_table)

abbrev pub AreBytes : List ℕ → Type 0
AreBytes [] = Unit {0}
AreBytes (b ∷ bs) = (b < 256) × AreBytes bs

-- The client identifier of a MAC address reads back as the address, so that two devices with
-- different addresses have different identifiers; it has two characters for each byte.
pub client_id-reads :
    (bs : List ℕ)
    → AreBytes bs
    → (read_hex (client_id bs) ≡ bs) × (length (client_id bs) ≡ 2 * length bs)
unfolding client_id
client_id-reads [] h = (refl, refl)
client_id-reads (b ∷ bs) h =
    let (r, l) = client_id-reads bs h.1 in
    (ap₂ (λ x xs. x ∷ xs) (byte_reads b h.0) r, omega (arith, l))

abbrev text_length : Option (List ℕ) → ℕ
text_length none = 0
text_length (some topic) = length topic

-- For every type of publication and every identity, the array that `mqtt_publish` builds the topic
-- in is too small for the topic and its zero byte.
pub topic_overruns :
    (t : TypePublish) (id : ℕ) (topic : List ℕ)
    → publish_topic t id ≡ some topic
    → topic_size t < length topic + 1
unfolding publish_topic topic_size
topic_overruns type_cmd_default_id id topic e = let l = ap text_length e in omega arith
topic_overruns type_data_default_id id topic e = let l = ap text_length e in omega arith
topic_overruns type_cmd id topic e =
    let l = ap text_length e in omega (arith, l, decimal-length 4 id)
topic_overruns type_data id topic e =
    let l = ap text_length e in omega (arith, l, decimal-length 4 id)
topic_overruns type_other id topic e = ground arith

-- While connected, the publications of a device go to the topic that ends in its identity: for an
-- identity of 16 bits the topic's last part reads back as the identity.
pub mqtt_publish-reads :
    (c : Context) (id : ℕ) (payload : List ℕ) (answer : ℤ)
    → id < 2 ^ 16
    → c.mutex ≡ some false
    → c.module_state ≡ connected
    → (digits : List ℕ) × (read_decimal 0 digits ≡ id)
      × (mqtt_publish type_data id payload answer c
          ≡ ok answer (record c {
            mutex = some false;
            calls = c.calls ++ publish (topic_pub_data ++ digits) payload 0 ∷ [];
          }))
      × (mqtt_publish type_cmd id payload answer c
          ≡ ok answer (record c {
            mutex = some false;
            calls = c.calls ++ publish (topic_pub_cmd ++ digits) payload 0 ∷ [];
          }))
unfolding mqtt_publish publish_topic
mqtt_publish-reads c id payload answer h ready s = (
  decimal 5 id,
  decimal-reads 5 id (omega arith),
  publish_lem c (topic_pub_data ++ decimal 5 id) payload 0 answer ready s,
  publish_lem c (topic_pub_cmd ++ decimal 5 id) payload 0 answer ready s,
)

-- A message before the device has an identity goes to the topic of the default identity.
pub mqtt_publish_default :
    (c : Context) (id : ℕ) (payload : List ℕ) (answer : ℤ)
    → c.mutex ≡ some false
    → c.module_state ≡ connected
    → mqtt_publish type_cmd_default_id id payload answer c
      ≡ ok answer (record c {
        mutex = some false;
        calls = c.calls ++ publish (topic_pub_cmd ++ default_id_device) payload 0 ∷ [];
      })
unfolding mqtt_publish publish_topic
mqtt_publish_default c id payload answer ready s =
    publish_lem c (topic_pub_cmd ++ default_id_device) payload 0 answer ready s
