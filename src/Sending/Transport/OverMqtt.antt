-- ===== src/Sending/Transport/OverMqtt.antt =====
-- The MQTT session while it is connected, as the transport of `send_data`.
use plhr_firmware.Common.{
  ℕ, ◌^◌, ◌<◌, ◌≡◌, refl, ap, false, Option, none, some, List, [], ◌∷◌, ◌++◌, ℤ,
}
use plhr_firmware.Mqtt.Context.{connected, ClientCall, publish, Context, Result, ok}
use plhr_firmware.Mqtt.Device.{type_data, mqtt_publish}
use plhr_firmware.Mqtt.Device.Publishing.{mqtt_publish-reads}
use plhr_firmware.Sending.Transport.{Transport}

-- The payloads of the publications among calls of the library.
abbrev pub payloads : List ClientCall → List (List ℕ)
payloads [] = []
payloads (ClientCall.publish topic payload flags ∷ ks) = payload ∷ payloads ks
payloads (_ ∷ ks) = payloads ks

payloads-publish :
    (ks : List ClientCall) (topic payload : List ℕ) (flags : ℕ)
    → payloads (ks ++ publish topic payload flags ∷ []) ≡ payloads ks ++ payload ∷ []
payloads-publish [] topic payload flags = refl
payloads-publish (ClientCall.create ∷ ks) t p f = payloads-publish ks t p f
payloads-publish (ClientCall.set_will ∷ ks) t p f = payloads-publish ks t p f
payloads-publish (ClientCall.set_username ∷ ks) t p f = payloads-publish ks t p f
payloads-publish (ClientCall.set_password ∷ ks) t p f = payloads-publish ks t p f
payloads-publish (ClientCall.set_clean_connect ∷ ks) t p f = payloads-publish ks t p f
payloads-publish (ClientCall.set_keepalive ∷ ks) t p f = payloads-publish ks t p f
payloads-publish (ClientCall.connect ∷ ks) t p f = payloads-publish ks t p f
payloads-publish (ClientCall.disconnect ∷ ks) t p f = payloads-publish ks t p f
payloads-publish (ClientCall.subscribe _ ∷ ks) t p f = payloads-publish ks t p f
payloads-publish (ClientCall.unsubscribe _ ∷ ks) t p f = payloads-publish ks t p f
payloads-publish (ClientCall.publish _ q _ ∷ ks) t p f = ap (λ r. q ∷ r) (payloads-publish ks t p f)

abbrev pub IsOnline : Context → Type 0
IsOnline c = (c.mutex ≡ some false) × (c.module_state ≡ connected)

abbrev pub left : Result ℤ → Option Context
left (ok _ c) = some c
left _ = none

-- `mqtt_publish(TYPE_DATA, ...)`; `answer` is the library's code for a payload.
abbrev pub publish_data : ℕ → (List ℕ → ℤ) → List ℕ → Context → Option Context
publish_data id answer p c = left (mqtt_publish type_data id p (answer p) c)

pub publish_data_lem :
    (id : ℕ) (answer : List ℕ → ℤ)
    → id < 2 ^ 16
    → (p : List ℕ) (c : Context) → IsOnline c
    → (c' : Context) × (publish_data id answer p c ≡ some c')
      × IsOnline c'
      × (payloads c'.calls ≡ payloads c.calls ++ p ∷ [])
publish_data_lem id answer small p c (ready, online) =
    let (digits, _, runs, _) = mqtt_publish-reads c id p (answer p) small ready online in
    (_, ap left runs, (refl, online), payloads-publish c.calls _ p 0)

-- A device with an identity publishes on its data topic.
abbrev pub over_mqtt : (id : ℕ) → (List ℕ → ℤ) → id < 2 ^ 16 → Transport
over_mqtt id answer small = record {
  State = Context;
  IsReady = IsOnline;
  send = publish_data id answer;
  delivered = λ c. payloads c.calls;
  send_lem = publish_data_lem id answer small;
}
