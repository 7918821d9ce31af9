-- ===== src/Startup.antt =====
-- The part of `mainThread` of Core/empty.c that takes the device to its session and its identity.
pub mod Session
pub mod Threads
pub mod MainThread
use plhr_firmware.Common.{ℕ, Bool, Option, List, ℤ, pos}
use plhr_firmware.Mqtt.Context.{Event, M, ◌>>=◌, pure}
use plhr_firmware.Mqtt.Session.{InitAnswers, ClientParams}
use plhr_firmware.Mqtt.Device.{Device}
use plhr_firmware.Mqtt.Commands.{Asked, ask_for_id}
use plhr_firmware.Mqtt.Client.{
  mqtt_init, mqtt_subscribe, Connecting, returned, waiting, ConnectAnswers, mqtt_connect,
}

-- Where the start stands: `mqtt_connect` still waits after a number of sleeps, or `ask_for_id` has
-- come to something.
pub data Started : Type 0 where
  connecting : ℕ → Started
  asked : Asked → Started

-- After the connection the MAC address is read, and the device asks for its identity.
pub identify : (ℕ → ℤ) → List ℕ → List (List (List ℕ)) → Connecting → M Started
identify published mac_address id_sleeps (waiting n) = pure (connecting n)
identify published mac_address id_sleeps (returned code d n) = do
  a ← ask_for_id published id_sleeps (record d { mac_address = mac_address })
  pure (asked a)

-- `mainThread` from `mqtt_init` to `ask_for_id`. The codes of its calls are only logged.
-- `mac_address` is what `sl_NetCfgGet` writes, `sleeps` holds what arrives while it waits for the
-- connection, and `id_sleeps` the commands that arrive while it asks.
pub main_session :
    InitAnswers
    → Option ℕ
    → Bool
    → ℤ
    → ClientParams
    → ConnectAnswers
    → (List ℕ → ℤ)
    → ℕ
    → List (List Event)
    → (ℕ → ℤ)
    → List ℕ
    → List (List (List ℕ))
    → Device
    → M Started
unfolding identify
main_session init place string subscribed params a answer fuel sleeps published mac_address
      id_sleeps d =
    do
      _ ← mqtt_init init
      _ ← mqtt_subscribe place string subscribed
      r ← mqtt_connect params a answer fuel sleeps d
      identify published mac_address id_sleeps r
