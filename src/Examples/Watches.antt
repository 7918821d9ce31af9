-- ===== src/Examples/Watches.antt =====
-- The theorems about the watching threads at concrete readings.
use plhr_firmware.Common.{ℕ, ◌≡◌, refl, true, some, List, [], ◌∷◌, pos}
use plhr_firmware.Watch.{WifiWatch}
use plhr_firmware.Watch.Supervising.{ConnectCodes, test_wifi}
use plhr_firmware.Watch.Supervising.Recovery.{connection_recovers}
use plhr_firmware.Wifi.{Globals, wlan_disconnect, Event, wlan, handle_all, is_connected}
use plhr_firmware.Wifi.Driver.{returned}
use plhr_firmware.Examples.Networks.{offline, joining}

abbrev watch : WifiWatch
watch = record { send_data = 1; reconnections = 0 }

abbrev willing : ℕ → ConnectCodes
willing n = record {
  disconnected = pos 0;
  connecting = pos 0;
  configured = pos 0;
  statistics = pos 0;
}

abbrev lost : List Event
lost = wlan (wlan_disconnect 0) ∷ []

connection_recovers_example :
    (g' : Globals) × (test_wifi willing 3 1 watch
        (record { globals = offline; rounds = lost ∷ [] ∷ joining ∷ [] ∷ [] })
      ≡ returned
          (some (record { send_data = 0; reconnections = 1 }))
          (record { globals = g'; rounds = [] ∷ [] }))
    × (test_wifi willing 3 2 watch
          (record { globals = offline; rounds = lost ∷ [] ∷ joining ∷ [] ∷ [] })
        ≡ returned
            (some (record { send_data = 1; reconnections = 1 }))
            (record { globals = handle_all [] g'; rounds = [] }))
    × (is_connected (handle_all [] g') ≡ true)
connection_recovers_example =
    connection_recovers willing 2 watch offline lost [] [] (joining ∷ [] ∷ []) [] (refl, refl) refl
      refl refl (λ f up. up)

-- The events of the sleeps to come: another disconnection is not among them.
abbrev quiet : List (List Event)
quiet = [] ∷ joining ∷ [] ∷ []
