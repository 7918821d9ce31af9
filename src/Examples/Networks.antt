-- ===== src/Examples/Networks.antt =====
-- The theorems about Core/wifi_user.c at concrete events and answers.
use plhr_firmware.Common.{◌≡◌, false, List, [], ◌∷◌}
use plhr_firmware.Wifi.{
  Globals, wlan_connect, ipv4_acquired, Event, wlan, net_app, handle_all, test_wifi_connection,
}
use plhr_firmware.Wifi.Status.{flags, meaning_all, handle_all-flags}
use plhr_firmware.Wifi.Driver.{World, IpV4, IpWords}

abbrev pub offline : Globals
offline = record {
  status = 0;
  sta_ip = 0;
  gateway_ip = 0;
  connection_ssid = [];
  connection_bssid = [];
  connect_index = 0;
  led = false;
  display = 0;
  calls = [];
}

abbrev pub joining : List Event
joining = wlan (wlan_connect [] []) ∷ net_app ipv4_acquired ∷ []

handle_all-flags_example :
    (flags (handle_all joining offline) ≡ meaning_all joining (flags offline))
    × (test_wifi_connection (handle_all joining offline) ≡ 1)
handle_all-flags_example = handle_all-flags joining offline

abbrev pub world : World
world = record { globals = offline; rounds = [] ∷ joining ∷ [] ∷ [] }

abbrev ip_v4 : IpV4
ip_v4 = record { ip = 1; ip_mask = 2; ip_gateway = 3; ip_dns_server = 4 }

abbrev words : IpWords
words = record { ip = 0; subnet_mask = 0; default_gateway = 0; dns_server = 0 }
