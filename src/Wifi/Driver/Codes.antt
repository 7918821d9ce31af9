-- ===== src/Wifi/Driver/Codes.antt =====
-- The codes that the driver routines return, and what they write.
use plhr_firmware.Common.{
  ◌++◌, ℕ, ◌≡◌, refl, ◌≢◌, false, Option, none, some, [], ◌∷◌, ◌++◌, ==_refl, ==_ne, ℤ, pos, negsuc,
  arith,
}
use plhr_firmware.Wifi.{
  sl_start, sl_stop, initialize_app_variables, get_status_bit, sl_wlan_profile_del, sl_wlan_set,
  sl_wlan_connect, sl_wlan_profile_add, sl_wlan_policy_set, sl_device_stat_start, is_connected,
}
use plhr_firmware.Wifi.Driver.{
  wifi_init, World, Outcome, returned, waiting, looping, init_driver, IpV4, IpWords, ip_config_get,
  wifi_connect, connect_ap, clear_connection,
}
use plhr_firmware.Wifi.Driver.Waiting.{disconnected}

-- `Network_IF_IpConfigGet` leaves all four words on a failure. Otherwise it sets the address and
-- the mask, writes the DNS server's address over the gateway's, and never writes the word for the
-- DNS server.
pub ip_config_get_lem :
    (k : ℕ) (ip_v4 : IpV4) (words : IpWords)
    → (ip_config_get (negsuc k) ip_v4 words ≡ (negsuc k, words))
      × (ip_config_get (pos k) ip_v4 words ≡ (
        pos k,
        record words {
          ip = ip_v4.ip;
          subnet_mask = ip_v4.ip_mask;
          default_gateway = ip_v4.ip_dns_server;
        },
      ))
unfolding ip_config_get
ip_config_get_lem k ip_v4 words = (refl, refl)

-- The code that a routine returns.
abbrev pub code_of : Outcome ℤ → Option ℤ
code_of (returned code w) = some code
code_of waiting = none
code_of looping = none

-- For a mode other than access point, `Network_IF_InitDriver` never waits. It returns 0 where the
-- device comes up in the mode, or is set to it and comes up in it on the second start; a failing
-- mode change or second start is returned as its code; a device that comes up in another mode again
-- is never left.
pub init_driver_station :
    (role_ap mode other again k j : ℕ) (w : World) (set restarted : ℤ)
    → mode ≢ role_ap
    → mode ≢ other
    → mode ≢ again
    → (code_of (init_driver role_ap mode (pos mode) set restarted w) ≡ some (pos 0))
      × (code_of (init_driver role_ap mode (pos other) (negsuc k) restarted w) ≡ some (negsuc k))
      × (code_of (init_driver role_ap mode (pos other) (pos k) (negsuc j) w) ≡ some (negsuc j))
      × (code_of (init_driver role_ap mode (pos other) (pos k) (pos mode) w) ≡ some (pos 0))
      × (init_driver role_ap mode (pos other) (pos k) (pos again) w ≡ looping)
unfolding init_driver
init_driver_station role_ap mode other again k j w set restarted ne differs differs_again =
    let same = ==_refl mode in
    let no_ap = ==_ne mode role_ap ne in
    let no_other = ==_ne mode other differs in
    (
      ground (arith, same, no_ap),
      ground (arith, no_other),
      ground (arith, no_other),
      ground (arith, same, no_ap, no_other),
      ground (arith, no_other, ==_ne mode again differs_again),
    )

-- Without a connection before, `wifi_connect` returns the code of the statistics, also where
-- `sl_WlanConnect` refuses the access point, and then still adds the profile and the policies.
pub wifi_connect_hides_failure :
    (w : World) (k : ℕ) (d configured stat : ℤ)
    → is_connected w.globals ≡ false
    → wifi_connect d (negsuc k) configured stat w
      ≡ returned stat (record w {
        globals = record (clear_connection (record w.globals { connect_index = 0 })) {
          calls =
              w.globals.calls
              ++ sl_wlan_profile_del ∷ []
              ++ sl_wlan_set ∷ []
              ++ sl_wlan_connect ∷ []
              ++ sl_wlan_profile_add ∷ []
              ++ sl_wlan_policy_set ∷ []
              ++ sl_wlan_policy_set ∷ []
              ++ sl_device_stat_start ∷ [];
        };
      })
unfolding wifi_connect connect_ap
wifi_connect_hides_failure w k d configured stat down =
    let idle : World = record w {
      globals = record w.globals {
        connect_index = 0;
        calls = (w.globals.calls ++ sl_wlan_profile_del ∷ []) ++ sl_wlan_set ∷ [];
      };
    } in
    let first = disconnected idle d down in ground (arith, first)

-- `wifi_init`, where the device comes up as a station, returns 0 with the file's variables reset.
-- Its only calls are `sl_Stop` and `sl_Start`: like `wifi_deinit` it clears the status word before
-- it looks for a connection.
pub wifi_init_station :
    (role_sta role_ap : ℕ) (w : World) (answer stopped set restarted : ℤ)
    → role_sta ≢ role_ap
    → wifi_init role_sta role_ap answer stopped (pos role_sta) set restarted w
      ≡ returned (pos 0) (record w {
        globals = record (initialize_app_variables w.globals) {
          calls = (w.globals.calls ++ sl_stop ∷ []) ++ sl_start ∷ [];
        };
      })
unfolding wifi_init initialize_app_variables get_status_bit
wifi_init_station role_sta role_ap w answer stopped set restarted ne =
    rw (==_refl role_sta) (rw (==_ne role_sta role_ap ne) refl)
