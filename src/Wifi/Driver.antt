-- ===== src/Wifi/Driver.antt =====
-- The routines of Core/wifi_user.c that drive the network processor. While a routine sleeps the
-- event handlers run: `rounds` holds the events of each sleep to come. What SimpleLink answers is
-- an argument.
pub mod Waiting
pub mod Codes
pub mod Starting
use plhr_firmware.Common.{
  ℕ, zero, suc, ◌+◌, ◌-◌, ◌^◌, Bool, true, false, not, ◌&&◌, Option, none, some, List, [], ◌∷◌,
  ◌++◌, ◌==◌, if◌then◌else◌, ℤ, pos, negsuc, is_neg,
}
use plhr_firmware.Wifi.{
  clr_status_bit, status_bit_connection, status_bit_ip_acquired, SlCall, sl_start, sl_stop,
  sl_wlan_set_mode, sl_wlan_connect, sl_wlan_disconnect, sl_wlan_profile_del, sl_wlan_set,
  sl_wlan_profile_add, sl_wlan_policy_set, sl_device_stat_start, Globals, Event, handle_all,
  is_connected, is_ip_acquired, get_status_bit, initialize_app_variables, reset_mcu_state_machine,
}

-- The globals, and the events of the sleeps to come.
pub record World : Type 0 where
  pub globals : Globals
  pub rounds : List (List Event)

-- A routine returns, still waits after the given sleeps, or stays in `LOOP_FOREVER`.
pub data Outcome {ℓ} (A : Type ℓ) : Type ℓ where
  returned : A → World → Outcome A
  waiting : Outcome A
  looping : Outcome A

abbrev pub D {ℓ} : Type ℓ → Type ℓ
D A = World → Outcome A

infixl 5 ◌>>=◌ ◌>>◌
abbrev pub ◌>>=◌ {ℓ κ} : {A : Type ℓ} {B : Type κ} → D A → (A → D B) → D B
◌>>=◌ m f w = elim (m w) [ returned a w' ↦ f a w' | waiting ↦ waiting | looping ↦ looping ]

abbrev pub ◌>>◌ {ℓ} : {B : Type ℓ} → D (Unit {0}) → D B → D B
m >> k = m >>= λ _. k

abbrev pub pure {ℓ} : {A : Type ℓ} → A → D A
pure a w = returned a w

abbrev pub change : (Globals → Globals) → D (Unit {0})
change f w = returned tt (record w { globals = f w.globals })

abbrev pub get : D Globals
get w = returned w.globals w

abbrev pub sl_call : SlCall → D (Unit {0})
sl_call k = change λ g. record g { calls = g.calls ++ k ∷ [] }

-- `while (p) usleep(...)`.
pub wait_while : (Globals → Bool) → Globals → List (List Event) → Outcome (Unit {0})
wait_while p g [] = elim (p g) [
  | true ↦ waiting
  | false ↦ returned tt (record { globals = g; rounds = [] })
]
wait_while p g (r ∷ rs) = elim (p g) [
  | true ↦ wait_while p (handle_all r g) rs
  | false ↦ returned tt (record { globals = g; rounds = r ∷ rs })
]

abbrev pub waits : (Globals → Bool) → D (Unit {0})
waits p w = wait_while p w.globals w.rounds

-- `Network_IF_DisconnectFromAP`; `answer` is the code of `sl_WlanDisconnect`.
pub disconnect_from_ap : ℤ → D ℤ
unfolding wait_while get_status_bit
disconnect_from_ap answer = do
  g ← get
  if is_connected g
      then (do
        sl_call sl_wlan_disconnect
        elim answer [
          | pos zero ↦ (waits is_connected >> pure (pos 0))
          | pos (suc n) ↦ pure (pos (suc n))
          | negsuc n ↦ pure (negsuc n)
        ])
      else pure (pos 0)

-- `Network_IF_DeInitDriver`; `stopped` is the code of `sl_Stop`.
pub deinit_driver : ℤ → ℤ → D ℤ
unfolding disconnect_from_ap reset_mcu_state_machine
deinit_driver answer stopped = do
  _ ← disconnect_from_ap answer
  sl_call sl_stop
  change reset_mcu_state_machine
  pure stopped

-- `wifi_deinit`.
pub wifi_deinit : ℤ → ℤ → D ℤ
unfolding deinit_driver reset_mcu_state_machine
wifi_deinit answer stopped = do change reset_mcu_state_machine; deinit_driver answer stopped

-- A long of 32 bits as an unsigned int.
abbrev as_unsigned : ℤ → ℕ
as_unsigned (pos n) = n
as_unsigned (negsuc n) = 2 ^ 32 - 1 - n

-- `Network_IF_InitDriver`: `role_ap` is `ROLE_AP` of SimpleLink, then the mode, and the codes of
-- the first `sl_Start`, `sl_WlanSetMode` and the second `sl_Start`.
pub init_driver : ℕ → ℕ → ℤ → ℤ → ℤ → D ℤ
unfolding wait_while get_status_bit initialize_app_variables
init_driver role_ap mode started set restarted = do
  change initialize_app_variables
  sl_call sl_start
  if not (mode == as_unsigned started)
      then (do
        sl_call sl_wlan_set_mode
        if is_neg set then pure set else do
          sl_call sl_stop
          sl_call sl_start
          if is_neg restarted
              then pure restarted
              else if mode == as_unsigned restarted
              then (do
                if as_unsigned restarted == role_ap
                    then waits (λ g. not (is_ip_acquired g))
                    else pure tt
                pure (pos 0))
              else (λ _. looping))
      else do
        if as_unsigned started == role_ap then waits (λ g. not (is_ip_acquired g)) else pure tt
        pure (pos 0)

-- The IPv4 configuration of SimpleLink.
pub record IpV4 : Type 0 where
  pub ip : ℕ
  pub ip_mask : ℕ
  pub ip_gateway : ℕ
  pub ip_dns_server : ℕ

-- The four words that `Network_IF_IpConfigGet` gets pointers to.
pub record IpWords : Type 0 where
  pub ip : ℕ
  pub subnet_mask : ℕ
  pub default_gateway : ℕ
  pub dns_server : ℕ

-- `Network_IF_IpConfigGet`; `answer` and `ip_v4` are what `sl_NetCfgGet` gives.
pub ip_config_get : ℤ → IpV4 → IpWords → ℤ × IpWords
ip_config_get answer ip_v4 words = if is_neg answer then (answer, words) else (
  answer,
  (let words = record words { ip = ip_v4.ip } in
      let words = record words { subnet_mask = ip_v4.ip_mask } in
      let words = record words { default_gateway = ip_v4.ip_gateway } in
      record words { default_gateway = ip_v4.ip_dns_server }),
)

-- The loop of `Network_IF_ConnectAP` that waits for the connection and the address.
pub connect_wait : Globals → List (List Event) → Outcome (Unit {0})
unfolding get_status_bit
connect_wait g [] = waiting
connect_wait g (r ∷ rs) =
    let next = handle_all r (record g { led = not g.led }) in
    elim (is_connected next && is_ip_acquired next) [
      | true ↦ returned tt (record { globals = record next { led = true }; rounds = rs })
      | false ↦ connect_wait next rs
    ]

abbrev pub clear_connection : Globals → Globals
clear_connection g = record g {
  status = clr_status_bit (clr_status_bit g.status status_bit_connection) status_bit_ip_acquired;
}

-- `Network_IF_ConnectAP`: whether there is an SSID, then the codes of `sl_WlanDisconnect`,
-- `sl_WlanConnect` and `Network_IF_IpConfigGet`.
pub connect_ap : Bool → ℤ → ℤ → ℤ → D ℤ
unfolding disconnect_from_ap connect_wait clr_status_bit
connect_ap has_ssid disconnected connecting configured = do
  change λ g. record g { connect_index = 0 }
  _ ← disconnect_from_ap disconnected
  change clear_connection
  if has_ssid
      then (do
        sl_call sl_wlan_connect
        if is_neg connecting then pure connecting else do
          change λ g. record g { led = true }
          (λ (w : World). connect_wait w.globals w.rounds)
          pure (if is_neg configured then configured else pos 0))
      else pure (negsuc 0)

-- `wifi_connect`: the codes of `Network_IF_ConnectAP`'s calls, and of `sl_DeviceStatStart`.
pub wifi_connect : ℤ → ℤ → ℤ → ℤ → D ℤ
unfolding connect_ap
wifi_connect disconnected connecting configured stat = do
  sl_call sl_wlan_profile_del
  sl_call sl_wlan_set
  _ ← connect_ap true disconnected connecting configured
  sl_call sl_wlan_profile_add
  sl_call sl_wlan_policy_set
  sl_call sl_wlan_policy_set
  sl_call sl_device_stat_start
  pure stat

-- `wifi_init`: `role_sta` and `role_ap`, and the codes of the calls.
pub wifi_init : ℕ → ℕ → ℤ → ℤ → ℤ → ℤ → ℤ → D ℤ
unfolding deinit_driver init_driver reset_mcu_state_machine
wifi_init role_sta role_ap answer stopped started set restarted = do
  change reset_mcu_state_machine
  _ ← deinit_driver answer stopped
  init_driver role_ap role_sta started set restarted
