-- ===== src/Wifi.antt =====
-- The status word, the event handlers and the driver routines of Core/wifi_user.c.
pub mod Status
pub mod Driver
use plhr_firmware.Common.{
  ℕ, zero, suc, ◌+◌, ◌-◌, ◌^◌, Bool, true, false, not, ◌&&◌, Option, none, some, List, [], ◌∷◌,
  ◌++◌, ◌==◌, bit_and, bit_or, if◌then◌else◌, ℤ, pos, negsuc, is_neg, take, drop, length,
}

-- `SET_STATUS_BIT`, `CLR_STATUS_BIT` and `GET_STATUS_BIT` on an unsigned long of 32 bits.
pub set_status_bit : ℕ → ℕ → ℕ
set_status_bit status b = bit_or status (2 ^ b)

pub clr_status_bit : ℕ → ℕ → ℕ
clr_status_bit status b = bit_and status (2 ^ 32 - 1 - 2 ^ b)

unfoldable pub get_status_bit : ℕ → ℕ → Bool
get_status_bit status b = not (bit_and status (2 ^ b) == 0)

-- The positions of `e_StatusBits` that the handlers use.
abbrev pub status_bit_connection : ℕ
status_bit_connection = 1

abbrev pub status_bit_ip_leased : ℕ
status_bit_ip_leased = 2

abbrev pub status_bit_ip_acquired : ℕ
status_bit_ip_acquired = 3

-- The calls of the SimpleLink library that the routines make.
pub data SlCall : Type 0 where
  sl_start sl_stop sl_wlan_set_mode sl_wlan_connect sl_wlan_disconnect sl_wlan_profile_del
        sl_wlan_set sl_wlan_profile_add sl_wlan_policy_set sl_device_stat_start :
      SlCall

-- The globals of the file, the red LED, the handle of the display, and the calls made.
pub record Globals : Type 0 where
  pub status : ℕ
  pub sta_ip : ℕ
  pub gateway_ip : ℕ
  pub connection_ssid : List ℕ
  pub connection_bssid : List ℕ
  pub connect_index : ℕ
  pub led : Bool
  pub display : ℕ
  pub calls : List SlCall

-- The events of the WLAN and of the network application.
pub data WlanEvent : Type 0 where
  wlan_connect : List ℕ → List ℕ → WlanEvent
  wlan_disconnect : ℕ → WlanEvent
  sta_added sta_removed wlan_other : WlanEvent

pub data NetAppEvent : Type 0 where
  ipv4_acquired ipv6_acquired dhcpv4_released netapp_other : NetAppEvent
  dhcpv4_leased : ℕ → NetAppEvent

-- `memcpy` to the front of an array.
abbrev copy_front : List ℕ → List ℕ → List ℕ
copy_front src dst = src ++ drop (length src) dst

-- `SimpleLinkWlanEventHandler`, without the lines that it prints.
pub wlan_event_handler : WlanEvent → Globals → Globals
unfolding set_status_bit clr_status_bit
wlan_event_handler (wlan_connect ssid bssid) g = record g {
  led = true;
  status = set_status_bit g.status status_bit_connection;
  connection_ssid = copy_front ssid g.connection_ssid;
  connection_bssid = copy_front bssid g.connection_bssid;
}
wlan_event_handler (wlan_disconnect reason) g = record g {
  led = false;
  status = clr_status_bit (clr_status_bit g.status status_bit_connection) status_bit_ip_acquired;
}
wlan_event_handler sta_added g = record g { status = set_status_bit g.status status_bit_connection }
wlan_event_handler sta_removed g = record g {
  status = clr_status_bit (clr_status_bit g.status status_bit_connection) status_bit_ip_leased;
}
wlan_event_handler wlan_other g = g

-- `SimpleLinkNetAppEventHandler`, without the lines that it prints.
pub net_app_event_handler : NetAppEvent → Globals → Globals
unfolding set_status_bit clr_status_bit
net_app_event_handler ipv4_acquired g = record g {
  status = set_status_bit g.status status_bit_ip_acquired;
}
net_app_event_handler ipv6_acquired g = record g {
  status = set_status_bit g.status status_bit_ip_acquired;
}
net_app_event_handler (dhcpv4_leased ip) g = record g {
  status = set_status_bit g.status status_bit_ip_leased;
  sta_ip = ip;
}
net_app_event_handler dhcpv4_released g = record g {
  status = clr_status_bit g.status status_bit_ip_leased;
}
net_app_event_handler netapp_other g = g

pub data Event : Type 0 where
  wlan : WlanEvent → Event
  net_app : NetAppEvent → Event

-- The handlers run on the events of the network processor, in order.
pub handle : Event → Globals → Globals
unfolding wlan_event_handler net_app_event_handler
handle (wlan e) g = wlan_event_handler e g
handle (net_app e) g = net_app_event_handler e g

abbrev pub handle_all : List Event → Globals → Globals
handle_all [] g = g
handle_all (e ∷ es) g = handle_all es (handle e g)

-- `IS_CONNECTED` and `IS_IP_ACQUIRED`.
abbrev pub is_connected : Globals → Bool
is_connected g = get_status_bit g.status status_bit_connection

abbrev pub is_ip_acquired : Globals → Bool
is_ip_acquired g = get_status_bit g.status status_bit_ip_acquired

-- `test_wifi_connection`.
pub test_wifi_connection : Globals → ℕ
unfolding get_status_bit
test_wifi_connection g = if is_connected g then 1 else 0

-- `InitializeAppVariables`; an SSID has 33 bytes and a BSSID 6.
pub initialize_app_variables : Globals → Globals
initialize_app_variables g = record g {
  status = 0;
  sta_ip = 0;
  gateway_ip = 0;
  connection_ssid = zeros 33;
  connection_bssid = zeros 6;
}
  where
    zeros : ℕ → List ℕ
    zeros zero = []
    zeros (suc n) = 0 ∷ zeros n

-- `Network_IF_ResetMCUStateMachine`, `Network_IF_SetMCUMachineState` and
-- `Network_IF_UnsetMCUMachineState`.
pub reset_mcu_state_machine : Globals → Globals
reset_mcu_state_machine g = record g { status = 0 }

abbrev pub set_mcu_machine_state : ℕ → Globals → Globals
set_mcu_machine_state stat g = record g { status = set_status_bit g.status stat }

abbrev pub unset_mcu_machine_state : ℕ → Globals → Globals
unset_mcu_machine_state stat g = record g { status = clr_status_bit g.status stat }

-- `Network_IF_setDisplay` and `Network_IF_CurrentMCUState`.
pub set_display : ℕ → Globals → Globals
set_display arg_display g = record g { display = arg_display }

pub current_mcu_state : Globals → ℕ
current_mcu_state g = g.status
