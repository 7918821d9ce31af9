-- ===== src/Startup/MainThread.antt =====
-- `mainThread` of Core/empty.c from its first semaphore to the loop that ends it, over the parts
-- that it starts. The codes of most of its calls are only logged. What the system, SimpleLink and
-- the MQTT library answer is an argument.
pub mod Reached
pub mod Refused
use plhr_firmware.Common.{ℕ, Bool, Option, List, ℤ}
use plhr_firmware.Acquisition.{State}
use plhr_firmware.Acquisition.Start.{init_drivers, start_acquisition}
use plhr_firmware.Acquisition.Interrupts.{Table}
use plhr_firmware.Wifi.Driver.{World, D, returned, waiting, looping, ◌>>=◌, wifi_init, wifi_connect}
use plhr_firmware.Mqtt.Context.{Event, Context, ok, fault, hang, out_of_fuel}
use plhr_firmware.Mqtt.Session.{InitAnswers, ClientParams}
use plhr_firmware.Mqtt.Device.{Device}
use plhr_firmware.Mqtt.Commands.{answered, asking, bad_read}
use plhr_firmware.Mqtt.Client.{ConnectAnswers}
use plhr_firmware.Startup.{Started, connecting, asked, main_session}
use plhr_firmware.Startup.Threads.{
  Semaphore, Thread, Codes, Created, create_semaphores, create_threads,
}

-- The state of every part: the network processor's driver, the session, the device, the acquisition
-- with its driver calls, and the table of interrupts.
pub record Platform : Type 0 where
  pub network : World
  pub session : Context
  pub device : Device
  pub acquisition : State
  pub interrupts : Table

-- What is answered to `wifi_init` and `wifi_connect`, with the two roles of SimpleLink.
pub record NetworkAnswers : Type 0 where
  pub role_sta : ℕ
  pub role_ap : ℕ
  pub disconnected : ℤ  -- in `wifi_init`
  pub disconnected_again : ℤ  -- in `wifi_connect`
  pub stopped : ℤ
  pub started : ℤ
  pub mode_set : ℤ
  pub restarted : ℤ
  pub connecting : ℤ
  pub configured : ℤ
  pub statistics : ℤ

-- What is answered from `mqtt_init` to `ask_for_id`, and the sleeps with what arrives in them.
pub record SessionAnswers : Type 0 where
  pub init : InitAnswers
  pub place : Option ℕ
  pub string : Bool
  pub subscribed : ℤ
  pub params : ClientParams
  pub connect : ConnectAnswers
  pub subscribe : List ℕ → ℤ
  pub fuel : ℕ
  pub sleeps : List (List Event)
  pub published : ℕ → ℤ
  pub mac_address : List ℕ
  pub id_sleeps : List (List (List ℕ))

pub record Answers : Type 0 where
  pub network : NetworkAnswers
  pub session : SessionAnswers
  pub semaphores : Semaphore → Bool
  pub interrupt : Option ℕ  -- the handle of `HwiP_create`
  pub threads : Thread → Codes

-- Where `mainThread` stands.
pub data Progress : Type 0 where
  network_waits network_loops : Progress
  session_faults session_hangs session_lacks_fuel : Progress
  -- In `mqtt_connect` and in `ask_for_id`, after a number of sleeps.
  session_waits identity_waits : ℕ → Platform → Progress
  identity_misread : Progress
  running : Platform → Created → Progress

-- `wifi_init` and `wifi_connect`.
pub start_network : NetworkAnswers → D ℤ
start_network a =
    wifi_init a.role_sta a.role_ap a.disconnected a.stopped a.started a.mode_set a.restarted
    >>= λ _. wifi_connect a.disconnected_again a.connecting a.configured a.statistics

-- What follows `ask_for_id`: the configuration, the start of the acquisition, and the threads.
pub start_device : ℕ → ℕ → Answers → Platform → Created → Progress
start_device channel int_adc a p created =
    let (s, table) = start_acquisition channel int_adc a.interrupt (p.acquisition, p.interrupts) in
    running (record p { acquisition = s; interrupts = table }) (create_threads a.threads created)

-- After the session: the device starts once `ask_for_id` has returned.
pub after_session : ℕ → ℕ → Answers → Platform → Created → Started → Progress
unfolding start_device
after_session channel int_adc a p created (connecting n) = session_waits n p
after_session channel int_adc a p created (asked (asking n)) = identity_waits n p
after_session channel int_adc a p created (asked bad_read) = identity_misread
after_session channel int_adc a p created (asked (answered code d n)) =
    start_device channel int_adc a (record p { device = d }) created

-- From `mqtt_init` on.
pub after_network : ℕ → ℕ → Answers → Platform → Created → Progress
unfolding after_session
after_network channel int_adc a p created =
    let q = a.session in
    elim (main_session q.init q.place q.string q.subscribed q.params q.connect q.subscribe q.fuel
      q.sleeps q.published q.mac_address q.id_sleeps p.device p.session) [
        | ok r c ↦ after_session channel int_adc a (record p { session = c }) created r
        | fault ↦ session_faults
        | hang ↦ session_hangs
        | out_of_fuel ↦ session_lacks_fuel
      ]

-- `mainThread` up to its loop, for the channel `ADC_CHANNEL_ID` and the interrupt `INT_ADC`.
-- `ti_net_SlNet_initConfig`, which comes before `wifi_init`, is generated, and its code is logged.
pub main_thread : ℕ → ℕ → Answers → Platform → Progress
unfolding start_network after_network
main_thread channel int_adc a p =
    let created = create_semaphores a.semaphores in
    let p = record p {
      device = record p.device { mqtt_connected = 0 };
      acquisition = init_drivers p.acquisition;
    } in
    elim (start_network a.network p.network) [
      | returned code w ↦ after_network channel int_adc a (record p { network = w }) created
      | waiting ↦ network_waits
      | looping ↦ network_loops
    ]
