-- ===== src/Startup/MainThread/Refused.antt =====
-- `mainThread` where the access point and the broker cannot be reached.
use plhr_firmware.Common.{
  ℕ, ◌≡◌, refl, ◌≢◌, true, false, ◌∷◌, ◌++◌, some, [], is_neg, pos, negsuc, replicate,
}
use plhr_firmware.Wifi.Driver.Starting.{init_calls, refused_calls, network_refused}
use plhr_firmware.Wifi.{is_connected}
use plhr_firmware.Acquisition.Start.{init_drivers}
use plhr_firmware.Mqtt.Context.{initialized, create, connect, initial, ok}
use plhr_firmware.Mqtt.Session.{client_options}
use plhr_firmware.Mqtt.Client.Connection.{answers}
use plhr_firmware.Mqtt.Client.Reconnection.{IsGiven}
use plhr_firmware.Startup.{connecting, main_session}
use plhr_firmware.Startup.Session.{main_session_refused}
use plhr_firmware.Startup.MainThread.{
  Platform, SessionAnswers, Answers, session_waits, start_network, after_session, after_network,
  main_thread,
}

-- The answers of a library that refuses the connection, and `k` sleeps in which nothing arrives.
abbrev pub refusing : ℕ → ℕ → ℕ → SessionAnswers → SessionAnswers
refusing place code k q = record q {
  place = some place;
  string = true;
  connect = answers (negsuc code);
  sleeps = replicate k [];
}

-- Where the network processor runs as a station, and `sl_WlanConnect` fails, and the MQTT library,
-- given what it asks of the system, refuses the connection, `mainThread` goes on to `mqtt_connect`
-- and waits there through any number of sleeps in which nothing arrives. Over all of them it has
-- asked SimpleLink for one connection and the MQTT library for one, there is no connection, the
-- module is initialised, the acquisition has come no further than the opening of its drivers, and
-- the table of interrupts is as it was.
pub main_thread_refused :
    (channel int_adc place code k : ℕ) (a : Answers) (p : Platform)
    → a.network.role_sta ≢ a.network.role_ap
    → a.network.started ≡ pos a.network.role_sta
    → is_neg a.network.connecting ≡ true
    → IsGiven a.session.init
    → place ≢ 0
    → p.session ≡ initial
    → (q : Platform) × (main_thread channel int_adc
          (record a { session = refusing place code k a.session })
          p
        ≡ session_waits k q)
      × (q.network.globals.calls ≡ p.network.globals.calls ++ (init_calls ++ refused_calls))
      × (is_connected q.network.globals ≡ false)
      × (q.session.calls ≡ (create ∷ client_options a.session.params) ++ connect ∷ [])
      × (q.session.module_state ≡ initialized)
      × (q.acquisition ≡ init_drivers p.acquisition)
      × (q.interrupts ≡ p.interrupts)
unfolding start_network main_thread
main_thread_refused channel int_adc place code k a p apart station refused given nz fresh =
    let net = a.network in
    let q = a.session in
    let (g, comes, down, asked) =
      network_refused net.role_sta net.role_ap net.disconnected net.stopped net.started net.mode_set
        net.restarted net.disconnected_again net.connecting net.configured net.statistics p.network
        apart station refused in
    let (c, e, state, calls) =
      main_session_refused q.init place code q.fuel k q.subscribed q.params q.subscribe q.published
        q.mac_address q.id_sleeps (record p.device { mqtt_connected = 0 }) given nz refl in
    let e' : main_session q.init (some place) true q.subscribed q.params (answers (negsuc code))
          q.subscribe q.fuel (replicate k []) q.published q.mac_address q.id_sleeps
          (record p.device { mqtt_connected = 0 }) p.session
        ≡ ok (connecting k) c =
      rw fresh e in
    let left : Platform = record p {
      network = record p.network { globals = g };
      session = c;
      device = record p.device { mqtt_connected = 0 };
      acquisition = init_drivers p.acquisition;
    } in
    (
      left,
      rw (comes, e', main_thread, after_network, after_session) refl,
      asked,
      down,
      calls,
      state,
      refl,
      refl,
    )
