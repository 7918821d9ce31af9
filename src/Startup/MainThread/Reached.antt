-- ===== src/Startup/MainThread/Reached.antt =====
-- The whole start, from the first semaphore to the loop of `mainThread`.
use plhr_firmware.Common.{
  ℕ, suc, ◌<◌, ◌≡◌, refl, ◌≢◌, subst, Bool, true, false, some, List, [], ◌∷◌, ◌++◌, is_neg, ℤ, pos,
  length, replicate, ◌==◌,
}
use plhr_firmware.Acquisition.Start.{init_drivers, start_acquisition, start_acquisition_lem}
use plhr_firmware.Acquisition.Interrupts.{Handler, Table, interrupt_config}
use plhr_firmware.Acquisition.Channel.{Channel, apply_calls}
use plhr_firmware.Acquisition.Channel.PingPong.{IsArmed}
use plhr_firmware.Wifi
use plhr_firmware.Wifi.{Globals, is_connected, is_ip_acquired}
use plhr_firmware.Wifi.Driver.{World, returned}
use plhr_firmware.Wifi.Driver.Waiting.{after_up}
use plhr_firmware.Wifi.Driver.Starting.{offline, Comes, network_starts}
use plhr_firmware.Mqtt.Context.{connected, Event, connack, Context, initial, ok}
use plhr_firmware.Mqtt.Session.{InitAnswers, ClientParams}
use plhr_firmware.Mqtt.Session.Subscribing.{IsWell, entry}
use plhr_firmware.Mqtt.Device.{Device}
use plhr_firmware.Mqtt.Device.Identity.{resp_id, mac}
use plhr_firmware.Mqtt.Commands.{answered}
use plhr_firmware.Mqtt.Commands.Asking.{AllIgnored}
use plhr_firmware.Mqtt.Client.{topic_1, cmd_zero_callback}
use plhr_firmware.Mqtt.Client.Reconnection.{IsGiven, accepts}
use plhr_firmware.Startup.{asked, main_session}
use plhr_firmware.Startup.Session.{main_session_lem}
use plhr_firmware.Startup.Threads.{
  Thread, Semaphore, Codes, Created, create_semaphores, create_threads,
}
use plhr_firmware.Startup.Threads.Reported.{keep, threads, running-create_threads}
use plhr_firmware.Startup.MainThread.{
  Platform, NetworkAnswers, SessionAnswers, Answers, running, start_network, start_acquisition,
  start_device, after_session, after_network, main_thread, Progress,
}

-- A broker that accepts the session, and a server that answers the device: `waits` sleeps pass
-- before the acknowledgement, and those of `quiet` before the answer.
pub record Host : Type 0 where
  pub init : InitAnswers
  pub place : ℕ
  pub code : ℕ
  pub fuel : ℕ
  pub waits : ℕ
  pub subscribed : ℤ
  pub params : ClientParams
  pub subscribe : List ℕ → ℤ
  pub sleeps : List (List Event)
  pub published : ℕ → ℤ
  pub m0 : ℕ
  pub m1 : ℕ
  pub m2 : ℕ
  pub m3 : ℕ
  pub m4 : ℕ
  pub m5 : ℕ
  pub id : ℕ
  pub quiet : List (List (List ℕ))
  pub id_sleeps : List (List (List ℕ))

abbrev pub mac_of : Host → List ℕ
mac_of b = mac b.m0 b.m1 b.m2 b.m3 b.m4 b.m5

abbrev pub answers_of : Host → SessionAnswers
answers_of b = record {
  init = b.init;
  place = some b.place;
  string = true;
  subscribed = b.subscribed;
  params = b.params;
  connect = accepts b.code;
  subscribe = b.subscribe;
  fuel = b.fuel;
  sleeps = replicate b.waits [] ++ (connack ∷ []) ∷ b.sleeps;
  published = b.published;
  mac_address = mac_of b;
  id_sleeps = b.quiet ++ (resp_id (mac_of b) b.id ∷ []) ∷ b.id_sleeps;
}

-- The device with its identity.
abbrev pub identified : Host → Device
identified b = record { id_device = b.id; mac_address = mac_of b; mqtt_connected = 1 }

-- What `mainThread` has brought about when it enters its loop: the network is there, with the
-- events of `rest` still to come; the session has the command topic as its only subscription; the
-- device has its identity; both control structures of the uDMA channel run, whatever the channel
-- was before; and the interrupt stands in the first entry of the table.
pub record IsUp (int_adc handle : ℕ) (b : Host) (rest : List (List Wifi.Event)) (others : Table)
    (q : Platform) : Type 0 where
  pub associated : is_connected q.network.globals ≡ true
  pub addressed : is_ip_acquired q.network.globals ≡ true
  pub to_come : q.network.rounds ≡ rest
  pub subscribed : IsWell q.session (entry b.place topic_1 0 cmd_zero_callback ∷ [])
  pub online : q.session.module_state ≡ connected
  pub named : q.device ≡ identified b
  pub armed : (ch : Channel) → IsArmed 0 q.acquisition (apply_calls q.acquisition.calls ch)
  pub handled :
      q.interrupts ≡ record { interrupt_num = int_adc; handle = handle } ∷ interrupt_config others

module _ (channel int_adc handle : ℕ) (net : NetworkAnswers) (b : Host) (found : Semaphore → Bool)
    (codes : Thread → Codes) (p : Platform) (h : Handler) (others : Table) where
  abbrev answers : Answers
  answers = record {
    network = net;
    session = answers_of b;
    semaphores = found;
    interrupt = some handle;
    threads = codes;
  }

  network_then :
      (w : World) (code : ℤ) (r : Progress)
      → start_network net p.network ≡ returned code w
      → after_network channel int_adc answers
          (record p {
            network = w;
            device = record p.device { mqtt_connected = 0 };
            acquisition = init_drivers p.acquisition;
          })
          (create_semaphores found)
        ≡ r
      → main_thread channel int_adc answers p ≡ r
  unfolding main_thread
  network_then w code r e k = rw (e, main_thread) k

  session_then :
      (q : Platform) (created : Created) (d : Device) (code : ℤ) (n : ℕ) (c : Context)
      → let a = answers_of b in
        main_session a.init a.place a.string a.subscribed a.params a.connect a.subscribe a.fuel
            a.sleeps a.published a.mac_address a.id_sleeps q.device q.session
          ≡ ok (asked (answered code d n)) c
        → after_network channel int_adc answers q created
          ≡ start_device channel int_adc answers (record q { session = c; device = d }) created
  unfolding after_session after_network
  session_then q created d code n c e = rw (e, after_network) refl

  -- `mainThread` reaches its loop from the static initialiser of the session, without driver calls
  -- before, with an entry in the table of interrupts, where: the network processor runs as a
  -- station, whose role is not the access point's, and the codes of `sl_WlanConnect` and the
  -- configuration are not negative; at the end of a sleep there are a connection and an address;
  -- the system and the MQTT library give what is asked, and the broker accepts the command topic;
  -- and the server's answer to the device's MAC address is not 255, and the commands before it
  -- leave the device as it is. The network, the session, the identity, the uDMA channel and the
  -- interrupt are then up, and the threads that run are those whose creation answers 0.
  pub main_thread_lem :
      (rest : List (List Wifi.Event))
      → net.role_sta ≢ net.role_ap
      → net.started ≡ pos net.role_sta
      → is_neg net.connecting ≡ false
      → is_neg net.configured ≡ false
      → after_up p.network.rounds offline ≡ some rest
      → IsGiven b.init
      → b.place ≢ 0
      → is_neg (b.subscribe topic_1) ≡ false
      → 1 < b.fuel
      → b.id ≢ 255
      → AllIgnored (record (identified b) { id_device = 255 }) b.quiet
      → p.session ≡ initial
      → p.acquisition.calls ≡ []
      → p.interrupts ≡ h ∷ others
      → (q : Platform) × (main_thread channel int_adc answers p
          ≡ running q (create_threads codes (create_semaphores found)))
        × IsUp int_adc handle b rest others q
        × ((create_threads codes (create_semaphores found)).running
            ≡ keep (λ t. (codes t).create == 0) threads)
  unfolding start_device start_network
  main_thread_lem rest apart station going configuring up given place good fuel named quiet fresh
        no_calls table =
      let d = record p.device { mqtt_connected = 0 } in
      let (c, e, well, online, _) =
        main_session_lem b.init b.place b.code b.fuel b.waits b.subscribed b.params b.subscribe
          b.sleeps b.published b.m0 b.m1 b.m2 b.m3 b.m4 b.m5 b.id b.quiet b.id_sleeps d given place
          good fuel refl named quiet in
      let (g, comes, associated, addressed, _) =
        subst (λ r. Comes r net.statistics (start_network net p.network)) up
          (network_starts net.role_sta net.role_ap net.disconnected net.stopped net.started
            net.mode_set net.restarted net.disconnected_again net.connecting net.configured
            net.statistics p.network apart station going configuring) in
      let w : World = record { globals = g; rounds = rest } in
      let (s, now) =
        start_acquisition channel int_adc (some handle)
          (init_drivers p.acquisition, p.interrupts) in
      let started = start_acquisition_lem channel int_adc handle p.acquisition h others no_calls in
      let begun : Platform = record p {
        network = w;
        device = d;
        acquisition = init_drivers p.acquisition;
      } in
      let q : Platform = record {
        network = w;
        session = c;
        device = identified b;
        acquisition = s;
        interrupts = now;
      } in
      let e' =
        session_then begun (create_semaphores found) (identified b) (b.published (length b.quiet))
          (suc (length b.quiet)) c (rw fresh e) in
      (
        q,
        network_then w net.statistics _ comes e',
        record {
          associated = associated;
          addressed = addressed;
          to_come = refl;
          subscribed = well;
          online = online;
          named = refl;
          armed = rw table (started.0);
          handled = rw table (started.1);
        },
        running-create_threads found codes,
      )
