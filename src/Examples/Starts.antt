-- ===== src/Examples/Starts.antt =====
-- The theorems about the beginning and the threads of a session at concrete inputs.
use plhr_firmware.Common.{
  Bool, ◌↔◌, ℕ, ◌≡◌, refl, true, false, none, some, List, [], ◌∷◌, ◌++◌, replicate, ℤ, pos, negsuc,
  arith, ◌==◌, if◌then◌else◌,
}
use plhr_firmware.Mqtt.Context.{
  initialized, connected, connack, create, connect, subscribe, publish, disconnect, disconnect,
  Context, initial, ok, ◌>>=◌, ◌>>◌,
}
use plhr_firmware.Mqtt.Context.Chain.{Entry, node_of}
use plhr_firmware.Mqtt.Session.{
  InitAnswers, ClientParams, client_options, mqtt_if_disconnect, mqtt_if_deinit, mqtt_if_publish,
  minus_one,
}
use plhr_firmware.Mqtt.Session.Subscribing.{IsWell, entry}
use plhr_firmware.Mqtt.Session.States.{disconnect-state, publish_lem}
use plhr_firmware.Mqtt.AppThread.{received, mqtt_client_callback}
use plhr_firmware.Mqtt.Device.{Device, topic_pub_cmd, default_id_device}
use plhr_firmware.Mqtt.Device.Identity.{mac, resp_id}
use plhr_firmware.Mqtt.Commands.{answered, ready_message}
use plhr_firmware.Mqtt.Client.{
  topic_1, cmd_zero_callback, mqtt_context_thread, mqtt_init, mqtt_client_disconnect, returned,
  waiting, mqtt_connect, receive_round,
}
use plhr_firmware.Mqtt.Client.Connection.{
  acknowledged, asked_to_connect, mqtt_connect_waits, answers,
}
use plhr_firmware.Mqtt.Client.Reconnection.{IsGiven, accepts}
use plhr_firmware.Mqtt.Client.Races.{context_thread_decides}
use plhr_firmware.Mqtt.Client.Delivery.{commanded, server_answer, answer_arrives}
use plhr_firmware.Mqtt.Runs.{Reach, here, later}
use plhr_firmware.Mqtt.Runs
use plhr_firmware.Mqtt.Runs.Invariant.{Reach-IsWell}
use plhr_firmware.Startup.{asked, main_session}
use plhr_firmware.Startup.Threads.{
  Thread, send_data, thread_downsampling, softtimer, Semaphore, Codes, create_all,
}
use plhr_firmware.Startup.Threads.Reported.{threads, semaphores, create_all_lem}
use plhr_firmware.Startup.Session.{main_session_lem}

abbrev pub given : InitAnswers
given = record {
  allocated = true;
  mutex_init = 0;
  mq_open = pos 1;
  set_sched = 0;
  set_stack = 0;
  set_detach = 0;
  create_thread = 0;
}

pub given-IsGiven : IsGiven given
given-IsGiven = (refl, refl, (0, refl), refl)

abbrev pub plain : ClientParams
plain = record {
  has_will = true;
  has_username = false;
  has_password = false;
  clean_connect = true;
  keepalive_time = 0;
}

abbrev pub all_good : List ℕ → ℤ
all_good topic = pos 0

abbrev pub new_device : Device
new_device = record { id_device = 0; mac_address = []; mqtt_connected = 0 }

abbrev pub six : List ℕ
six = mac 1 2 3 4 5 6

main_session_lem_example :
    (c' : Context) × (main_session given
        (some 8)
        true
        (pos 0)
        plain
        (accepts 0)
        all_good
        5
        ([] ∷ (connack ∷ []) ∷ [])
        pos
        six
        ([] ∷ (resp_id six 7 ∷ []) ∷ [])
        new_device
        initial
      ≡ ok
          (asked
            (answered (pos 1) (record { id_device = 7; mac_address = six; mqtt_connected = 1 }) 2))
          c')
    × IsWell c' (entry 8 topic_1 0 cmd_zero_callback ∷ [])
    × (c'.module_state ≡ connected)
    × (c'.calls
        ≡ (((create ∷ client_options plain) ++ connect ∷ []) ++ subscribe topic_1 ∷ [])
          ++ replicate 2 (publish (topic_pub_cmd ++ default_id_device) (ready_message 255 six) 0))
main_session_lem_example =
    main_session_lem given 8 0 5 1 (pos 0) plain all_good [] pos 1 2 3 4 5 6 7 ([] ∷ []) []
      new_device given-IsGiven (omega arith) refl (omega arith) refl (omega arith) (tt, tt)

-- A session with the command topic at address 8.
abbrev command_entry : Entry
command_entry = entry 8 topic_1 0 cmd_zero_callback

abbrev online : Context
online = record initial {
  heap = λ a. if a == 8 then some (node_of command_entry 0) else none;
  head = 8;
  module_state = connected;
  mutex = some false;
  has_event_cb = true;
}

online-IsWell : IsWell online (command_entry ∷ [])
online-IsWell = record {
  chain = (refl, omega arith, (0, refl, refl));
  distinct = (tt, tt);
  ready = refl;
}

abbrev named : Device
named = record { id_device = 255; mac_address = six; mqtt_connected = 1 }

abbrev stranger : Device
stranger = record { id_device = 9; mac_address = mac 1 2 3 4 5 7; mqtt_connected = 1 }

answer_arrives_example :
    ((mqtt_client_callback (received topic_1 (server_answer six 300) 0) (pos 0)
          >> receive_round all_good 5 named)
        online
      ≡ ok (record named { id_device = 300 }) (commanded (resp_id six 300) 0 online))
    × ((mqtt_client_callback (received topic_1 (server_answer six 300) 0) (pos 0)
            >> receive_round all_good 5 stranger)
          online
        ≡ ok stranger (commanded (resp_id six 300) 0 online))
answer_arrives_example =
    answer_arrives all_good 5 0 8 0 1 2 3 4 5 6 300 named stranger online online-IsWell refl
      (omega arith) refl (λ e. ground arith)

context_thread_decides_example :
    ((c' : Context) × ((mqtt_if_disconnect (pos 0) >>= λ _.
    mqtt_context_thread >> (mqtt_if_deinit 5 (pos 0) >>= λ _. mqtt_init given))
          online
        ≡ ok (pos 0) c')
      × (c'.module_state ≡ initialized)
      × IsWell c' [])
    × ((c' : Context) × ((mqtt_client_disconnect 5 (pos 0) (pos 0) >>= λ _.
              mqtt_context_thread >> mqtt_init given)
            online
          ≡ ok minus_one c')
        × (c'.module_state ≡ initialized))
    × ((mqtt_context_thread >> mqtt_if_publish [] [] 0 (pos 0)) online
        ≡ ok minus_one (record online { module_state = initialized }))
context_thread_decides_example =
    context_thread_decides online (command_entry ∷ []) online-IsWell refl given given-IsGiven 5 0 0
      (omega arith) [] [] (pos 0)

abbrev ready_to_connect : Context
ready_to_connect = record online { module_state = initialized; has_event_cb = false }

ready-IsWell : IsWell ready_to_connect (command_entry ∷ [])
ready-IsWell = record { chain = online-IsWell.chain; distinct = (tt, tt); ready = refl }

mqtt_connect_waits_example :
    (mqtt_connect plain (answers (negsuc 4)) all_good 5 ([] ∷ [] ∷ []) new_device ready_to_connect
      ≡ ok (waiting 2) (asked_to_connect plain initialized ready_to_connect))
    × (mqtt_connect plain (answers (pos 4)) all_good 5 ([] ∷ [] ∷ []) new_device ready_to_connect
        ≡ ok (waiting 2) (asked_to_connect plain connected ready_to_connect))
    × (mqtt_connect plain
          (answers (pos 4))
          all_good
          5
          ([] ∷ [] ∷ (connack ∷ []) ∷ [])
          new_device
          ready_to_connect
        ≡ ok
            (returned (pos 0) (record new_device { mqtt_connected = 1 }) 3)
            (acknowledged (command_entry ∷ []) (asked_to_connect plain connected ready_to_connect)))
mqtt_connect_waits_example =
    mqtt_connect_waits plain all_good 5 2 new_device ready_to_connect (command_entry ∷ [])
      ready-IsWell refl refl 4 [] (omega arith) (refl, tt)

abbrev published : Context
published = record online { calls = publish (1 ∷ []) (2 ∷ []) 0 ∷ [] }

abbrev parting : Context
parting = record published {
  module_state = initialized;
  client_disconnect_flag = 1;
  calls = publish (1 ∷ []) (2 ∷ []) 0 ∷ disconnect ∷ [];
}

-- A publication, and then a disconnection.
two_steps : Reach online (command_entry ∷ []) parting (command_entry ∷ [])
two_steps =
    later
      (later here (
        Runs.Step.calm (
          Runs.Calm.publishes (1 ∷ []) (2 ∷ []) 0 (pos 0) (pos 0)
            (publish_lem online (1 ∷ []) (2 ∷ []) 0 (pos 0) refl refl))))
      (Runs.Step.calm
        (Runs.Calm.disconnects (pos 0) (pos 0) (disconnect-state published refl 0 refl).0))

Reach-IsWell_example : IsWell parting (command_entry ∷ [])
Reach-IsWell_example =
    Reach-IsWell online (command_entry ∷ []) parting (command_entry ∷ []) online-IsWell two_steps

-- The stack of `softtimer` cannot be set, and nothing is printed.
abbrev pub no_stack : Thread → Codes
no_stack softtimer = record { detach = 0; stack = 22; create = 0 }
no_stack _ = record { detach = 0; stack = 0; create = 0 }

abbrev pub all_given : Semaphore → Bool
all_given s = true

create_all_lem_example :
    ((create_all all_given no_stack).running ≡ threads)
    × ((create_all all_given no_stack).semaphores ≡ semaphores)
    × (((create_all all_given no_stack).printed ≡ []) ↔ (
        ((s : Semaphore) → all_given s ≡ true)
        × ((t : Thread) → ((no_stack t).detach ≡ 0) × ((no_stack t).create ≡ 0))
        × ((no_stack send_data).stack ≡ 0)
        × ((no_stack thread_downsampling).stack ≡ 0)))
create_all_lem_example = create_all_lem all_given no_stack
