-- ===== src/Examples/Boots.antt =====
-- The theorems about the whole of `mainThread` at concrete answers.
use plhr_firmware.Common.{◌≡◌, refl, false, ◌++◌, some, [], ◌∷◌, pos, negsuc, arith, ◌==◌}
use plhr_firmware.Mqtt.Context.{initialized, create, connect, initial}
use plhr_firmware.Mqtt.Session.{client_options}
use plhr_firmware.Wifi.{is_connected}
use plhr_firmware.Wifi.Driver.Starting.{init_calls, refused_calls}
use plhr_firmware.Acquisition.Start.{init_drivers}
use plhr_firmware.Startup.Threads.{create_semaphores, create_threads}
use plhr_firmware.Startup.Threads.Reported.{keep, threads}
use plhr_firmware.Startup.MainThread.{
  Platform, NetworkAnswers, Answers, session_waits, running, main_thread,
}
use plhr_firmware.Startup.MainThread.Reached.{Host, answers_of, IsUp, main_thread_lem}
use plhr_firmware.Startup.MainThread.Refused.{refusing, main_thread_refused}
use plhr_firmware.Examples.Starts.{
  given, given-IsGiven, plain, all_good, new_device, all_given, no_stack,
}
use plhr_firmware.Examples.Networks.{world}
use plhr_firmware.Examples.Sampling.{fresh}

-- A station that connects, and one that is refused.
abbrev station : NetworkAnswers
station = record {
  role_sta = 0;
  role_ap = 2;
  disconnected = pos 0;
  disconnected_again = pos 0;
  stopped = pos 0;
  started = pos 0;
  mode_set = pos 0;
  restarted = pos 0;
  connecting = pos 0;
  configured = pos 0;
  statistics = pos 0;
}

abbrev host : Host
host = record {
  init = given;
  place = 8;
  code = 0;
  fuel = 5;
  waits = 1;
  subscribed = pos 0;
  params = plain;
  subscribe = all_good;
  sleeps = [];
  published = pos;
  m0 = 1;
  m1 = 2;
  m2 = 3;
  m3 = 4;
  m4 = 5;
  m5 = 6;
  id = 7;
  quiet = [] ∷ [];
  id_sleeps = [];
}

abbrev powered : Platform
powered = record {
  network = world;
  session = initial;
  device = new_device;
  acquisition = fresh;
  interrupts = record { interrupt_num = 5; handle = 0 } ∷ [];
}

abbrev boot : Answers
boot = record {
  network = station;
  session = answers_of host;
  semaphores = all_given;
  interrupt = some 77;
  threads = no_stack;
}

main_thread_lem_example :
    (q : Platform) × (main_thread 2 30 boot powered
      ≡ running q (create_threads no_stack (create_semaphores all_given)))
    × IsUp 30 77 host ([] ∷ []) [] q
    × ((create_threads no_stack (create_semaphores all_given)).running
        ≡ keep (λ t. (no_stack t).create == 0) threads)
main_thread_lem_example =
    main_thread_lem 2 30 77 station host all_given no_stack powered
      (record { interrupt_num = 5; handle = 0 }) [] ([] ∷ []) (λ e. ground (arith, e)) refl refl
      refl refl given-IsGiven (omega arith) refl (omega arith) (omega arith) (tt, tt) refl refl refl

main_thread_refused_example :
    (q : Platform) × (main_thread 2 30
        (record boot {
          network = record station { connecting = negsuc 1 };
          session = refusing 8 4 3 boot.session;
        })
        powered
      ≡ session_waits 3 q)
    × (q.network.globals.calls ≡ world.globals.calls ++ (init_calls ++ refused_calls))
    × (is_connected q.network.globals ≡ false)
    × (q.session.calls ≡ (create ∷ client_options boot.session.params) ++ connect ∷ [])
    × (q.session.module_state ≡ initialized)
    × (q.acquisition ≡ init_drivers fresh)
    × (q.interrupts ≡ record { interrupt_num = 5; handle = 0 } ∷ [])
main_thread_refused_example =
    main_thread_refused 2 30 8 4 3
      (record boot { network = record station { connecting = negsuc 1 } }) powered
      (λ e. ground (arith, e)) refl refl given-IsGiven (omega arith) refl
