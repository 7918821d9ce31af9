-- ===== src/Examples/Sessions.antt =====
-- The theorems about the topic list of Core/mqtt_user.c at a list of two or three nodes.
use plhr_firmware.Common.{
  ℕ, ◌≡◌, refl, true, false, ◌==◌, if◌then◌else◌, none, some, List, [], ◌∷◌, ℤ, pos, negsuc, arith,
  inl, inr,
}
use plhr_firmware.Mqtt.Topics.{topic_matching}
use plhr_firmware.Mqtt.Context.{
  on_topic, ModuleState, idle, initialized, connected, recv, connack, Heap, update, Context,
  initial, ok, subscribe, unsubscribe, on_event, ◌>>=◌,
}
use plhr_firmware.Mqtt.Context.Chain.{Entry, node_of, Chain, Avoids}
use plhr_firmware.Mqtt.Session.{
  InitAnswers, ClientParams, mqtt_if_subscribe, mqtt_if_unsubscribe, minus_one,
}
use plhr_firmware.Mqtt.Session.Subscribing.{IsWell, subscribe_refused_dangles, AllFree}
use plhr_firmware.Mqtt.Session.Entries.{remove_first}
use plhr_firmware.Mqtt.Session.Unsubscribing.{unsubscribe_removes}
use plhr_firmware.Mqtt.AppThread.{app_thread_round}
use plhr_firmware.Mqtt.AppThread.Dispatch.{deliveries, recv_delivers}
use plhr_firmware.Mqtt.AppThread.Resubscribe.{subscriptions, connack_resubscribes, connack_skips}
use plhr_firmware.Mqtt.Subscriptions.{Subscription, matches}
use plhr_firmware.Mqtt.Subscriptions.Order.{later_hears}
use plhr_firmware.Mqtt.Client.{mqtt_client_disconnect}
use plhr_firmware.Mqtt.Client.Shutdown.{client_disconnect_frees}

-- The topics `a`, `b` and `c`, at the addresses 8, 16 and 24.
abbrev entry_a : Entry
entry_a = record { address = 8; topic = 97 ∷ []; qos = 0; callback = 1 }

abbrev entry_b : Entry
entry_b = record { address = 16; topic = 98 ∷ []; qos = 0; callback = 2 }

abbrev entry_c : Entry
entry_c = record { address = 24; topic = 99 ∷ []; qos = 0; callback = 3 }

abbrev nodes : Heap
nodes =
    update
      (update (update (λ _. none) 8 (some (node_of entry_a 16))) 16 (some (node_of entry_b 24))) 24
      (some (node_of entry_c 0))

abbrev session : ModuleState → Context
session s = record initial {
  heap = nodes;
  head = 8;
  module_state = s;
  mutex = some false;
  has_event_cb = true;
}

abbrev three : List Entry
three = entry_a ∷ entry_b ∷ entry_c ∷ []

session-IsWell : (s : ModuleState) → IsWell (session s) three
session-IsWell s = record {
  chain = (
    refl,
    omega arith,
    (16, refl, (refl, omega arith, (24, refl, (refl, omega arith, (0, refl, refl))))),
  );
  distinct = ((omega arith, (omega arith, tt)), ((omega arith, tt), (tt, tt)));
  ready = refl;
}

subscribe_refused_dangles_example :
    (c' : Context) × (mqtt_if_subscribe (100 ∷ []) 0 4 (some 32) true (negsuc 5) (session connected)
      ≡ ok (negsuc 5) c')
    × (c'.head ≡ 32)
    × (c'.heap 32 ≡ none)
    × ((es' : List Entry) → ¬ Chain c'.heap c'.head es')
subscribe_refused_dangles_example =
    subscribe_refused_dangles (session connected) three (session-IsWell connected) (100 ∷ []) 0 4 32
      5 (omega arith) refl

unsubscribe_removes_example :
    (c' : Context) × (mqtt_if_unsubscribe 9 (98 ∷ []) (pos 0) (session connected)
      ≡ ok (if (remove_first (98 ∷ []) three).0 then pos 1 else minus_one) c')
    × IsWell c' (remove_first (98 ∷ []) three).1
    × (c'.calls ≡ unsubscribe (98 ∷ []) ∷ [])
    × (c'.bad_unlocks ≡ (if (remove_first (98 ∷ []) three).0 then 0 else 1))
unfolding topic_matching
unsubscribe_removes_example =
    unsubscribe_removes (session connected) three (98 ∷ []) 9 0 (session-IsWell connected) refl
      (inr refl, (inl refl, (inr refl, tt))) (omega arith)

abbrev init_answers : InitAnswers
init_answers = record {
  allocated = true;
  mutex_init = 0;
  mq_open = pos 1;
  set_sched = 0;
  set_stack = 0;
  set_detach = 0;
  create_thread = 0;
}

abbrev params : ClientParams
params = record {
  has_will = true;
  has_username = false;
  has_password = false;
  clean_connect = true;
  keepalive_time = 0;
}

abbrev accepts : List ℕ → ℤ
accepts topic = pos 0

-- The broker refuses the topic `b`.
abbrev refuses_b : List ℕ → ℤ
refuses_b [] = pos 0
refuses_b (t ∷ topic) = if t == 98 then negsuc 0 else pos 0

recv_delivers_example :
    app_thread_round accepts 9 (recv (98 ∷ []) (1 ∷ []) 0) (session connected)
    ≡ ok true (record (session connected) { callbacks = deliveries (98 ∷ []) (1 ∷ []) 0 three })
unfolding topic_matching
recv_delivers_example =
    recv_delivers accepts 9 (98 ∷ []) (1 ∷ []) 0 (session connected) three
      (session-IsWell connected) (omega arith) (inr refl, (inl refl, (inr refl, tt)))

connack_resubscribes_example :
    app_thread_round accepts 9 connack (session connected)
    ≡ ok true (record (session connected) {
      calls = subscriptions three;
      callbacks = on_event connack ∷ [];
    })
connack_resubscribes_example =
    connack_resubscribes accepts 9 (session connected) three (session-IsWell connected) refl
      (omega arith) (refl, (refl, (refl, tt)))

connack_skips_example :
    (c' : Context) × (app_thread_round refuses_b 9 connack (session connected) ≡ ok true c')
    × IsWell c' (entry_a ∷ entry_c ∷ [])
    × (c'.calls ≡ subscribe (97 ∷ []) ∷ subscribe (98 ∷ []) ∷ [])
connack_skips_example =
    connack_skips refuses_b 9 (session connected) entry_a entry_b entry_c []
      (session-IsWell connected) refl (omega arith) refl refl tt

client_disconnect_frees_example :
    ((c' : Context) × (mqtt_client_disconnect 9 (pos 0) (pos 0) (session connected) ≡ ok (pos 0) c')
      × IsWell c' []
      × (c'.module_state ≡ idle)
      × AllFree c'.heap three
      × ((a : ℕ) → Avoids a three → c'.heap a ≡ nodes a))
    × ((c' : Context) × (mqtt_client_disconnect 9 (pos 0) (negsuc 0) (session connected)
          ≡ ok minus_one c')
        × IsWell c' three
        × (c'.module_state ≡ initialized))
client_disconnect_frees_example =
    client_disconnect_frees (session connected) three (session-IsWell connected) refl 9 0 0
      (omega arith)

abbrev topic_d : Subscription
topic_d = record { topic = 100 ∷ []; qos = 0; callback = 4 }

-- A filter that matches every topic, subscribed to behind the one for `d`.
abbrev every_topic : Subscription
every_topic = record { topic = 35 ∷ []; qos = 1; callback = 5 }

later_hears_example :
    (c' : Context) × ((mqtt_if_subscribe (100 ∷ []) 0 4 (some 32) true (pos 2) >>= λ _.
    mqtt_if_subscribe (35 ∷ []) 1 5 (some 40) true (pos 2) >>= λ _.
    app_thread_round accepts 9 (recv (100 ∷ []) (1 ∷ []) 0))
        (session connected)
      ≡ ok true c')
    × (c'.callbacks ≡ (
        if matches (100 ∷ []) every_topic
        then on_topic 5 (100 ∷ []) (1 ∷ []) 0 ∷ []
        else (if matches (100 ∷ []) topic_d
            then on_topic 4 (100 ∷ []) (1 ∷ []) 0 ∷ []
            else deliveries (100 ∷ []) (1 ∷ []) 0 three)))
    × (c'.calls ≡ subscribe (100 ∷ []) ∷ subscribe (35 ∷ []) ∷ [])
unfolding topic_matching
later_hears_example =
    later_hears (session connected) three 32 40 2 topic_d every_topic accepts 9 (100 ∷ []) (1 ∷ [])
      0 (session-IsWell connected) refl (omega arith) (omega arith) (omega arith) refl refl
      (inl refl, (inl refl, (inr refl, (inr refl, (inr refl, tt))))) (omega arith)
