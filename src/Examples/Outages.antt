-- ===== src/Examples/Outages.antt =====
-- The theorems about a lost connection at concrete runs.
use plhr_firmware.Common.{
  ℕ, zero, suc, ◌+◌, ◌%◌, ◌^◌, ◌≡◌, ◌⊎◌, refl, ap, subst, ◌∙◌, true, false, none, some, List, [],
  ◌∷◌, ◌++◌, get_or, leb, ltb, lt→ltb, pos, if◌then◌else◌, arith,
}
use plhr_firmware.Messages.{MsgData, zero_message, n_msg_data}
use plhr_firmware.Downsampling.{Dws, Shared, iteration}
use plhr_firmware.Downsampling.Cursor.{IsAt, start-IsAt, iteration-IsAt}
use plhr_firmware.Outage.{
  Uplink, at_creation, watchdog_timer, Action, downsamples, checks, connects, takes, reads,
  publishes, passes, check, connect_again, take_up, read_status, publish, pass_time, when_pending,
  when_waiting, when_publishing, perform, act, run,
}
use plhr_firmware.Outage.Keeping.{is_publishing, elapsed}
use plhr_firmware.Outage.Silence.{outage_silent, outage_ends}
use plhr_firmware.Examples.Sampling.{args, quarter, inputs}

-- `n` rounds of the downsampling thread from round `k` on, and the state behind the first `n`.
abbrev fills : ℕ → ℕ → List Action
fills k zero = []
fills k (suc n) = downsamples (inputs k) ∷ fills (suc k) n

memory : ℕ → Dws × Shared
memory zero = (at_creation.dws, at_creation.shared)
memory (suc n) = iteration quarter args (inputs n) (memory n)

abbrev filled : ℕ → Uplink
filled n = record at_creation { dws = (memory n).0; shared = (memory n).1 }

memory-IsAt : (n : ℕ) → IsAt args n (memory n).0
unfolding memory
memory-IsAt zero = start-IsAt args (omega arith)
memory-IsAt (suc n) =
    let one : n + 1 ≡ suc n = omega arith in
    subst (λ k. IsAt args k (memory (suc n)).0) one
      (iteration-IsAt quarter args (inputs n) n (memory n).0 (memory n).1 (memory-IsAt n))

run-fills :
    (later : List Action) (n k : ℕ)
    → run quarter args 7 (fills k n ++ later) (filled k) ≡ run quarter args 7 later (filled (k + n))
unfolding memory run act perform
run-fills later zero k =
    let e : k ≡ k + 0 = omega arith in ap (λ j. run quarter args 7 later (filled j)) e
run-fills later (suc n) k =
    let e : suc k + n ≡ k + suc n = omega arith in
    run-fills later n (suc k) ∙ ap (λ j. run quarter args 7 later (filled j)) e

-- There is a post for the sender.
posted : ltb 0 (memory 78).0.mqtt_posts ≡ true
posted = lt→ltb 0 (memory 78).0.mqtt_posts (omega (arith, (memory-IsAt 78).posts))

-- A message is full. The connection is lost behind the sender's read.
abbrev lost_late : List Action
lost_late = checks 1 ∷ takes ∷ reads ∷ checks 0 ∷ []

abbrev p_late : Uplink
p_late = check 0 (read_status (take_up 7 (check 1 (filled 78))))

late_from :
    (d : Dws) (s : Shared)
    → ltb 0 d.mqtt_posts ≡ true
    → run quarter args 7 lost_late (record at_creation { dws = d; shared = s })
      ≡ some
          (check 0 (read_status (take_up 7 (check 1 (record at_creation { dws = d; shared = s })))))
unfolding run act perform check take_up read_status when_pending when_waiting
late_from d s e = rw (e, run, act, perform) refl

late-run : run quarter args 7 (fills 0 78 ++ lost_late) at_creation ≡ some p_late
unfolding memory
late-run = run-fills lost_late 78 0 ∙ late_from (memory 78).0 (memory 78).1 posted

-- The sender publishes what it has read `start` for, while `wifi_connect` fails and succeeds.
abbrev goes_quiet : List Action
goes_quiet = publishes (pos 0) ∷ connects 0 ∷ passes 3000 ∷ connects 1 ∷ []

abbrev q_late : Uplink
q_late = connect_again 1 (pass_time 3000 (connect_again 0 (publish (pos 0) p_late)))

outage_silent_example :
    ((q_late.sender.published ≡ p_late.sender.published)
      × (is_publishing q_late.phase ≡ is_publishing p_late.phase))
    ⊎ ((is_publishing p_late.phase ≡ true)
        × (is_publishing q_late.phase ≡ false)
        × (m : MsgData) × (q_late.sender.published ≡ p_late.sender.published ++ m ∷ []))
unfolding run act perform check connect_again take_up read_status publish pass_time when_publishing
outage_silent_example =
    outage_silent quarter args 7 (fills 0 78 ++ lost_late) goes_quiet p_late q_late late-run refl
      (refl, (refl, (refl, (refl, tt)))) refl

-- The connection is lost while the sender waits, and comes back after four seconds.
abbrev lost_early : List Action
lost_early = takes ∷ checks 0 ∷ reads ∷ []

abbrev p_early : Uplink
p_early = read_status (check 0 (take_up 7 (filled 78)))

early_from :
    (d : Dws) (s : Shared)
    → ltb 0 d.mqtt_posts ≡ true
    → run quarter args 7 lost_early (record at_creation { dws = d; shared = s })
      ≡ some (read_status (check 0 (take_up 7 (record at_creation { dws = d; shared = s }))))
unfolding run act perform check take_up read_status when_pending when_waiting
early_from d s e = rw (e, run, act, perform) refl

early-run : run quarter args 7 (fills 0 78 ++ lost_early) at_creation ≡ some p_early
unfolding memory
early-run = run-fills lost_early 78 0 ∙ early_from (memory 78).0 (memory 78).1 posted

abbrev stays_quiet : List Action
stays_quiet = connects 0 ∷ passes 4000 ∷ reads ∷ connects 1 ∷ []

abbrev q_early : Uplink
q_early = connect_again 1 (read_status (pass_time 4000 (connect_again 0 p_early)))

outage_ends_example :
    (r : Uplink) × (run quarter args 7 (checks 1 ∷ reads ∷ publishes (pos 0) ∷ []) q_early
      ≡ (if leb watchdog_timer (p_early.unfed_ms + elapsed stays_quiet) then none else some r))
    × (r.sender.published
        ≡ p_early.sender.published
          ++ get_or q_early.dws.messages p_early.sender.n_msg zero_message ∷ [])
    × (r.sender.n_msg ≡ (p_early.sender.n_msg + 1) % n_msg_data)
    × (r.sender.msg_data_id ≡ (p_early.sender.msg_data_id + 1) % 2 ^ 32)
unfolding run act perform check connect_again take_up read_status pass_time when_waiting
outage_ends_example =
    outage_ends quarter args 7 (fills 0 78 ++ lost_early) stays_quiet p_early q_early (pos 0)
      early-run refl refl (refl, (refl, (refl, (refl, tt)))) refl refl
