-- ===== src/Sending/Order.antt =====
-- `send_data` takes the messages in the order in which the ring is filled.
use native.Mathlib.Numerals.{add-one}
use plhr_firmware.Common.{
  ℕ, zero, suc, ◌+◌, ◌%◌, ◌^◌, ◌≤◌, ◌≡◌, refl, subst, Bool, true, false, none, some, List, [], ◌∷◌,
  ◌++◌, length, length-append, get_or, replicate, arith, ℤ,
}
use plhr_firmware.Messages.{MsgData, zero_message}
use plhr_firmware.Downsampling.{modify_message}
use plhr_firmware.Sending.{
  Sender, first_message, write_header, wait_start, publish_message, send_round,
}

wait_start_lem :
    (k : ℕ) (reads : List Bool) → wait_start (replicate k false ++ true ∷ reads) ≡ some reads
unfolding wait_start
wait_start_lem zero reads = refl
wait_start_lem (suc k) reads = wait_start_lem k reads

wait_start_never : (k : ℕ) → wait_start (replicate k false) ≡ none
unfolding wait_start
wait_start_never zero = refl
wait_start_never (suc k) = wait_start_never k

-- A round waits while `send_data_status` is `stop`, and publishes after the first read that gives
-- `start`: the message at its index, with the header written, as it stands then.
pub send_round_lem :
    (id_device k : ℕ) (meanwhile : List MsgData → List MsgData) (reads : List Bool) (answer : ℤ)
    (s : Sender) (ms : List MsgData)
    → (send_round id_device meanwhile (replicate k false) answer (s, ms) ≡ none)
      × (send_round id_device meanwhile (replicate k false ++ true ∷ reads) answer (s, ms)
          ≡ some (
              publish_message answer
                (s, meanwhile (modify_message s.n_msg (write_header id_device s.msg_data_id) ms))))
unfolding send_round
send_round_lem id_device k meanwhile reads answer s ms =
    (rw (wait_start_never k, send_round) refl, rw (wait_start_lem k reads, send_round) refl)

-- Rounds with an answer each; `memory k` is what the messages are at publication `k`.
unfoldable pub sends : (ℕ → ℤ) → (ℕ → List MsgData) → ℕ → Sender → Sender
unfolding publish_message
sends answers memory zero s = s
sends answers memory (suc j) s =
    (publish_message (answers j) (sends answers memory j s, memory j)).0

-- Where the thread stands after `j` publications.
pub record IsAt (j : ℕ) (s : Sender) : Type 0 where
  pub index : s.n_msg ≡ j % 10
  pub number : s.msg_data_id ≡ j % 2 ^ 32
  pub count : length s.published ≡ j
  pub clears : s.watchdog_clears ≤ j

pub publish-IsAt :
    (j : ℕ) (answer : ℤ) (s : Sender) (ms : List MsgData)
    → IsAt j s
    → IsAt (j + 1) (publish_message answer (s, ms)).0
unfolding publish_message
publish-IsAt j answer s ms v = record {
  index = omega (arith, v.index);
  number = omega (arith, v.number);
  count = omega (arith, length-append s.published (get_or ms s.n_msg zero_message ∷ []), v.count);
  clears = ground (arith, v.clears);
}

pub first_message-IsAt : (length first_message.published ≡ 0) × IsAt 0 first_message
unfolding first_message
first_message-IsAt =
    (refl, record { index = refl; number = refl; count = refl; clears = omega arith })

-- After `j` publications, whatever the answers and the memory, the sender is at message `j % 10`
-- with the number `j` (modulo 2 ^ 32), has published `j` messages, and has cleared the watchdog at
-- most `j` times.
pub sends-IsAt :
    (answers : ℕ → ℤ) (memory : ℕ → List MsgData) (j : ℕ)
    → IsAt j (sends answers memory j first_message)
unfolding sends
sends-IsAt answers memory zero = first_message-IsAt.1
sends-IsAt answers memory (suc j) =
    subst (λ k. IsAt k (sends answers memory (suc j) first_message)) (add-one j)
      (publish-IsAt j (answers j) (sends answers memory j first_message) (memory j)
        (sends-IsAt answers memory j))
