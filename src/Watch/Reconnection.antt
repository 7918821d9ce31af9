-- ===== src/Watch/Reconnection.antt =====
-- What `test_wifi` does about a lost connection.
use plhr_firmware.Common.{
  ℕ, zero, suc, ◌+◌, ◌≡◌, refl, ap, ◌∙◌, none, some, List, ◌∷◌, ◌++◌, replicate, arith,
}
use plhr_firmware.Watch.{WifiWatch, reconnect, test_wifi_round}

reconnect_lem :
    (w : WifiWatch) (k : ℕ) (reads : List ℕ)
    → (reconnect w (replicate k 0) ≡ none)
      × (reconnect w (replicate k 0 ++ 1 ∷ reads)
          ≡ some (record w { reconnections = w.reconnections + (k + 1) }, reads))
unfolding reconnect
reconnect_lem w zero reads =
    let e : w.reconnections + 1 ≡ w.reconnections + (0 + 1) = omega arith in
    (refl, ap (λ n. some (record w { reconnections = n }, reads)) e)
reconnect_lem w (suc k) reads =
    let next : WifiWatch = record w { reconnections = w.reconnections + 1 } in
    let e : w.reconnections + 1 + (k + 1) ≡ w.reconnections + (suc k + 1) = omega arith in
    let (never, at) = reconnect_lem next k reads in
    (never, at ∙ ap (λ n. some (record w { reconnections = n }, reads)) e)

-- Where the connection is lost, a round of `test_wifi` stops the sender and calls `wifi_connect`
-- until a check finds the connection again: `k + 1` times where `k` checks fail before. The sender
-- is still stopped then; it starts in the next round that begins with a connection.
pub test_wifi_round_lem :
    (w : WifiWatch) (k : ℕ) (reads : List ℕ)
    → (test_wifi_round w (0 ∷ replicate k 0) ≡ none)
      × (test_wifi_round w (0 ∷ replicate k 0 ++ 1 ∷ reads)
          ≡ some (record w { send_data = 0; reconnections = w.reconnections + (k + 1) }, reads))
      × (test_wifi_round w (1 ∷ reads) ≡ some (record w { send_data = 1 }, reads))
unfolding test_wifi_round
test_wifi_round_lem w k reads =
    let (never, at) = reconnect_lem (record w { send_data = 0 }) k reads in (never, at, refl)
