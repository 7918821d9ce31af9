-- ===== src/Watch/Supervising.antt =====
-- `test_wifi` of Core/test_wifi_user.c over the driver of Core/wifi_user.c: its checks read the
-- status word, and its pauses and `wifi_connect` let the event handlers run.
pub mod Recovery
pub mod Refinement
use plhr_firmware.Common.{ℕ, zero, suc, ◌+◌, Option, none, some, [], ◌∷◌, ℤ}
use plhr_firmware.Wifi.{handle_all, test_wifi_connection}
use plhr_firmware.Wifi.Driver.{D, returned, waiting, ◌>>=◌, ◌>>◌, pure, get, wifi_connect}
use plhr_firmware.Watch.{WifiWatch}

-- What SimpleLink answers to the calls of a `wifi_connect`.
pub record ConnectCodes : Type 0 where
  pub disconnected : ℤ
  pub connecting : ℤ
  pub configured : ℤ
  pub statistics : ℤ

-- `usleep(US_TEST_WIFI)`: the events of one sleep.
pub pause : D (Unit {0})
pause w = elim w.rounds [
  | [] ↦ waiting
  | r ∷ rs ↦ returned tt (record { globals = handle_all r w.globals; rounds = rs })
]

-- The inner loop of at most `fuel` rounds, none where it needs more: `codes n` are the answers to
-- the `n`-th call of `wifi_connect`, whose code is only logged.
pub reconnect_on : (ℕ → ConnectCodes) → ℕ → WifiWatch → D (Option WifiWatch)
unfolding pause
reconnect_on codes zero w = pure none
reconnect_on codes (suc fuel) w = do
  pause
  let c = codes w.reconnections
  _ ← wifi_connect c.disconnected c.connecting c.configured c.statistics
  g ← get
  let w = record w { reconnections = w.reconnections + 1 }
  elim (test_wifi_connection g) [ zero ↦ reconnect_on codes fuel w | suc _ ↦ pure (some w) ]

-- The `switch` on the status that `test_wifi_connection` gives.
pub react_to : (ℕ → ConnectCodes) → ℕ → WifiWatch → ℕ → D (Option WifiWatch)
unfolding reconnect_on
react_to codes fuel w zero = reconnect_on codes fuel (record w { send_data = 0 })
react_to codes fuel w (suc zero) = pure (some (record w { send_data = 1 }))
react_to codes fuel w (suc (suc status)) = pure (some w)

-- One round of the loop of `test_wifi`.
pub supervise : (ℕ → ConnectCodes) → ℕ → WifiWatch → D (Option WifiWatch)
unfolding react_to pause
supervise codes fuel w = do pause; g ← get; react_to codes fuel w (test_wifi_connection g)

-- `n` rounds of the loop.
pub test_wifi : (ℕ → ConnectCodes) → ℕ → ℕ → WifiWatch → D (Option WifiWatch)
unfolding supervise
test_wifi codes fuel zero w = pure (some w)
test_wifi codes fuel (suc n) w = do
  found ← supervise codes fuel w
  elim found [ none ↦ pure none | some w' ↦ test_wifi codes fuel n w' ]
