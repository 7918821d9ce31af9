-- ===== src/Watch/Supervising/Refinement.antt =====
-- `test_wifi` over the driver against `test_wifi` over a list of readings.
use plhr_firmware.Common.{ℕ, zero, suc, ◌+◌, ◌≡◌, refl, ap, Option, some, List, [], ◌∷◌, ℤ}
use plhr_firmware.Wifi.{test_wifi_connection}
use plhr_firmware.Wifi.Driver.{
  World, D, Outcome, returned, waiting, looping, ◌>>=◌, pure, get, wifi_connect,
}
use plhr_firmware.Watch.{WifiWatch, reconnect, test_wifi_round}
use plhr_firmware.Watch.Supervising.{ConnectCodes, pause, reconnect_on, react_to, supervise}

-- A chain that returns has returned in each of its parts.
bind_returns :
    {A B : Type 0} (m : D A) (f : A → D B) (w w' : World) (b : B)
    → (m >>= f) w ≡ returned b w'
    → (a : A) × (w1 : World) × (m w ≡ returned a w1) × (f a w1 ≡ returned b w')
bind_returns {A} {B} m f w w' b = parts (m w)
  where
    parts :
        (o : Outcome A)
        → (elim o as (λ _. Outcome B) [
          | returned a w1 ↦ f a w1
          | waiting ↦ waiting
          | looping ↦ looping
        ])
          ≡ returned b w'
        → (a : A) × (w1 : World) × (o ≡ returned a w1) × (f a w1 ≡ returned b w')
    parts (returned a w1) e = (a, w1, refl, e)
    parts waiting e = absurd (cc e)
    parts looping e = absurd (cc e)

same_watch : {u v : WifiWatch} {w w' : World} → returned (some u) w ≡ returned (some v) w' → u ≡ v
same_watch e = cc e

module _ (codes : ℕ → ConnectCodes) where
  -- What the inner loop does on a status.
  abbrev goes_on : ℕ → WifiWatch → ℕ → D (Option WifiWatch)
  goes_on fuel next status = elim status as (λ _. D (Option WifiWatch)) [
    | zero ↦ reconnect_on codes fuel next
    | suc _ ↦ pure (some next)
  ]

  reconnect_reads :
      (fuel : ℕ) (v v' : WifiWatch) (w w' : World)
      → reconnect_on codes fuel v w ≡ returned (some v') w'
      → (reads : List ℕ) × (reconnect v reads ≡ some (v', []))
  unfolding reconnect_on reconnect
  reconnect_reads zero v v' w w' e = absurd (cc e)
  reconnect_reads (suc fuel) v v' w w' e =
      let next : WifiWatch = record v { reconnections = v.reconnections + 1 } in
      let c = codes v.reconnections in
      let connect = wifi_connect c.disconnected c.connecting c.configured c.statistics in
      let checks : ℤ → D (Option WifiWatch) =
        λ _. get >>= λ g. goes_on fuel next (test_wifi_connection g) in
      let (_, w1, _, e1) = bind_returns pause (λ _. connect >>= checks) w w' (some v') e in
      let (_, w2, _, e2) = bind_returns connect checks w1 w' (some v') e1 in
      on_status (λ u r. reconnect_reads fuel next v' u w' r) (test_wifi_connection w2.globals) w2 e2
    where
      on_status :
          ((u : World)
            → reconnect_on codes fuel (record v { reconnections = v.reconnections + 1 }) u
              ≡ returned (some v') w'
            → (reads : List ℕ) × (reconnect (record v { reconnections = v.reconnections + 1 }) reads
                ≡ some (v', [])))
          → (status : ℕ) (w2 : World)
          → goes_on fuel (record v { reconnections = v.reconnections + 1 }) status w2
            ≡ returned (some v') w'
          → (reads : List ℕ) × (reconnect v reads ≡ some (v', []))
      on_status ih zero w2 e2 = let (reads, r) = ih w2 e2 in (0 ∷ reads, r)
      on_status ih (suc status) w2 e2 = (1 ∷ [], ap (λ u. some (u, [])) (same_watch e2))

  -- Where a round of `test_wifi` over the driver returns, whatever the fuel, the events and the
  -- answers, it has written the flag of the sender and called `wifi_connect` as a round over the
  -- readings of `test_wifi_connection` does, for some list of readings that this round uses up.
  pub supervise-test_wifi_round :
      (fuel : ℕ) (v v' : WifiWatch) (w w' : World)
      → supervise codes fuel v w ≡ returned (some v') w'
      → (reads : List ℕ) × (test_wifi_round v reads ≡ some (v', []))
  unfolding supervise test_wifi_round react_to
  supervise-test_wifi_round fuel v v' w w' e =
      let (_, w1, _, e1) =
        bind_returns pause (λ _. get >>= λ g. react_to codes fuel v (test_wifi_connection g)) w w'
          (some v') e in
      on_status (test_wifi_connection w1.globals) w1 e1
    where
      on_status :
          (status : ℕ) (w1 : World)
          → react_to codes fuel v status w1 ≡ returned (some v') w'
          → (reads : List ℕ) × (test_wifi_round v reads ≡ some (v', []))
      on_status zero w1 e1 =
          let (reads, r) = reconnect_reads fuel (record v { send_data = 0 }) v' w1 w' e1 in
          (0 ∷ reads, r)
      on_status (suc zero) w1 e1 = (1 ∷ [], ap (λ u. some (u, [])) (same_watch e1))
      on_status (suc (suc n)) w1 e1 = (suc (suc n) ∷ [], ap (λ u. some (u, [])) (same_watch e1))
