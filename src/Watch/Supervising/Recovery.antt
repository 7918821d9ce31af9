-- ===== src/Watch/Supervising/Recovery.antt =====
-- How `test_wifi` gets a lost connection back.
use plhr_firmware.Common.{
  ℕ, zero, suc, ◌+◌, ◌≡◌, refl, ap, subst, ◌∙◌, Bool, true, false, Option, none, some, List, [],
  ◌∷◌, is_neg, ℤ, if◌then◌else◌,
}
use plhr_firmware.Wifi.{Globals, Event, handle_all, is_connected, test_wifi_connection}
use plhr_firmware.Wifi.Status.{Flags, flags, meaning_all, handle_all-flags}
use plhr_firmware.Wifi.Driver.{World, D, returned, ◌>>=◌, pure, get, wifi_connect}
use plhr_firmware.Wifi.Driver.Waiting.{after_up}
use plhr_firmware.Wifi.Driver.Starting.{offline, Comes, bind_returned, wifi_connect_starts}
use plhr_firmware.Watch.{WifiWatch}
use plhr_firmware.Watch.Supervising.{
  ConnectCodes, pause, reconnect_on, react_to, supervise, test_wifi,
}

-- The answers do not refuse the `n`-th connection.
abbrev pub Accepts : (ℕ → ConnectCodes) → ℕ → Type 0
Accepts codes n = (is_neg (codes n).connecting ≡ false) × (is_neg (codes n).configured ≡ false)

test_wifi_connection_lem :
    (g : Globals) → test_wifi_connection g ≡ (if is_connected g then 1 else 0)
test_wifi_connection_lem g = (handle_all-flags [] g).1

module _ (codes : ℕ → ConnectCodes) (fuel : ℕ) (v : WifiWatch) (g : Globals) (r : List Event)
    (rs : List (List Event)) where
  abbrev asked : D ℤ
  asked =
      let c = codes v.reconnections in
      wifi_connect c.disconnected c.connecting c.configured c.statistics

  -- What the inner loop does on the status.
  abbrev goes_on : ℕ → D (Option WifiWatch)
  goes_on status =
      let next = record v { reconnections = v.reconnections + 1 } in
      elim status as (λ _. D (Option WifiWatch)) [
        | zero ↦ reconnect_on codes fuel next
        | suc _ ↦ pure (some next)
      ]

  -- A pause, and then a `wifi_connect` that brings a connection.
  reconnect_ends :
      (w : World) (code : ℤ)
      → asked (record { globals = handle_all r g; rounds = rs }) ≡ returned code w
      → is_connected w.globals ≡ true
      → reconnect_on codes (suc fuel) v (record { globals = g; rounds = r ∷ rs })
        ≡ returned (some (record v { reconnections = v.reconnections + 1 })) w
  unfolding pause reconnect_on
  reconnect_ends w code comes connected =
      let one : test_wifi_connection w.globals ≡ 1 =
        test_wifi_connection_lem w.globals ∙ rw connected refl in
      bind_returned asked (λ _. get >>= λ now. goes_on (test_wifi_connection now)) _ w code comes
      ∙ ap (λ status. goes_on status w) one

  -- A round that finds a connection, and one that finds none.
  supervise_checks :
      (up : Bool)
      → (flags (handle_all r g)).connected ≡ up
      → supervise codes fuel v (record { globals = g; rounds = r ∷ rs })
        ≡ react_to codes fuel v
            (if up then 1 else 0)
            (record { globals = handle_all r g; rounds = rs })
  unfolding supervise pause
  supervise_checks up e =
      ap (λ status. react_to codes fuel v status (record { globals = handle_all r g; rounds = rs }))
        (test_wifi_connection_lem (handle_all r g) ∙ ap (λ (b : Bool). if b then 1 else 0) e)

-- What the loop does after a round.
abbrev go_on : (WifiWatch → D (Option WifiWatch)) → Option WifiWatch → D (Option WifiWatch)
go_on f found = elim found as (λ _. D (Option WifiWatch)) [ none ↦ pure none | some v ↦ f v ]

abbrev ends : WifiWatch → D (Option WifiWatch)
ends v = pure (some v)

-- The loop follows its rounds.
two_rounds :
    (codes : ℕ → ConnectCodes) (fuel : ℕ) (v v1 v2 : WifiWatch) (w w1 w2 : World)
    → supervise codes fuel v w ≡ returned (some v1) w1
    → supervise codes fuel v1 w1 ≡ returned (some v2) w2
    → (test_wifi codes fuel 1 v w ≡ returned (some v1) w1)
      × (test_wifi codes fuel 2 v w ≡ returned (some v2) w2)
unfolding test_wifi
two_rounds codes fuel v v1 v2 w w1 w2 first second = (
  bind_returned (supervise codes fuel v) (go_on ends) w w1 (some v1) first,
  bind_returned (supervise codes fuel v) (go_on (test_wifi codes fuel 1)) w w1 (some v1) first
      ∙ bind_returned (supervise codes fuel v1) (go_on ends) w1 w2 (some v2) second,
)

-- Where a connection is lost before a check and is still lost after the pause that follows,
-- SimpleLink starts to connect, and the events of the sleeps in `Network_IF_ConnectAP` bring a
-- connection and an address, one round of `test_wifi` stops the sender, calls `wifi_connect` once,
-- and ends connected but with the sender still stopped. If the events of the next sleep keep the
-- connection, the next round starts the sender.
pub connection_recovers :
    (codes : ℕ → ConnectCodes) (fuel : ℕ) (v : WifiWatch) (g : Globals)
    (dropped paused calm : List Event) (rs later : List (List Event))
    → Accepts codes v.reconnections
    → (meaning_all dropped (flags g)).connected ≡ false
    → (meaning_all paused (meaning_all dropped (flags g))).connected ≡ false
    → after_up rs
        (record offline { leased = (meaning_all paused (meaning_all dropped (flags g))).leased })
      ≡ some (calm ∷ later)
    → ((f : Flags) → f.connected ≡ true → (meaning_all calm f).connected ≡ true)
    → (g' : Globals) × (test_wifi codes
          (suc fuel)
          1
          v
          (record { globals = g; rounds = dropped ∷ paused ∷ rs })
        ≡ returned
            (some (record v { send_data = 0; reconnections = v.reconnections + 1 }))
            (record { globals = g'; rounds = calm ∷ later }))
      × (test_wifi codes (suc fuel) 2 v (record { globals = g; rounds = dropped ∷ paused ∷ rs })
          ≡ returned
              (some (record v { send_data = 1; reconnections = v.reconnections + 1 }))
              (record { globals = handle_all calm g'; rounds = later }))
      × (is_connected (handle_all calm g') ≡ true)
unfolding react_to
connection_recovers codes fuel v g dropped paused calm rs later accepts down still up keeps =
    let g1 = handle_all dropped g in
    let v0 : WifiWatch = record v { send_data = 0 } in
    let v1 : WifiWatch = record v0 { reconnections = v.reconnections + 1 } in
    let c = codes v.reconnections in
    let now : World = record { globals = handle_all paused g1; rounds = rs } in
    let f1 : flags g1 ≡ meaning_all dropped (flags g) = (handle_all-flags dropped g).0 in
    let f2 : flags (handle_all paused g1) ≡ meaning_all paused (meaning_all dropped (flags g)) =
      (handle_all-flags paused g1).0 ∙ ap (meaning_all paused) f1 in
    let down' : (flags g1).connected ≡ false = ap (λ (f : Flags). f.connected) f1 ∙ down in
    let still' : (flags (handle_all paused g1)).connected ≡ false =
      ap (λ (f : Flags). f.connected) f2 ∙ still in
    let up' : after_up rs (record offline { leased = (flags (handle_all paused g1)).leased })
        ≡ some (calm ∷ later) =
      ap (λ (f : Flags). after_up rs (record offline { leased = f.leased })) f2 ∙ up in
    let (g', comes, connected, _, _) =
      subst (λ o. Comes o c.statistics (asked codes fuel v0 g1 paused rs now)) up'
        (wifi_connect_starts c.disconnected c.connecting c.configured c.statistics now still'
          accepts.0 accepts.1) in
    let w1 : World = record { globals = g'; rounds = calm ∷ later } in
    let first =
      supervise_checks codes (suc fuel) v g dropped (paused ∷ rs) false down'
      ∙ reconnect_ends codes fuel v0 g1 paused rs w1 c.statistics comes connected in
    let there : (flags (handle_all calm g')).connected ≡ true =
      ap (λ (f : Flags). f.connected) (handle_all-flags calm g').0 ∙ keeps (flags g') connected in
    let second = supervise_checks codes (suc fuel) v1 g' calm later true there in
    let (one, two) =
      two_rounds codes (suc fuel) v v1 (record v1 { send_data = 1 }) _ w1 _ first second in
    (g', one, two, there)
