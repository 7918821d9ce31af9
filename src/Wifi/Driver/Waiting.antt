-- ===== src/Wifi/Driver/Waiting.antt =====
-- When `Network_IF_ConnectAP` and `Network_IF_DisconnectFromAP` come back.
use plhr_firmware.Common.{
  ℕ, ◌≡◌, refl, subst, Bool, true, false, not, ◌&&◌, Option, none, some, List, [], ◌∷◌, ◌++◌, ℤ,
  pos, arith, Bool-cases, inl, inr,
}
use plhr_firmware.Wifi.{
  handle, wlan, wlan_disconnect, get_status_bit, sl_wlan_connect, sl_stop, Globals, Event,
  handle_all, is_connected, is_ip_acquired,
}
use plhr_firmware.Wifi.Status.{Flags, flags, meaning_all, handle_all-flags, handle-flags}
use plhr_firmware.Wifi.Driver.{
  World, Outcome, returned, waiting, looping, connect_wait, connect_ap, clear_connection,
  disconnect_from_ap, wifi_deinit,
}

abbrev up : Flags → Bool
up f = f.connected && f.acquired

-- The sleeps that are left after the first one at whose end there are a connection and an address.
abbrev pub after_up : List (List Event) → Flags → Option (List (List Event))
after_up [] f = none
after_up (r ∷ rs) f = elim (up (meaning_all r f)) [
  | true ↦ some rs
  | false ↦ after_up rs (meaning_all r f)
]

-- What the wait comes to: it returns with those sleeps left, connected, or still waits.
abbrev pub Waits : Option (List (List Event)) → Outcome (Unit {0}) → Type 0
Waits none o = o ≡ waiting
Waits (some rest) o =
    (g : Globals) × (o ≡ returned tt (record { globals = g; rounds = rest }))
    × (is_connected g ≡ true)
    × (is_ip_acquired g ≡ true)
    × (g.led ≡ true)

wait_step :
    (next : Globals) (rs : List (List Event)) (o : Outcome (Unit {0}))
    → Waits (after_up rs (flags next)) o
    → Waits
        (elim (up (flags next)) [ true ↦ some rs | false ↦ after_up rs (flags next) ])
        (elim (is_connected next && is_ip_acquired next) [
          | true ↦ returned tt (record { globals = record next { led = true }; rounds = rs })
          | false ↦ o
        ])
wait_step next rs o ih = elim (Bool-cases (is_connected next)) [
  | inl c ↦ elim (Bool-cases (is_ip_acquired next)) [
    | inl a ↦ rw (c, a) (record next { led = true }, refl, c, a, refl)
    | inr a ↦ rw (c, a) ih
  ]
  | inr c ↦ rw c ih
]

connect_wait_lem :
    (g : Globals) (rs : List (List Event)) → Waits (after_up rs (flags g)) (connect_wait g rs)
unfolding connect_wait
connect_wait_lem g [] = refl
connect_wait_lem g (r ∷ rs) =
    let next = handle_all r (record g { led = not g.led }) in
    subst
      (λ (m : Flags).
        Waits (elim (up m) [ true ↦ some rs | false ↦ after_up rs m ]) (connect_wait g (r ∷ rs)))
      (handle_all-flags r (record g { led = not g.led })).0
      (wait_step next rs (connect_wait next rs) (connect_wait_lem next rs))

-- The globals when `Network_IF_ConnectAP` starts to wait.
abbrev connecting_globals : Globals → Globals
connecting_globals g = record (clear_connection (record g { connect_index = 0 })) {
  calls = g.calls ++ sl_wlan_connect ∷ [];
  led = true;
}

pub disconnected :
    (w : World) (d : ℤ)
    → is_connected w.globals ≡ false
    → disconnect_from_ap d w ≡ returned (pos 0) w
unfolding disconnect_from_ap
disconnected w d down = ground (arith, down)

connect_ap_run :
    (w : World) (k j : ℕ) (d : ℤ) (o : Outcome (Unit {0}))
    → is_connected w.globals ≡ false
    → connect_wait (connecting_globals w.globals) w.rounds ≡ o
    → connect_ap true d (pos k) (pos j) w
      ≡ (elim o [ returned _ w' ↦ returned (pos 0) w' | waiting ↦ waiting | looping ↦ looping ])
unfolding connect_ap
connect_ap_run w k j d o down run =
    let idle : World = record w { globals = record w.globals { connect_index = 0 } } in
    let first = disconnected idle d down in ground (arith, first, run)

-- What `Network_IF_ConnectAP` comes to.
abbrev pub Connects : Option (List (List Event)) → Outcome ℤ → Type 0
Connects none o = o ≡ waiting
Connects (some rest) o =
    (g : Globals) × (o ≡ returned (pos 0) (record { globals = g; rounds = rest }))
    × (is_connected g ≡ true)
    × (is_ip_acquired g ≡ true)
    × (g.led ≡ true)

connects :
    (w : World) (k j : ℕ) (d : ℤ) (rest : Option (List (List Event)))
    → is_connected w.globals ≡ false
    → Waits rest (connect_wait (connecting_globals w.globals) w.rounds)
    → Connects rest (connect_ap true d (pos k) (pos j) w)
connects w k j d none down run = connect_ap_run w k j d waiting down run
connects w k j d (some rest) down (g, run, c, a, l) = (
  g,
  connect_ap_run w k j d (returned tt (record { globals = g; rounds = rest })) down run,
  c,
  a,
  l,
)

-- From a globals record without a connection, with an SSID and no failing call,
-- `Network_IF_ConnectAP` comes back with 0 after the first sleep at whose end the events have
-- brought both a connection and an address, connected, with an address and the LED on; while no
-- sleep does, it waits. Its view of the events starts without a connection or an address, whatever
-- came before.
pub connect_ap_waits :
    (w : World) (k j : ℕ) (d : ℤ)
    → is_connected w.globals ≡ false
    → Connects
        (after_up w.rounds
          (record { connected = false; leased = (flags w.globals).leased; acquired = false }))
        (connect_ap true d (pos k) (pos j) w)
unfolding handle
connect_ap_waits w k j d down =
    subst (λ f. Connects (after_up w.rounds f) (connect_ap true d (pos k) (pos j) w))
      (handle-flags (wlan (wlan_disconnect 0)) w.globals)
      (connects w k j d _ down (connect_wait_lem (connecting_globals w.globals) w.rounds))

-- `wifi_deinit` clears the status word before it looks for a connection, so that it never
-- disconnects from the access point and never waits: its only call is `sl_Stop`, whose code it
-- returns.
pub wifi_deinit_never_disconnects :
    (w : World) (d stopped : ℤ)
    → wifi_deinit d stopped w
      ≡ returned stopped (record w {
        globals = record w.globals { status = 0; calls = w.globals.calls ++ sl_stop ∷ [] };
      })
unfolding wifi_deinit get_status_bit
wifi_deinit_never_disconnects w d stopped = refl
