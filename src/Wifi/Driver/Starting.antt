-- ===== src/Wifi/Driver/Starting.antt =====
-- The network part of `mainThread` of Core/empty.c: `wifi_init`, then `wifi_connect`.
use plhr_firmware.Common.{
  ℕ, Bool, ◌≡◌, refl, sym, ap, ◌∙◌, subst, ◌≢◌, ==_ne, ==_refl, true, false, Option, none, some,
  List, [], ◌∷◌, ◌++◌, append-nil, append_assoc, is_neg, ℤ, pos, negsuc, arith,
}
use plhr_firmware.Wifi.{
  sl_wlan_disconnect, sl_wlan_profile_del, sl_wlan_set, sl_wlan_profile_add, sl_wlan_policy_set,
  sl_device_stat_start, SlCall, sl_start, sl_stop, sl_wlan_connect, get_status_bit, clr_status_bit,
  reset_mcu_state_machine, initialize_app_variables, Globals, Event, handle_all, is_connected,
  is_ip_acquired,
}
use plhr_firmware.Wifi.Status.{Flags, flags, meaning_all, handle_all-flags}
use plhr_firmware.Wifi.Driver.{
  World, Outcome, returned, waiting, ◌>>=◌, ◌>>◌, D, wait_while, sl_call, pure, wifi_init,
  wifi_connect, deinit_driver, disconnect_from_ap, init_driver, connect_ap,
}
use plhr_firmware.Wifi.Driver.Waiting.{after_up, Connects, connect_ap_waits}

-- Neither a connection nor an address.
abbrev pub offline : Flags
offline = record { connected = false; leased = false; acquired = false }

-- What a routine comes to that returns a code once there are a connection and an address.
abbrev pub Comes : Option (List (List Event)) → ℤ → Outcome ℤ → Type 0
Comes none code o = o ≡ waiting
Comes (some rest) code o =
    (g : Globals) × (o ≡ returned code (record { globals = g; rounds = rest }))
    × (is_connected g ≡ true)
    × (is_ip_acquired g ≡ true)
    × (g.led ≡ true)

-- A routine that is known to return is passed.
pub bind_returned :
    {A B : Type 0} (m : D A) (f : A → D B) (w w' : World) (a : A)
    → m w ≡ returned a w'
    → (m >>= f) w ≡ f a w'
bind_returned m f w w' a e = rw (e, ◌>>=◌) refl

-- A routine that is known to wait does not go on.
pub bind_waiting :
    {A B : Type 0} (m : D A) (f : A → D B) (w : World) → m w ≡ waiting → (m >>= f) w ≡ waiting
bind_waiting m f w e = rw (e, ◌>>=◌) refl

-- `wifi_init` where the network processor already runs as a station.
wifi_init_lem :
    (role_sta role_ap : ℕ) (answer stopped set restarted : ℤ) (w : World)
    → role_sta ≢ role_ap
    → (g : Globals) × (wifi_init role_sta role_ap answer stopped (pos role_sta) set restarted w
        ≡ returned (pos 0) (record w { globals = g }))
      × (g.status ≡ 0)
      × (g.calls ≡ (w.globals.calls ++ sl_stop ∷ []) ++ sl_start ∷ [])
unfolding wifi_init deinit_driver disconnect_from_ap init_driver reset_mcu_state_machine
    get_status_bit initialize_app_variables
wifi_init_lem role_sta role_ap answer stopped set restarted w ne =
    rw (==_refl role_sta, ==_ne role_sta role_ap ne) (_, refl, refl, refl)

-- The world when `wifi_connect` calls `Network_IF_ConnectAP`, and what it does with the outcome.
abbrev forgotten : World → World
forgotten w = record w {
  globals = record w.globals {
    calls = (w.globals.calls ++ sl_wlan_profile_del ∷ []) ++ sl_wlan_set ∷ [];
  };
}

abbrev kept_policy : ℤ → Outcome ℤ → D ℤ
kept_policy stat o = do
  _ ← (λ (_ : World). o)
  sl_call sl_wlan_profile_add
  sl_call sl_wlan_policy_set
  sl_call sl_wlan_policy_set
  sl_call sl_device_stat_start
  pure stat

kept_policy-Comes :
    (stat : ℤ) (rest : Option (List (List Event))) (o : Outcome ℤ) (w : World)
    → Connects rest o
    → Comes rest stat (kept_policy stat o w)
kept_policy-Comes stat none o w e = rw e refl
kept_policy-Comes stat (some rest) o w (g, e, c, a, l) = rw e (_, refl, c, a, l)

nonneg : (z : ℤ) → is_neg z ≡ false → (n : ℕ) × (z ≡ pos n)
nonneg (pos n) e = (n, refl)
nonneg (negsuc n) e = absurd (cc e)

below : (z : ℤ) → is_neg z ≡ true → (n : ℕ) × (z ≡ negsuc n)
below (pos n) e = absurd (cc e)
below (negsuc n) e = (n, refl)

-- `wifi_connect` without a connection, where SimpleLink starts to connect: it comes back, connected
-- and with an address, after the first sleep at whose end the events have brought both.
pub wifi_connect_starts :
    (disconnected connecting configured stat : ℤ) (w : World)
    → is_connected w.globals ≡ false
    → is_neg connecting ≡ false
    → is_neg configured ≡ false
    → Comes
        (after_up w.rounds (record offline { leased = (flags w.globals).leased }))
        stat
        (wifi_connect disconnected connecting configured stat w)
unfolding wifi_connect
wifi_connect_starts disconnected connecting configured stat w down going configuring =
    let (k, ek) = nonneg connecting going in
    let (j, ej) = nonneg configured configuring in
    let w' = forgotten w in
    rw (ek, ej) (kept_policy-Comes stat _ _ w' (connect_ap_waits w' k j disconnected down))

-- `wifi_init` and `wifi_connect` where the network processor runs as a station and starts to
-- connect: they come back, connected and with an address, after the first sleep at whose end the
-- events have brought both.
pub network_starts :
    (role_sta role_ap : ℕ)
    (answer stopped started set restarted disconnected connecting configured stat : ℤ) (w : World)
    → role_sta ≢ role_ap
    → started ≡ pos role_sta
    → is_neg connecting ≡ false
    → is_neg configured ≡ false
    → Comes (after_up w.rounds offline) stat (
        (wifi_init role_sta role_ap answer stopped started set restarted >>= λ _.
        wifi_connect disconnected connecting configured stat)
          w)
unfolding wifi_connect get_status_bit
network_starts role_sta role_ap answer stopped started set restarted disconnected connecting
      configured stat w ne station going configuring =
    let (g, e, z, _) = wifi_init_lem role_sta role_ap answer stopped set restarted w ne in
    let leased : (flags g).leased ≡ false = rw z refl in
    let back =
      subst
        (λ (l : Bool).
          Comes (after_up w.rounds (record offline { leased = l })) stat
            (wifi_connect disconnected connecting configured stat (record w { globals = g })))
        leased
        (wifi_connect_starts disconnected connecting configured stat (record w { globals = g })
          (rw z refl) going configuring) in
    rw station (
      subst (Comes (after_up w.rounds offline) stat)
        (sym (
          bind_returned (wifi_init role_sta role_ap answer stopped (pos role_sta) set restarted)
            (λ _. wifi_connect disconnected connecting configured stat) w _ (pos 0) e))
        back)

-- The calls that are noted one after the other.
abbrev snoc_all : List SlCall → List SlCall → List SlCall
snoc_all cs [] = cs
snoc_all cs (k ∷ ks) = snoc_all (cs ++ k ∷ []) ks

snoc_all-append : (cs ks : List SlCall) → snoc_all cs ks ≡ cs ++ ks
snoc_all-append cs [] = sym (append-nil cs)
snoc_all-append cs (k ∷ ks) = snoc_all-append (cs ++ k ∷ []) ks ∙ append_assoc cs (k ∷ []) ks

-- The calls of `wifi_init` where the network processor runs as a station, and those of a
-- `wifi_connect` without a connection whose `sl_WlanConnect` fails.
abbrev pub init_calls : List SlCall
init_calls = sl_stop ∷ sl_start ∷ []

abbrev pub refused_calls : List SlCall
refused_calls =
    sl_wlan_profile_del ∷ sl_wlan_set ∷ sl_wlan_connect ∷ sl_wlan_profile_add ∷ sl_wlan_policy_set
    ∷ sl_wlan_policy_set ∷ sl_device_stat_start ∷ []

-- `Network_IF_ConnectAP` without a connection whose `sl_WlanConnect` fails.
connect_ap_refused :
    (disconnected : ℤ) (k : ℕ) (configured : ℤ) (w : World)
    → w.globals.status ≡ 0
    → (g : Globals) × (connect_ap true disconnected (negsuc k) configured w
        ≡ returned (negsuc k) (record w { globals = g }))
      × (g.status ≡ 0)
      × (g.calls ≡ w.globals.calls ++ sl_wlan_connect ∷ [])
unfolding connect_ap disconnect_from_ap get_status_bit clr_status_bit
connect_ap_refused disconnected k configured w z = rw z (_, refl, refl, refl)

abbrev before_connect : List SlCall
before_connect = sl_wlan_profile_del ∷ sl_wlan_set ∷ sl_wlan_connect ∷ []

abbrev after_connect : List SlCall
after_connect =
    sl_wlan_profile_add ∷ sl_wlan_policy_set ∷ sl_wlan_policy_set ∷ sl_device_stat_start ∷ []

-- Where `sl_WlanConnect` fails, `wifi_connect` comes back at once with the code of its last call,
-- without a connection, and has asked for a connection once.
pub network_refused :
    (role_sta role_ap : ℕ)
    (answer stopped started set restarted disconnected connecting configured stat : ℤ) (w : World)
    → role_sta ≢ role_ap
    → started ≡ pos role_sta
    → is_neg connecting ≡ true
    → (g : Globals) × ((wifi_init role_sta role_ap answer stopped started set restarted >>= λ _.
            wifi_connect disconnected connecting configured stat)
          w
        ≡ returned stat (record w { globals = g }))
      × (is_connected g ≡ false)
      × (g.calls ≡ w.globals.calls ++ (init_calls ++ refused_calls))
unfolding wifi_connect get_status_bit
network_refused role_sta role_ap answer stopped started set restarted disconnected connecting
      configured stat w ne station refused =
    let (k, ek) = below connecting refused in
    let (g, e, z, i) = wifi_init_lem role_sta role_ap answer stopped set restarted w ne in
    let w' = forgotten (record w { globals = g }) in
    let (g', e', z', j) = connect_ap_refused disconnected k configured w' z in
    let ends : kept_policy stat (connect_ap true disconnected (negsuc k) configured w') w'
        ≡ kept_policy stat (returned (negsuc k) (record w' { globals = g' })) w' =
      ap (λ o. kept_policy stat o w') e' in
    rw (station, ek)
      (
        _,
        bind_returned (wifi_init role_sta role_ap answer stopped (pos role_sta) set restarted) _ w _
              (pos 0) e
            ∙ ends,
        rw z' refl,
        ap (λ cs. snoc_all cs after_connect) (j ∙ ap (λ cs. snoc_all cs before_connect) i)
            ∙ snoc_all-append w.globals.calls (init_calls ++ refused_calls),
      )

-- There is a connection, before the sleeps and at the end of each.
abbrev pub StaysUp : List (List Event) → Flags → Type 0
StaysUp [] f = f.connected ≡ true
StaysUp (r ∷ rs) f = (f.connected ≡ true) × StaysUp rs (meaning_all r f)

StaysUp-now : (rs : List (List Event)) (f : Flags) → StaysUp rs f → f.connected ≡ true
StaysUp-now [] f h = h
StaysUp-now (r ∷ rs) f h = h.0

-- A wait whose condition holds.
wait_on :
    (p : Globals → Bool) (g : Globals) (r : List Event) (rs : List (List Event))
    → p g ≡ true
    → (wait_while p g [] ≡ waiting) × (wait_while p g (r ∷ rs) ≡ wait_while p (handle_all r g) rs)
unfolding wait_while
wait_on p g r rs e = (rw (e, wait_while) refl, rw (e, wait_while) refl)

-- The wait for a disconnection that does not come.
wait_still :
    (g : Globals) (rs : List (List Event))
    → StaysUp rs (flags g)
    → wait_while is_connected g rs ≡ waiting
wait_still g [] h = (wait_on is_connected g [] [] h).0
wait_still g (r ∷ rs) h =
    let next : StaysUp rs (flags (handle_all r g)) =
      subst (StaysUp rs) (sym (handle_all-flags r g).0) h.1 in
    (wait_on is_connected g r rs h.0).1 ∙ wait_still (handle_all r g) rs next

disconnect_hangs :
    (g : Globals) (rs : List (List Event))
    → StaysUp rs (flags g)
    → disconnect_from_ap (pos 0) (record { globals = g; rounds = rs }) ≡ waiting
unfolding disconnect_from_ap
disconnect_hangs g rs h =
    let up : is_connected g ≡ true = StaysUp-now rs (flags g) h in
    let still = wait_still (record g { calls = g.calls ++ sl_wlan_disconnect ∷ [] }) rs h in
    ground (arith, up, still)

-- `wifi_connect` with a connection: it takes it down, and while no event tells so, it does not come
-- back.
pub wifi_connect_hangs :
    (connecting configured stat : ℤ) (g : Globals) (rs : List (List Event))
    → StaysUp rs (flags g)
    → wifi_connect (pos 0) connecting configured stat (record { globals = g; rounds = rs })
      ≡ waiting
unfolding wifi_connect connect_ap
wifi_connect_hangs connecting configured stat g rs h =
    let w : World = record { globals = g; rounds = rs } in
    let now = (forgotten w).globals in
    let hangs = disconnect_hangs (record now { connect_index = 0 }) rs h in ground (arith, hangs)
