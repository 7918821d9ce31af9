-- ===== src/Wifi/Status.antt =====
-- The status word against three flags.
use plhr_firmware.Common.{
  ℕ, zero, suc, ◌-◌, ◌*◌, ◌/◌, ◌^◌, max, min, ◌<◌, ◌≡◌, refl, sym, ap, ◌∙◌, Bool, true, false, not,
  List, [], ◌∷◌, ◌==◌, bit_and, bit_or, bit_and_comm, bit_and_shifted, bit_and_mask, pow_pos, digit,
  digit-bit_or, digit-bit_and, if◌then◌else◌, arith, ==_ne,
}
use plhr_firmware.Wifi.{
  set_status_bit, clr_status_bit, get_status_bit, Globals, wlan_connect, wlan_disconnect, sta_added,
  sta_removed, wlan_other, ipv4_acquired, ipv6_acquired, dhcpv4_leased, dhcpv4_released,
  netapp_other, wlan_event_handler, net_app_event_handler, Event, wlan, net_app, handle, handle_all,
  test_wifi_connection,
}

bit_and-pow : (s b : ℕ) → bit_and s (2 ^ b) ≡ digit s b * 2 ^ b
bit_and-pow s b =
    let one : 1 * 2 ^ b ≡ 2 ^ b = omega arith in
    bit_and_comm s (2 ^ b)
    ∙ ap (λ (t : ℕ). bit_and t s) (sym one)
    ∙ bit_and_shifted b s 1
    ∙ ap (λ (t : ℕ). t * 2 ^ b) (bit_and_comm 1 (s / 2 ^ b) ∙ bit_and_mask 1 (s / 2 ^ b))

one_digit : (d p : ℕ) → d < 2 → 0 < p → not (d * p == 0) ≡ (d == 1)
one_digit zero p h k = ground arith
one_digit (suc zero) p h k =
    let ne : (1 * p == 0) ≡ false = ==_ne (1 * p) 0 (omega arith) in rw ne refl
one_digit (suc (suc d)) p h k = absurd (omega arith)

-- `GET_STATUS_BIT` reads the binary digit.
get_status_bit_lem : (s b : ℕ) → get_status_bit s b ≡ (digit s b == 1)
unfolding get_status_bit
get_status_bit_lem s b =
    ap (λ (t : ℕ). not (t == 0)) (bit_and-pow s b)
    ∙ one_digit (digit s b) (2 ^ b) (omega arith) (pow_pos b)

get-set : (s b k : ℕ) → digit (2 ^ b) k ≡ 1 → get_status_bit (set_status_bit s b) k ≡ true
unfolding set_status_bit
get-set s b k on =
    let m : max (digit s k) 1 ≡ 1 = omega arith in
    get_status_bit_lem (bit_or s (2 ^ b)) k
    ∙ ap (λ (t : ℕ). t == 1) (digit-bit_or k s (2 ^ b) ∙ ap (λ (t : ℕ). max (digit s k) t) on ∙ m)

get-set_other :
    (s b k : ℕ) → digit (2 ^ b) k ≡ 0 → get_status_bit (set_status_bit s b) k ≡ get_status_bit s k
unfolding set_status_bit
get-set_other s b k off =
    let m : max (digit s k) 0 ≡ digit s k = omega arith in
    get_status_bit_lem (bit_or s (2 ^ b)) k
    ∙ ap (λ (t : ℕ). t == 1) (digit-bit_or k s (2 ^ b) ∙ ap (λ (t : ℕ). max (digit s k) t) off ∙ m)
    ∙ sym (get_status_bit_lem s k)

get-clr :
    (s b k : ℕ) → digit (2 ^ 32 - 1 - 2 ^ b) k ≡ 0 → get_status_bit (clr_status_bit s b) k ≡ false
unfolding clr_status_bit
get-clr s b k off =
    let m : min (digit s k) 0 ≡ 0 = omega arith in
    get_status_bit_lem (bit_and s (2 ^ 32 - 1 - 2 ^ b)) k
    ∙ ap (λ (t : ℕ). t == 1)
        (digit-bit_and k s (2 ^ 32 - 1 - 2 ^ b) ∙ ap (λ (t : ℕ). min (digit s k) t) off ∙ m)

get-clr_other :
    (s b k : ℕ)
    → digit (2 ^ 32 - 1 - 2 ^ b) k ≡ 1
    → get_status_bit (clr_status_bit s b) k ≡ get_status_bit s k
unfolding clr_status_bit
get-clr_other s b k on =
    let m : min (digit s k) 1 ≡ digit s k = omega arith in
    get_status_bit_lem (bit_and s (2 ^ 32 - 1 - 2 ^ b)) k
    ∙ ap (λ (t : ℕ). t == 1)
        (digit-bit_and k s (2 ^ 32 - 1 - 2 ^ b) ∙ ap (λ (t : ℕ). min (digit s k) t) on ∙ m)
    ∙ sym (get_status_bit_lem s k)

-- What the handlers keep track of.
pub record Flags : Type 0 where
  pub connected : Bool
  pub leased : Bool
  pub acquired : Bool

abbrev pub flags : Globals → Flags
flags g = record {
  connected = get_status_bit g.status 1;
  leased = get_status_bit g.status 2;
  acquired = get_status_bit g.status 3;
}

-- What an event means: a lost connection also loses the address, and a station that leaves its
-- lease.
abbrev pub meaning : Event → Flags → Flags
meaning (wlan (wlan_connect _ _)) f = record f { connected = true }
meaning (wlan (wlan_disconnect _)) f = record f { connected = false; acquired = false }
meaning (wlan sta_added) f = record f { connected = true }
meaning (wlan sta_removed) f = record f { connected = false; leased = false }
meaning (wlan wlan_other) f = f
meaning (net_app ipv4_acquired) f = record f { acquired = true }
meaning (net_app ipv6_acquired) f = record f { acquired = true }
meaning (net_app (dhcpv4_leased _)) f = record f { leased = true }
meaning (net_app dhcpv4_released) f = record f { leased = false }
meaning (net_app netapp_other) f = f

abbrev pub meaning_all : List Event → Flags → Flags
meaning_all [] f = f
meaning_all (e ∷ es) f = meaning_all es (meaning e f)

flags_of :
    (a a' b b' c c' : Bool)
    → a ≡ a'
    → b ≡ b'
    → c ≡ c'
    → Path Flags
        (record { connected = a; leased = b; acquired = c })
        (record { connected = a'; leased = b'; acquired = c' })
flags_of a a' b b' c c' p q r = λ i. record { connected = p i; leased = q i; acquired = r i }

pub handle-flags : (e : Event) (g : Globals) → flags (handle e g) ≡ meaning e (flags g)
unfolding handle wlan_event_handler net_app_event_handler
handle-flags (wlan (wlan_connect ssid bssid)) g =
    flags_of _ _ _ _ _ _ (get-set g.status 1 1 refl) (get-set_other g.status 1 2 refl)
      (get-set_other g.status 1 3 refl)
handle-flags (wlan (wlan_disconnect reason)) g =
    let s1 = clr_status_bit g.status 1 in
    flags_of _ _ _ _ _ _ (get-clr_other s1 3 1 refl ∙ get-clr g.status 1 1 refl)
      (get-clr_other s1 3 2 refl ∙ get-clr_other g.status 1 2 refl) (get-clr s1 3 3 refl)
handle-flags (wlan sta_added) g =
    flags_of _ _ _ _ _ _ (get-set g.status 1 1 refl) (get-set_other g.status 1 2 refl)
      (get-set_other g.status 1 3 refl)
handle-flags (wlan sta_removed) g =
    let s1 = clr_status_bit g.status 1 in
    flags_of _ _ _ _ _ _ (get-clr_other s1 2 1 refl ∙ get-clr g.status 1 1 refl)
      (get-clr s1 2 2 refl) (get-clr_other s1 2 3 refl ∙ get-clr_other g.status 1 3 refl)
handle-flags (wlan wlan_other) g = refl
handle-flags (net_app ipv4_acquired) g =
    flags_of _ _ _ _ _ _ (get-set_other g.status 3 1 refl) (get-set_other g.status 3 2 refl)
      (get-set g.status 3 3 refl)
handle-flags (net_app ipv6_acquired) g =
    flags_of _ _ _ _ _ _ (get-set_other g.status 3 1 refl) (get-set_other g.status 3 2 refl)
      (get-set g.status 3 3 refl)
handle-flags (net_app (dhcpv4_leased ip)) g =
    flags_of _ _ _ _ _ _ (get-set_other g.status 2 1 refl) (get-set g.status 2 2 refl)
      (get-set_other g.status 2 3 refl)
handle-flags (net_app dhcpv4_released) g =
    flags_of _ _ _ _ _ _ (get-clr_other g.status 2 1 refl) (get-clr g.status 2 2 refl)
      (get-clr_other g.status 2 3 refl)
handle-flags (net_app netapp_other) g = refl

-- After any events, in any order and from any status word, the bits for a connection, a lease and
-- an address are what the events mean, and `test_wifi_connection` gives the connection flag.
pub handle_all-flags :
    (es : List Event) (g : Globals)
    → (flags (handle_all es g) ≡ meaning_all es (flags g))
      × (test_wifi_connection (handle_all es g)
          ≡ (if (meaning_all es (flags g)).connected then 1 else 0))
unfolding test_wifi_connection
handle_all-flags [] g = (refl, refl)
handle_all-flags (e ∷ es) g =
    let (f, t) = handle_all-flags es (handle e g) in
    let step = ap (λ x. meaning_all es x) (handle-flags e g) in
    (f ∙ step, t ∙ ap (λ x. if x.connected then 1 else 0) step)
