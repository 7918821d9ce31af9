-- ===== src/Mqtt/Device/Identity.antt =====
-- How the device takes its identity from a command.
use plhr_firmware.Common.{
  ℕ, ◌+◌, ◌*◌, ◌/◌, ◌%◌, ◌≡◌, refl, sym, ap, ap₂, ◌∙◌, ◌≢◌, true, false, ◌&&◌, Option, none, some,
  List, [], ◌∷◌, ◌++◌, ◌==◌, ==_iff, ==_refl, ==_ne, if◌then◌else◌, arith, Bool-cases, inl, inr,
}
use plhr_firmware.Mqtt.Device.{
  Device, op_cmd, cmd_resp_id, same_bytes, take_id, take_command, cmd_zero, commands,
}

-- A `CMD_RESP_ID` of the server as it lies in memory, for a MAC address and an identity: its 14
-- bytes, and the zero byte that `MQTTClientCallback` puts behind them.
abbrev pub resp_id : List ℕ → ℕ → List ℕ
resp_id mac id = 0 ∷ op_cmd ∷ 14 ∷ 0 ∷ cmd_resp_id ∷ 0 ∷ mac ++ id % 256 ∷ id / 256 ∷ 0 ∷ []

-- A MAC address of six bytes.
abbrev pub mac : ℕ → ℕ → ℕ → ℕ → ℕ → ℕ → List ℕ
mac m0 m1 m2 m3 m4 m5 = m0 ∷ m1 ∷ m2 ∷ m3 ∷ m4 ∷ m5 ∷ []

same_bytes_refl : (bs : List ℕ) → same_bytes bs bs ≡ true
same_bytes_refl [] = refl
same_bytes_refl (b ∷ bs) = rw (==_refl b) (same_bytes_refl bs)

same_bytes_sound : (xs bs : List ℕ) → same_bytes xs bs ≡ true → xs ≡ bs
same_bytes_sound [] [] h = refl
same_bytes_sound [] (b ∷ bs) h = ground arith
same_bytes_sound (a ∷ xs) [] h = ground arith
same_bytes_sound (a ∷ xs) (b ∷ bs) h = elim (Bool-cases (a == b)) [
  | inl e ↦
      (let rest : same_bytes xs bs ≡ true = sym (ap (λ x. x && same_bytes xs bs) e) ∙ h in
        ap₂ (λ x y. x ∷ y) ((==_iff a b).0 e) (same_bytes_sound xs bs rest))
  | inr e ↦ (let bad : false ≡ true = sym (ap (λ x. x && same_bytes xs bs) e) ∙ h in ground arith)
]

pub cmd_zero-own :
    (m0 m1 m2 m3 m4 m5 id : ℕ) (d : Device)
    → d.mac_address ≡ mac m0 m1 m2 m3 m4 m5
    → cmd_zero (resp_id (mac m0 m1 m2 m3 m4 m5) id) d ≡ some (record d { id_device = id })
unfolding cmd_zero take_command take_id
cmd_zero-own m0 m1 m2 m3 m4 m5 id d own =
    let m = mac m0 m1 m2 m3 m4 m5 in
    let split : id % 256 + 256 * (id / 256) ≡ id = omega arith in
    let same : same_bytes m d.mac_address ≡ true = rw own (same_bytes_refl m) in
    ap (λ b. some (if b then record d { id_device = id % 256 + 256 * (id / 256) } else d)) same
    ∙ ap (λ n. some (record d { id_device = n })) split

-- An answer of the server reaches every device that listens. The device with the MAC address in it
-- takes the identity, whatever it had before; a device with another address stays as it is.
pub cmd_zero-resp_id :
    (m0 m1 m2 m3 m4 m5 id : ℕ) (own other : Device)
    → own.mac_address ≡ mac m0 m1 m2 m3 m4 m5
    → other.mac_address ≢ mac m0 m1 m2 m3 m4 m5
    → (cmd_zero (resp_id (mac m0 m1 m2 m3 m4 m5) id) own ≡ some (record own { id_device = id }))
      × (cmd_zero (resp_id (mac m0 m1 m2 m3 m4 m5) id) other ≡ some other)
unfolding cmd_zero take_command take_id
cmd_zero-resp_id m0 m1 m2 m3 m4 m5 id own other same differs =
    let m = mac m0 m1 m2 m3 m4 m5 in
    let taken : Device = record other { id_device = id % 256 + 256 * (id / 256) } in
    (
      cmd_zero-own m0 m1 m2 m3 m4 m5 id own same,
      elim (Bool-cases (same_bytes m other.mac_address)) [
        | inl e ↦ absurd (differs (sym (same_bytes_sound m other.mac_address e)))
        | inr e ↦ ap (λ b. some (if b then taken else other)) e
      ],
    )

-- Commands that leave the device as it is.
abbrev pub Ignored : Device → List (List ℕ) → Type 0
Ignored d [] = Unit {0}
Ignored d (p ∷ ps) = (cmd_zero p d ≡ some d) × Ignored d ps

pub commands-Ignored : (d : Device) (ps : List (List ℕ)) → Ignored d ps → commands ps d ≡ some d
unfolding commands
commands-Ignored d [] h = refl
commands-Ignored d (p ∷ ps) h = rw (h.0, commands) (commands-Ignored d ps h.1)

-- Of a sleep in which one command arrives, that command.
pub commands_one : (d : Device) (p : List ℕ) → commands (p ∷ []) d ≡ cmd_zero p d
unfolding commands
commands_one d p = same (cmd_zero p d)
  where
    same : (o : Option Device) → (elim o [ none ↦ none | some d' ↦ some d' ]) ≡ o
    same none = refl
    same (some d') = refl

-- A command other than `CMD_RESP_ID`, or one of another sender, leaves the device as it is.
pub cmd_zero_other :
    (x op l0 l1 c0 c1 : ℕ) (p : List ℕ) (d : Device)
    → c0 + 256 * c1 ≢ cmd_resp_id
    → cmd_zero (x ∷ op ∷ l0 ∷ l1 ∷ c0 ∷ c1 ∷ p) d ≡ some d
unfolding cmd_zero take_command
cmd_zero_other x op l0 l1 c0 c1 p d ne =
    let other = ==_ne (c0 + 256 * c1) cmd_resp_id ne in ground (arith, other)
