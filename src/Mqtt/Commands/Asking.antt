-- ===== src/Mqtt/Commands/Asking.antt =====
-- How `ask_for_id` gets the device its identity.
use plhr_firmware.Common.{
  ℕ, suc, ◌+◌, ◌≡◌, refl, sym, ap, ap₂, ◌∙◌, ◌≢◌, false, Option, none, some, List, [], ◌∷◌, ◌++◌,
  length, replicate, replicate-snoc, append-nil, append_assoc, ◌==◌, ==_ne, ℤ, pos, arith,
}
use plhr_firmware.Mqtt.Context.{connected, publish, Context, ok, bind_ok, M, pure}
use plhr_firmware.Mqtt.Device.{
  Device, cmd_zero, commands, topic_pub_cmd, default_id_device, type_cmd_default_id, mqtt_publish,
}
use plhr_firmware.Mqtt.Device.Identity.{
  resp_id, mac, cmd_zero-own, Ignored, commands-Ignored, commands_one,
}
use plhr_firmware.Mqtt.Device.Publishing.{mqtt_publish_default}
use plhr_firmware.Mqtt.Commands.{
  ready_message, Asked, answered, asking, bad_read, ask_loop, ask_for_id,
}

-- The device before it has an identity.
abbrev pub unnamed : Device → Device
unnamed d = record d { id_device = 255 }

abbrev pub AllIgnored : Device → List (List (List ℕ)) → Type 0
AllIgnored d [] = Unit {0}
AllIgnored d (ps ∷ sleeps) = Ignored d ps × AllIgnored d sleeps

-- The context after `k` publications of a message to the topic of the default identity.
abbrev pub after : ℕ → List ℕ → Context → Context
after k msg c = record c {
  mutex = some false;
  calls = c.calls ++ replicate k (publish (topic_pub_cmd ++ default_id_device) msg 0);
}

once_more : (msg : List ℕ) (k : ℕ) (c : Context) → after 1 msg (after k msg c) ≡ after (suc k) msg c
once_more msg k c =
    let one = publish (topic_pub_cmd ++ default_id_device) msg 0 in
    ap (λ z. record c { mutex = some false; calls = z })
      (append_assoc c.calls (replicate k one) (one ∷ [])
        ∙ ap (λ r. c.calls ++ r) (replicate-snoc k one))

module _ (msg : List ℕ) (answer : ℕ → ℤ) (d : Device) where
  -- How the loop goes on with the device that a sleep leaves.
  abbrev go_on : ℕ → List (List (List ℕ)) → ℤ → Option Device → M Asked
  go_on n sleeps r o = elim o [
    | none ↦ pure bad_read
    | some d' ↦ ask_loop msg answer (suc n) r sleeps d'
  ]

  ask_round :
      (n : ℕ) (ret : ℤ) (ps : List (List ℕ)) (sleeps : List (List (List ℕ))) (c : Context)
      → c.mutex ≡ some false
      → c.module_state ≡ connected
      → ask_loop msg answer n ret (ps ∷ sleeps) (unnamed d) c
        ≡ go_on n sleeps (answer n) (commands ps (unnamed d)) (after 1 msg c)
  unfolding ask_loop
  ask_round n ret ps sleeps c ready s =
      bind_ok (mqtt_publish type_cmd_default_id 255 msg (answer n))
        (λ r. go_on n sleeps r (commands ps (unnamed d))) c (after 1 msg c) (answer n)
        (mqtt_publish_default c 255 msg (answer n) ready s)

  after-after : (k : ℕ) (c : Context) → after k msg (after 1 msg c) ≡ after (suc k) msg c
  after-after k c = ap (λ z. record c { mutex = some false; calls = z }) (append_assoc c.calls _ _)

  -- Through sleeps whose commands leave the device as it is the loop goes on asking.
  ask_quiet :
      (n : ℕ) (ret : ℤ) (quiet sleeps : List (List (List ℕ))) (c : Context)
      → c.mutex ≡ some false
      → c.module_state ≡ connected
      → AllIgnored (unnamed d) quiet
      → (r : ℤ) × (ask_loop msg answer n ret (quiet ++ sleeps) (unnamed d) c
          ≡ ask_loop msg answer
              (length quiet + n)
              r
              sleeps
              (unnamed d)
              (after (length quiet) msg c))
  ask_quiet n ret [] sleeps c ready s h =
      let z : n ≡ 0 + n = omega arith in
      (
        ret,
        λ i.
            ask_loop msg answer (z i) ret sleeps (unnamed d)
              (record c { mutex = ready i; calls = sym (append-nil c.calls) i }),
      )
  ask_quiet n ret (ps ∷ quiet) sleeps c ready s h =
      let move : length quiet + suc n ≡ suc (length quiet) + n = omega arith in
      let (r, rest) = ask_quiet (suc n) (answer n) quiet sleeps (after 1 msg c) refl s h.1 in
      (
        r,
        ask_round n ret ps (quiet ++ sleeps) c ready s
            ∙ ap (λ o. go_on n (quiet ++ sleeps) (answer n) o (after 1 msg c))
                (commands-Ignored (unnamed d) ps h.0)
            ∙ rest
            ∙ ap₂ (λ k c'. ask_loop msg answer k r sleeps (unnamed d) c') move
                (after-after (length quiet) c),
      )

  ask_named :
      (n : ℕ) (ret : ℤ) (sleeps : List (List (List ℕ))) (c : Context) (d' : Device)
      → (d'.id_device == 255) ≡ false
      → ask_loop msg answer n ret sleeps d' c ≡ ok (answered ret d' n) c
  unfolding ask_loop
  ask_named n ret [] c d' ne = ground (arith, ne)
  ask_named n ret (ps ∷ sleeps) c d' ne = ground (arith, ne)

  ask_answered :
      (n : ℕ) (ret : ℤ) (p : List ℕ) (sleeps : List (List (List ℕ))) (c : Context) (d' : Device)
      → c.mutex ≡ some false
      → c.module_state ≡ connected
      → cmd_zero p (unnamed d) ≡ some d'
      → (d'.id_device == 255) ≡ false
      → ask_loop msg answer n ret ((p ∷ []) ∷ sleeps) (unnamed d) c
        ≡ ok (answered (answer n) d' (suc n)) (after 1 msg c)
  ask_answered n ret p sleeps c d' ready s e ne =
      ask_round n ret (p ∷ []) sleeps c ready s
      ∙ ap (λ o. go_on n sleeps (answer n) o (after 1 msg c)) (commands_one (unnamed d) p ∙ e)
      ∙ ask_named (suc n) (answer n) sleeps (after 1 msg c) d' ne

  ask_unanswered :
      (n : ℕ) (ret : ℤ) (c : Context) → ask_loop msg answer n ret [] (unnamed d) c ≡ ok (asking n) c
  unfolding ask_loop
  ask_unanswered n ret c = refl

-- On a connected module, `ask_for_id` publishes its message once before each sleep, to the topic of
-- the default identity, and goes on asking through every sleep whose commands leave the device as
-- it is, whatever the publications return. The first answer of the server for its own MAC address
-- with an identity other than 255 ends it: the device has that identity, and the code is that of
-- the last publication.
pub ask_for_id_lem :
    (m0 m1 m2 m3 m4 m5 id : ℕ) (d : Device) (answer : ℕ → ℤ) (quiet sleeps : List (List (List ℕ)))
    (c : Context)
    → d.mac_address ≡ mac m0 m1 m2 m3 m4 m5
    → id ≢ 255
    → AllIgnored (unnamed d) quiet
    → c.mutex ≡ some false
    → c.module_state ≡ connected
    → (ask_for_id answer quiet d c
        ≡ ok (asking (length quiet)) (after (length quiet) (ready_message 255 d.mac_address) c))
      × (ask_for_id answer (quiet ++ (resp_id (mac m0 m1 m2 m3 m4 m5) id ∷ []) ∷ sleeps) d c
          ≡ ok
              (answered (answer (length quiet)) (record d { id_device = id }) (suc (length quiet)))
              (after (suc (length quiet)) (ready_message 255 d.mac_address) c))
unfolding ask_for_id
ask_for_id_lem m0 m1 m2 m3 m4 m5 id d answer quiet sleeps c own ne h ready s =
    let msg : List ℕ = ready_message 255 d.mac_address in
    let plus_zero : length quiet + 0 ≡ length quiet = omega arith in
    let last = (resp_id (mac m0 m1 m2 m3 m4 m5) id ∷ []) ∷ sleeps in
    let (r, silent) = ask_quiet msg answer d 0 (pos 0) quiet [] c ready s h in
    let (r', runs) = ask_quiet msg answer d 0 (pos 0) quiet last c ready s h in
    (
      ap (λ qs. ask_loop msg answer 0 (pos 0) qs (unnamed d) c) (sym (append-nil quiet))
          ∙ silent
          ∙ ap (λ k. ask_loop msg answer k r [] (unnamed d) (after (length quiet) msg c)) plus_zero
          ∙ ask_unanswered msg answer d (length quiet) r (after (length quiet) msg c),
      runs
          ∙ ap (λ k. ask_loop msg answer k r' last (unnamed d) (after (length quiet) msg c))
              plus_zero
          ∙ ask_answered msg answer d (length quiet) r' (resp_id (mac m0 m1 m2 m3 m4 m5) id) sleeps
              (after (length quiet) msg c) (record d { id_device = id }) refl s
              (cmd_zero-own m0 m1 m2 m3 m4 m5 id (unnamed d) own) (==_ne id 255 ne)
          ∙ ap
              (ok (
                answered (answer (length quiet)) (record d { id_device = id })
                  (suc (length quiet))))
              (once_more msg (length quiet) c),
    )
