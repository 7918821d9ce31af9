-- ===== src/Outage/Keeping.antt =====
-- What every action of `send_data` and `test_wifi` keeps of a state, and so the runs.
use plhr_firmware.Common.{
  ℕ, zero, suc, ◌+◌, ◌≡◌, inl, inr, refl, subst, Bool, true, false, Option, none, some, List, [],
  ◌∷◌, ltb, leb, ◌==◌, Bool-cases, if◌then◌else◌, ℤ, is_neg, arith,
}
use plhr_firmware.Downsampling.{Args}
use plhr_firmware.Outage.{
  Phase, pending, waiting, publishing, Uplink, watchdog_timer, Action, downsamples, time_comes,
  checks, connects, takes, reads, publishes, passes, check, connect_again, take_up, read_status,
  publish, pass_time, when_pending, when_waiting, when_publishing, perform, act, run,
}

abbrev pub is_publishing : Phase → Bool
is_publishing pending = false
is_publishing waiting = false
is_publishing publishing = true

-- A check that finds a connection.
abbrev pub finds_connection : Action → Bool
finds_connection (downsamples i) = false
finds_connection (time_comes s) = false
finds_connection (checks status) = status == 1
finds_connection (connects status) = false
finds_connection takes = false
finds_connection reads = false
finds_connection (publishes answer) = false
finds_connection (passes ms) = false

abbrev pub FindsNone : List Action → Type 0
FindsNone [] = Unit {0}
FindsNone (x ∷ later) = (finds_connection x ≡ false) × FindsNone later

-- The milliseconds that pass.
abbrev pub lasts : Action → ℕ
lasts (downsamples i) = 0
lasts (time_comes s) = 0
lasts (checks status) = 0
lasts (connects status) = 0
lasts takes = 0
lasts reads = 0
lasts (publishes answer) = 0
lasts (passes ms) = ms

abbrev pub elapsed : List Action → ℕ
elapsed [] = 0
elapsed (x ∷ later) = lasts x + elapsed later

abbrev pub number : Phase → ℕ
number pending = 0
number waiting = 1
number publishing = 2

-- What holds of a state, where there is one.
abbrev pub After : (Uplink → Type 0) → Option Uplink → Type 0
After P none = Unit {0}
After P (some u) = P u

module _ (P : Uplink → Type 0) (o : Option Uplink) where
  pub if-After : (b : Bool) → (b ≡ true → After P o) → After P (if b then o else none)
  if-After true h = h refl
  if-After false h = tt

  pub unless-After : (b : Bool) → (b ≡ false → After P o) → After P (if b then none else o)
  unless-After true h = tt
  unless-After false h = h refl

  pub when_pending-After : (x : Phase) → (x ≡ pending → After P o) → After P (when_pending x o)
  unfolding when_pending
  when_pending-After pending h = h refl
  when_pending-After waiting h = tt
  when_pending-After publishing h = tt

  pub when_waiting-After : (x : Phase) → (x ≡ waiting → After P o) → After P (when_waiting x o)
  unfolding when_waiting
  when_waiting-After pending h = tt
  when_waiting-After waiting h = h refl
  when_waiting-After publishing h = tt

  pub when_publishing-After :
      (x : Phase) → (x ≡ publishing → After P o) → After P (when_publishing x o)
  unfolding when_publishing
  when_publishing-After pending h = tt
  when_publishing-After waiting h = tt
  when_publishing-After publishing h = h refl

module _ (to_nanoseconds : ℕ → ℕ) (a : Args) (id_device : ℕ) where
  abbrev does : Action → Uplink → Option Uplink
  does = act to_nanoseconds a id_device

  abbrev runs : List Action → Uplink → Option Uplink
  runs = run to_nanoseconds a id_device

  -- What every action keeps, a run keeps.
  pub run_keeps :
      (P : Uplink → Type 0)
      → ((x : Action) (u : Uplink) → P u → After P (does x u))
      → (during : List Action) (u : Uplink) → P u
      → After P (runs during u)
  unfolding run
  run_keeps P step [] u h = h
  run_keeps P step (x ∷ later) u h =
      elim (does x u)
          as (λ o. After P o → After P (elim o [ none ↦ none | some v ↦ runs later v ])) [
            | none ↦ λ _. tt
            | some v ↦ λ k. run_keeps P step later v k
          ]
        (step x u h)

  -- What every action that finds no connection keeps, with the time that has passed.
  pub quiet_run_keeps :
      (P : ℕ → Uplink → Type 0)
      → ((x : Action) (n : ℕ) (u : Uplink)
          → finds_connection x ≡ false
          → P n u
          → After (P (n + lasts x)) (does x u))
      → (during : List Action) (n : ℕ) (u : Uplink) → FindsNone during
      → P n u
      → After (P (n + elapsed during)) (runs during u)
  unfolding run
  quiet_run_keeps P step [] n u quiet h = subst (λ m. P m u) (omega arith) h
  quiet_run_keeps P step (x ∷ later) n u quiet h =
      let sum : n + lasts x + elapsed later ≡ n + (lasts x + elapsed later) = omega arith in
      elim (does x u)
          as (λ o.
            After (P (n + lasts x)) o
            → After (P (n + (lasts x + elapsed later)))
                (elim o [ none ↦ none | some v ↦ runs later v ])) [
                  | none ↦ λ _. tt
                  | some v ↦ λ k.
                      subst (λ m. After (P m) (runs later v)) sum
                        (quiet_run_keeps P step later (n + lasts x) v quiet.1 k)
                ]
        (step x n u quiet.0 h)

  abbrev pub IsStopped : Uplink → Type 0
  IsStopped u = u.watch.send_data ≡ 0

  -- The inner loop of `test_wifi` keeps the sender stopped, and the watchdog has called its
  -- callback exactly if its time has passed.
  abbrev pub Sound : Uplink → Type 0
  Sound u = (u.reconnecting ≡ true → IsStopped u) × (u.halted ≡ leb watchdog_timer u.unfed_ms)

  publish-Sound : (answer : ℤ) (u : Uplink) → u.halted ≡ false → Sound u → Sound (publish answer u)
  unfolding publish
  publish-Sound answer u on h = elim (Bool-cases (is_neg answer)) [
    | inl e ↦ rw e h
    | inr e ↦ rw e (h.0, on)
  ]

  perform-Sound :
      (x : Action) (u : Uplink)
      → Sound u
      → u.halted ≡ false
      → After Sound (perform to_nanoseconds a id_device x u)
  unfolding perform check connect_again take_up read_status pass_time
  perform-Sound (downsamples i) u h on = h
  perform-Sound (time_comes s) u h on = h
  perform-Sound (checks zero) u h on = unless-After Sound _ u.reconnecting (λ _. (λ _. refl, h.1))
  perform-Sound (checks (suc zero)) u h on =
      unless-After Sound _ u.reconnecting (λ out. (λ back. ground (arith, out, back), h.1))
  perform-Sound (checks (suc (suc n))) u h on = unless-After Sound _ u.reconnecting (λ _. h)
  perform-Sound (connects status) u h on = if-After Sound _ u.reconnecting (λ e. (λ _. h.0 e, h.1))
  perform-Sound takes u h on =
      when_pending-After Sound _ u.phase
        (λ _. if-After Sound _ (ltb u.pends u.dws.mqtt_posts) (λ _. h))
  perform-Sound reads u h on = when_waiting-After Sound _ u.phase (λ _. h)
  perform-Sound (publishes answer) u h on =
      when_publishing-After Sound _ u.phase (λ _. publish-Sound answer u on h)
  perform-Sound (passes ms) u h on = (h.0, refl)

  pub act-Sound : (x : Action) (u : Uplink) → Sound u → After Sound (does x u)
  unfolding act
  act-Sound x u h = unless-After Sound _ u.halted (perform-Sound x u h)
