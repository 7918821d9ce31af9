-- ===== src/Outage/Silence.antt =====
-- What `send_data` publishes while `test_wifi` connects again, and when it has found a connection.
use plhr_firmware.Common.{
  ℕ, ◌+◌, ◌%◌, ◌^◌, ◌≡◌, ◌⊎◌, inl, inr, refl, ap, subst, ◌∙◌, Bool-cases, true, false, none, some,
  List, [], ◌∷◌, ◌++◌, get_or, leb, if◌then◌else◌, ℤ, Option,
}
use plhr_firmware.Messages.{MsgData, zero_message, n_msg_data}
use plhr_firmware.Downsampling.{Args}
use plhr_firmware.Sending.{Sender, publish_message}
use plhr_firmware.Outage.{
  waiting, Uplink, at_creation, watchdog_timer, Action, checks, reads, publishes, check,
  read_status, publish, when_waiting, when_publishing, perform, act, run,
}
use plhr_firmware.Outage.Keeping.{
  is_publishing, FindsNone, elapsed, After, run_keeps, quiet_run_keeps, Sound, act-Sound,
}
use plhr_firmware.Outage.Stopped.{Quiet, act-Quiet, Waits, act-Waits}

module _ (to_nanoseconds : ℕ → ℕ) (a : Args) (id_device : ℕ) where
  abbrev runs : List Action → Uplink → Option Uplink
  runs = run to_nanoseconds a id_device

  -- Any actions from the creation of the threads on.
  reached-Sound :
      (before : List Action) (p : Uplink)
      → runs before at_creation ≡ some p
      → Sound to_nanoseconds a id_device p
  reached-Sound before p e = subst (After (Sound to_nanoseconds a id_device)) e (
      run_keeps to_nanoseconds a id_device (Sound to_nanoseconds a id_device)
        (act-Sound to_nanoseconds a id_device) before at_creation (λ _. refl, refl))

  -- While `test_wifi` connects again, and through any further actions of the threads among which no
  -- check of its outer loop finds a connection, the sender publishes nothing, but for one message
  -- if it had read `start` before and not yet published.
  pub outage_silent :
      (before during : List Action) (p q : Uplink)
      → runs before at_creation ≡ some p
      → p.reconnecting ≡ true
      → FindsNone during
      → runs during p ≡ some q
      → ((q.sender.published ≡ p.sender.published)
          × (is_publishing q.phase ≡ is_publishing p.phase))
        ⊎ ((is_publishing p.phase ≡ true)
            × (is_publishing q.phase ≡ false)
            × (m : MsgData) × (q.sender.published ≡ p.sender.published ++ m ∷ []))
  outage_silent before during p q reached loop quiet goes =
      let stopped = (reached-Sound before p reached).0 loop in
      let keeps = Quiet to_nanoseconds a id_device p in
      let kept =
        quiet_run_keeps to_nanoseconds a id_device (λ _. keeps)
          (λ x n. act-Quiet to_nanoseconds a id_device p x) during 0 p quiet
          (stopped, inl (refl, refl)) in
      (subst (After keeps) goes kept).1

  -- While `test_wifi` connects again a sender that waits goes on waiting, through any further
  -- actions of the threads among which no check finds a connection, and the watchdog is not
  -- cleared. Where `test_wifi` has then left its inner loop, a check that finds a connection and
  -- the sender's next read and publication follow if and only if less than 12 seconds have passed
  -- since the watchdog was cleared; otherwise it has called its callback, and nothing follows. What
  -- is then published is the sender's place in the ring as it is at that time, once, and the sender
  -- goes on to the place and the number behind it.
  pub outage_ends :
      (before during : List Action) (p q : Uplink) (answer : ℤ)
      → runs before at_creation ≡ some p
      → p.reconnecting ≡ true
      → p.phase ≡ waiting
      → FindsNone during
      → runs during p ≡ some q
      → q.reconnecting ≡ false
      → (r : Uplink) × (runs (checks 1 ∷ reads ∷ publishes answer ∷ []) q
          ≡ (if leb watchdog_timer (p.unfed_ms + elapsed during) then none else some r))
        × (r.sender.published
            ≡ p.sender.published ++ get_or q.dws.messages p.sender.n_msg zero_message ∷ [])
        × (r.sender.n_msg ≡ (p.sender.n_msg + 1) % n_msg_data)
        × (r.sender.msg_data_id ≡ (p.sender.msg_data_id + 1) % 2 ^ 32)
  unfolding run act perform check read_status publish publish_message when_waiting when_publishing
  outage_ends before during p q answer reached loop waits quiet goes ended =
      let (stops, time) = reached-Sound before p reached in
      let keeps = Waits to_nanoseconds a id_device p in
      let kept =
        quiet_run_keeps to_nanoseconds a id_device keeps (act-Waits to_nanoseconds a id_device p)
          during p.unfed_ms p quiet (stops loop, waits, refl, refl, time) in
      let (_, w, k, t, h) = subst (After (keeps (p.unfed_ms + elapsed during))) goes kept in
      let fired : q.halted ≡ leb watchdog_timer (p.unfed_ms + elapsed during) =
        h ∙ ap (leb watchdog_timer) t in
      (
        publish answer (read_status (check 1 q)),
        elim (Bool-cases (leb watchdog_timer (p.unfed_ms + elapsed during))) [
          | inl e ↦ rw (fired ∙ e, e) refl
          | inr e ↦ rw (fired ∙ e, e, ended, w) refl
        ],
        ap (λ (s : Sender). s.published ++ get_or q.dws.messages s.n_msg zero_message ∷ []) k,
        ap (λ (s : Sender). (s.n_msg + 1) % n_msg_data) k,
        ap (λ (s : Sender). (s.msg_data_id + 1) % 2 ^ 32) k,
      )
