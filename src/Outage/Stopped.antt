-- ===== src/Outage/Stopped.antt =====
-- What the actions of `send_data` and `test_wifi` keep while none of them finds a connection.
use plhr_firmware.Common.{
  ℕ, zero, suc, ◌+◌, ◌≡◌, ◌⊎◌, inl, inr, refl, ap, sym, subst, ◌∙◌, true, false, [], ◌∷◌, ◌++◌,
  get_or, ltb, leb, ℤ, arith,
}
use plhr_firmware.Messages.{MsgData, zero_message}
use plhr_firmware.Downsampling.{Args}
use plhr_firmware.Sending.{publish_message}
use plhr_firmware.Outage.{
  Phase, pending, waiting, publishing, Uplink, watchdog_timer, Action, downsamples, time_comes,
  checks, connects, takes, reads, publishes, passes, check, connect_again, take_up, read_status,
  publish, pass_time, perform, act,
}
use plhr_firmware.Outage.Keeping.{
  is_publishing, finds_connection, lasts, number, After, if-After, unless-After, when_pending-After,
  when_waiting-After, when_publishing-After,
}

-- The state `p` before, and what is kept of it.
module _ (to_nanoseconds : ℕ → ℕ) (a : Args) (id_device : ℕ) (p : Uplink) where
  abbrev IsStopped : Uplink → Type 0
  IsStopped u = u.watch.send_data ≡ 0

  abbrev Published : Uplink → Type 0
  Published v =
      ((v.sender.published ≡ p.sender.published) × (is_publishing v.phase ≡ is_publishing p.phase))
      ⊎ ((is_publishing p.phase ≡ true)
          × (is_publishing v.phase ≡ false)
          × (m : MsgData) × (v.sender.published ≡ p.sender.published ++ m ∷ []))

  abbrev pub Quiet : Uplink → Type 0
  Quiet v = IsStopped v × Published v

  -- Another phase that is no publication either.
  other_phase :
      (v : Uplink) (x : Phase)
      → is_publishing v.phase ≡ is_publishing x
      → Published v
      → Published (record v { phase = x })
  other_phase v x e (inl (m, n)) = inl (m, sym e ∙ n)
  other_phase v x e (inr (up, down, m, l)) = inr (up, sym e ∙ down, m, l)

  take_up-Quiet : (v : Uplink) → v.phase ≡ pending → Quiet v → Quiet (take_up id_device v)
  unfolding take_up
  take_up-Quiet v e (s, k) = (s, other_phase v waiting (ap is_publishing e) k)

  read_status-Quiet : (v : Uplink) → v.phase ≡ waiting → Quiet v → Quiet (read_status v)
  unfolding read_status
  read_status-Quiet v e (s, k) = (s, rw s (other_phase v waiting (ap is_publishing e) k))

  publish-Quiet :
      (answer : ℤ) (v : Uplink) → v.phase ≡ publishing → Quiet v → Quiet (publish answer v)
  unfolding publish publish_message
  publish-Quiet answer v e (s, inl (m, n)) = (
    s,
    inr (
      sym n ∙ ap is_publishing e,
      refl,
      get_or v.dws.messages v.sender.n_msg zero_message,
      ap (λ ms. ms ++ get_or v.dws.messages v.sender.n_msg zero_message ∷ []) m,
    ),
  )
  publish-Quiet answer v e (s, inr (up, down, m, l)) =
      absurd (ground (arith, sym (ap is_publishing e) ∙ down))

  perform-Quiet :
      (x : Action) (v : Uplink)
      → finds_connection x ≡ false
      → Quiet v
      → After Quiet (perform to_nanoseconds a id_device x v)
  unfolding perform check connect_again pass_time
  perform-Quiet (downsamples i) v f k = k
  perform-Quiet (time_comes s) v f k = k
  perform-Quiet (checks zero) v f k = unless-After Quiet _ v.reconnecting (λ _. (refl, k.1))
  perform-Quiet (checks (suc zero)) v f k = absurd (ground (arith, f))
  perform-Quiet (checks (suc (suc m))) v f k = unless-After Quiet _ v.reconnecting (λ _. k)
  perform-Quiet (connects status) v f k = if-After Quiet _ v.reconnecting (λ _. k)
  perform-Quiet takes v f k =
      when_pending-After Quiet _ v.phase
        (λ e. if-After Quiet _ (ltb v.pends v.dws.mqtt_posts) (λ _. take_up-Quiet v e k))
  perform-Quiet reads v f k = when_waiting-After Quiet _ v.phase (λ e. read_status-Quiet v e k)
  perform-Quiet (publishes answer) v f k =
      when_publishing-After Quiet _ v.phase (λ e. publish-Quiet answer v e k)
  perform-Quiet (passes ms) v f k = k

  pub act-Quiet :
      (x : Action) (v : Uplink)
      → finds_connection x ≡ false
      → Quiet v
      → After Quiet (act to_nanoseconds a id_device x v)
  unfolding act
  act-Quiet x v f k = unless-After Quiet _ v.halted (λ _. perform-Quiet x v f k)

  -- A sender that waits goes on waiting, and does not clear the watchdog: `n` milliseconds have
  -- passed since it was cleared.
  abbrev pub Waits : ℕ → Uplink → Type 0
  Waits n v =
      IsStopped v
      × (v.phase ≡ waiting)
      × (v.sender ≡ p.sender)
      × (v.unfed_ms ≡ n)
      × (v.halted ≡ leb watchdog_timer v.unfed_ms)

  perform-Waits :
      (x : Action) (n : ℕ) (v : Uplink)
      → finds_connection x ≡ false
      → Waits (n + 0) v
      → Waits n v
      → After (Waits (n + lasts x)) (perform to_nanoseconds a id_device x v)
  unfolding perform check connect_again read_status pass_time
  perform-Waits (downsamples i) n v f k h = k
  perform-Waits (time_comes s) n v f k h = k
  perform-Waits (checks zero) n v f k h =
      unless-After (Waits (n + 0)) _ v.reconnecting (λ _. (refl, k.1, k.2, k.3, k.4))
  perform-Waits (checks (suc zero)) n v f k h = absurd (ground (arith, f))
  perform-Waits (checks (suc (suc m))) n v f k h =
      unless-After (Waits (n + 0)) _ v.reconnecting (λ _. k)
  perform-Waits (connects status) n v f k h = if-After (Waits (n + 0)) _ v.reconnecting (λ _. k)
  perform-Waits takes n v f k h =
      when_pending-After (Waits (n + 0)) _ v.phase
        (λ e. absurd (omega (arith, ap number (sym k.1 ∙ e))))
  perform-Waits reads n v f k h =
      when_waiting-After (Waits (n + 0)) _ v.phase (λ _. (k.0, rw k.0 refl, k.2, k.3, k.4))
  perform-Waits (publishes answer) n v f k h =
      when_publishing-After (Waits (n + 0)) _ v.phase
        (λ e. absurd (omega (arith, ap number (sym k.1 ∙ e))))
  perform-Waits (passes ms) n v f k h = (h.0, h.1, h.2, ap (λ (m : ℕ). m + ms) h.3, refl)

  pub act-Waits :
      (x : Action) (n : ℕ) (v : Uplink)
      → finds_connection x ≡ false
      → Waits n v
      → After (Waits (n + lasts x)) (act to_nanoseconds a id_device x v)
  unfolding act
  act-Waits x n v f h =
      let same : n ≡ n + 0 = omega arith in
      unless-After (Waits (n + lasts x)) _ v.halted
        (λ _. perform-Waits x n v f (subst (λ m. Waits m v) same h) h)
