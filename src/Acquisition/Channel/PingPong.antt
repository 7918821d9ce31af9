-- ===== src/Acquisition/Channel/PingPong.antt =====
-- The two control structures of the uDMA channel take turns without end.
use plhr_firmware.Common.{
  ℕ, zero, suc, ◌+◌, ◌%◌, ◌^◌, ◌<◌, ◌≡◌, refl, ◌≢◌, ◌∙◌, true, false, Bool-cases, inl, inr, ◌==◌,
  if◌then◌else◌, arith,
}
use plhr_firmware.Acquisition.{
  primary, alternate, stop, pingpong, State, dma_num_buffers, dma_stop_mode_get, dispatch,
  isr_dma_done, set_up, dma_transfer_set, adc_int_clear, adc_start, udma_setup_transfer_pri,
  udma_setup_transfer_alt,
}
use plhr_firmware.Acquisition.Drivers.{udma_disable}
use plhr_firmware.Acquisition.Channel.{
  Channel, apply_calls, finish, interrupt_on, turn, after_transfers,
}

-- The buffer that the `k`-th transfer fills.
unfoldable pub filled : ℕ → ℕ
filled k = if k == 0 then 0 else if k == 1 then 1 else (k + 1) % 2 ^ 16 % 30

interrupt_primary :
    (channel : ℕ) (s : State) (ch : Channel)
    → s.dma_finished ≡ false
    → ch.alternate_mode ≡ pingpong
    → let (t, now) = interrupt_on channel (s, finish primary ch) in
      (t.dma_finished ≡ false)
      × (t.cnt_dma_write ≡ (s.cnt_dma_write + 1) % 2 ^ 16)
      × (now.primary_mode ≡ pingpong)
      × (now.primary_buffer ≡ (s.cnt_dma_write + 1) % 2 ^ 16 % 30)
      × (now.alternate_mode ≡ pingpong)
      × (now.alternate_buffer ≡ ch.alternate_buffer)
unfolding interrupt_on isr_dma_done dma_stop_mode_get dispatch dma_transfer_set adc_int_clear
interrupt_primary channel s ch run alt = ground (arith, run, alt)

interrupt_alternate :
    (channel : ℕ) (s : State) (ch : Channel)
    → s.dma_finished ≡ false
    → ch.primary_mode ≡ pingpong
    → let (t, now) = interrupt_on channel (s, finish alternate ch) in
      (t.dma_finished ≡ false)
      × (t.cnt_dma_write ≡ (s.cnt_dma_write + 1) % 2 ^ 16)
      × (now.primary_mode ≡ pingpong)
      × (now.primary_buffer ≡ ch.primary_buffer)
      × (now.alternate_mode ≡ pingpong)
      × (now.alternate_buffer ≡ (s.cnt_dma_write + 1) % 2 ^ 16 % 30)
unfolding interrupt_on isr_dma_done dma_stop_mode_get dispatch dma_transfer_set adc_int_clear
interrupt_alternate channel s ch run pri = ground (arith, run, pri)

-- Both structures run: the one whose turn it is with the buffer of transfer `n`, the other one with
-- that of the transfer after it.
pub record IsArmed (n : ℕ) (t : State) (ch : Channel) : Type 0 where
  pub running : t.dma_finished ≡ false
  pub count : t.cnt_dma_write ≡ (n + 2) % 2 ^ 16
  pub primary_runs : ch.primary_mode ≡ pingpong
  pub alternate_runs : ch.alternate_mode ≡ pingpong
  pub primary_fills : ch.primary_buffer ≡ (if n % 2 == 0 then filled n else filled (suc n))
  pub alternate_fills : ch.alternate_buffer ≡ (if n % 2 == 0 then filled (suc n) else filled n)

set_up-IsArmed :
    (channel : ℕ) (s : State) (ch : Channel)
    → let (t, now) = after_transfers channel s ch zero in IsArmed zero t now
unfolding after_transfers set_up udma_setup_transfer_pri udma_setup_transfer_alt dma_transfer_set
    adc_int_clear adc_start filled
set_up-IsArmed channel s ch = record {
  running = refl;
  count = refl;
  primary_runs = refl;
  alternate_runs = refl;
  primary_fills = refl;
  alternate_fills = refl;
}

filled_next : (n cnt : ℕ) → cnt ≡ (n + 2) % 2 ^ 16 → (cnt + 1) % 2 ^ 16 % 30 ≡ filled (suc (suc n))
unfolding filled
filled_next n cnt e = ground arith

interrupt-IsArmed :
    (channel n : ℕ) (s : State) (ch : Channel)
    → IsArmed n s ch
    → let (t, now) = interrupt_on channel (s, finish (turn n) ch) in IsArmed (suc n) t now
interrupt-IsArmed channel n s ch at = elim (Bool-cases (n % 2 == 0)) [
  | inl even ↦
      (let (run, cnt, p, pb, a, ab) = interrupt_primary channel s ch at.running at.alternate_runs in
        let e : (suc n % 2 == 0) ≡ false = ground arith in
        let next = filled_next n s.cnt_dma_write at.count in
        rw even (record {
          running = run;
          count = omega (arith, cnt, at.count);
          primary_runs = p;
          alternate_runs = a;
          primary_fills = pb ∙ next ∙ rw e refl;
          alternate_fills = ab ∙ at.alternate_fills ∙ rw (even, e) refl;
        }))
  | inr odd ↦
      (let (run, cnt, p, pb, a, ab) = interrupt_alternate channel s ch at.running at.primary_runs in
        let e : (suc n % 2 == 0) ≡ true = ground arith in
        let next = filled_next n s.cnt_dma_write at.count in
        rw odd (record {
          running = run;
          count = omega (arith, cnt, at.count);
          primary_runs = p;
          alternate_runs = a;
          primary_fills = pb ∙ at.primary_fills ∙ rw (odd, e) refl;
          alternate_fills = ab ∙ next ∙ rw e refl;
        }))
]

pub after_transfers-IsArmed :
    (channel : ℕ) (s : State) (ch : Channel) (n : ℕ)
    → let (t, now) = after_transfers channel s ch n in IsArmed n t now
unfolding after_transfers
after_transfers-IsArmed channel s ch zero = set_up-IsArmed channel s ch
after_transfers-IsArmed channel s ch (suc n) =
    let (t, now) = after_transfers channel s ch n in
    interrupt-IsArmed channel n t now (after_transfers-IsArmed channel s ch n)

filled_apart : (n : ℕ) → (filled n ≢ filled (suc n)) × (filled n < dma_num_buffers)
unfolding filled
filled_apart n = (λ e. ground arith, ground arith)

-- From the set-up on, after any number of transfers that end in turns, each with its interrupt,
-- both control structures run in ping-pong mode, on two different buffers of the thirty: the
-- acquisition never stops, and no two transfers fill the same buffer at once.
pub ping_pong :
    (channel : ℕ) (s : State) (ch : Channel) (n : ℕ)
    → let (_, now) = after_transfers channel s ch n in
      (now.primary_mode ≡ pingpong)
      × (now.alternate_mode ≡ pingpong)
      × (now.primary_buffer ≢ now.alternate_buffer)
      × (now.primary_buffer < dma_num_buffers)
      × (now.alternate_buffer < dma_num_buffers)
ping_pong channel s ch n =
    let at = after_transfers-IsArmed channel s ch n in
    let apart = filled_apart n in
    let later = filled_apart (suc n) in
    (at.primary_runs, at.alternate_runs, ground arith, ground arith, ground arith)

-- An interrupt that is handled after `udma_disable` has stopped both structures arms the primary
-- one again.
pub disable_undone :
    (channel : ℕ) (s : State) (ch : Channel)
    → s.dma_finished ≡ false
    → let stopped = apply_calls (udma_disable channel) ch in
      let (_, now) = interrupt_on channel (s, stopped) in
      (stopped.primary_mode ≡ stop)
      × (stopped.alternate_mode ≡ stop)
      × (now.primary_mode ≡ pingpong)
      × (now.alternate_mode ≡ stop)
unfolding interrupt_on isr_dma_done dma_stop_mode_get dispatch dma_transfer_set adc_int_clear
    udma_disable
disable_undone channel s ch run = (refl, refl, ground (arith, run), ground (arith, run))
