-- ===== src/Acquisition/Isr.antt =====
-- Which buffers `isr_dma_done` arms, interrupt after interrupt.
use plhr_firmware.Common.{
  Option, ℕ, zero, suc, ◌+◌, ◌%◌, ◌^◌, ◌≡◌, ◌≢◌, ◌⊎◌, refl, ap, ◌∙◌, List, [], ◌∷◌, ◌++◌, arith,
  false, append_assoc, append-nil,
}
use plhr_firmware.Acquisition.{
  main_loop, Select, primary, alternate, Mode, stop, Call, set_pri, set_alt, State,
  dma_stop_mode_get, dispatch, isr_dma_done, set_up, dma_transfer_set, adc_int_clear, adc_start,
  udma_setup_transfer_pri, udma_setup_transfer_alt,
}
use plhr_firmware.Acquisition.Interrupts.{Table}

-- The transfers among a list of driver calls: the structure, and the buffer that it is to fill.
abbrev pub transfers : List Call → List (Select × ℕ)
transfers [] = []
transfers (Call.transfer_set s m source buffer size ∷ cs) = (s, buffer) ∷ transfers cs
transfers (_ ∷ cs) = transfers cs

transfers-append : (cs ds : List Call) → transfers (cs ++ ds) ≡ transfers cs ++ transfers ds
transfers-append [] ds = refl
transfers-append (Call.transfer_set s m source buffer size ∷ cs) ds =
    rw (transfers-append cs ds) refl
transfers-append (_ ∷ cs) ds = transfers-append cs ds

-- `n` interrupts; `modes k` is what the uDMA driver answers in interrupt `k`.
unfoldable pub interrupts : (ℕ → Select → Mode) → ℕ → ℕ → State → State
interrupts modes channel zero s = s
interrupts modes channel (suc n) s = isr_dma_done (modes n) channel (interrupts modes channel n s)

-- A structure has run to its end: the primary one, or the alternate one while the primary one runs.
abbrev pub HasStopped : (Select → Mode) → Type 0
HasStopped mode = (mode primary ≡ stop) ⊎ ((mode primary ≢ stop) × (mode alternate ≡ stop))

-- The structure that has stopped.
abbrev pub stopped : (Select → Mode) → Select
stopped mode = elim (mode primary) [ stop ↦ primary | _ ↦ alternate ]

-- What one interrupt adds, if the loop of `mainThread` has nothing to do.
pub isr_dma_done_lem :
    (mode : Select → Mode) (channel : ℕ) (s : State)
    → s.dma_finished ≡ false
    → HasStopped mode
    → let t = isr_dma_done mode channel s in
      (t.dma_finished ≡ false)
      × (t.cnt_dma_write ≡ (s.cnt_dma_write + 1) % 2 ^ 16)
      × (t.dma_cnt_interrupts ≡ (s.dma_cnt_interrupts + 1) % 2 ^ 32)
      × (t.dws_posts ≡ s.dws_posts + 1)
      × (transfers t.calls
          ≡ transfers s.calls ++ (stopped mode, (s.cnt_dma_write + 1) % 2 ^ 16 % 30) ∷ [])
unfolding isr_dma_done dma_stop_mode_get dispatch dma_transfer_set adc_int_clear
isr_dma_done_lem mode channel s h c =
    let clear : List Call = adc_int_clear channel in
    let next : ℕ = (s.cnt_dma_write + 1) % 2 ^ 16 % 30 in
    ground (
      arith,
      transfers-append (s.calls ++ clear) (dma_transfer_set set_pri channel next 800),
      transfers-append (s.calls ++ clear) (dma_transfer_set set_alt channel next 800),
      transfers-append s.calls clear,
      append-nil (transfers s.calls),
    )

-- With both structures running, nothing is armed and nothing is posted.
pub isr_dma_done_running :
    (mode : Select → Mode) (channel : ℕ) (s : State)
    → mode primary ≢ stop
    → mode alternate ≢ stop
    → let t = isr_dma_done mode channel s in
      (t.cnt_dma_write ≡ s.cnt_dma_write)
      × (t.dws_posts ≡ s.dws_posts)
      × (transfers t.calls ≡ transfers s.calls)
unfolding isr_dma_done dma_stop_mode_get dispatch dma_transfer_set adc_int_clear
isr_dma_done_running mode channel s h c =
    ground (arith, transfers-append s.calls (adc_int_clear channel), append-nil (transfers s.calls))

pub set_up_lem :
    (channel : ℕ) (s : State)
    → let t = set_up channel s in
      (t.dma_finished ≡ false)
      × (t.cnt_dma_write ≡ 2)
      × (t.dma_cnt_interrupts ≡ 0)
      × (t.dws_posts ≡ s.dws_posts)
      × (transfers t.calls ≡ transfers s.calls ++ (primary, 0) ∷ (alternate, 1) ∷ [])
unfolding set_up udma_setup_transfer_pri udma_setup_transfer_alt dma_transfer_set adc_int_clear
    adc_start
set_up_lem channel s =
    let begin : List Call = adc_int_clear channel ++ adc_start channel in
    let first : List Call = dma_transfer_set set_pri channel 0 800 in
    let second : List Call = dma_transfer_set set_alt channel 1 800 in
    (
      refl,
      refl,
      refl,
      refl,
      transfers-append ((s.calls ++ begin) ++ first) second
          ∙ ap (λ (ts : List (Select × ℕ)). ts ++ (alternate, 1) ∷ [])
              (transfers-append (s.calls ++ begin) first
                ∙ ap (λ (ts : List (Select × ℕ)). ts ++ (primary, 0) ∷ [])
                    (transfers-append s.calls begin ∙ append-nil (transfers s.calls)))
          ∙ append_assoc (transfers s.calls) ((primary, 0) ∷ []) ((alternate, 1) ∷ []),
    )

-- The transfers of `n` interrupts after the set-up: each arms the structure that stopped.
abbrev pub armed : (ℕ → Select → Mode) → ℕ → List (Select × ℕ)
armed modes zero = []
armed modes (suc n) = armed modes n ++ (stopped (modes n), (n + 3) % 2 ^ 16 % 30) ∷ []

-- A state that the set-up has left after `n` interrupts.
pub record IsAt (modes : ℕ → Select → Mode) (n : ℕ) (t : State) : Type 0 where
  pub running : t.dma_finished ≡ false
  pub count : t.cnt_dma_write ≡ (n + 2) % 2 ^ 16
  pub counted : t.dma_cnt_interrupts ≡ n % 2 ^ 32
  pub posts : t.dws_posts ≡ n
  pub list : transfers t.calls ≡ ((primary, 0) ∷ (alternate, 1) ∷ []) ++ armed modes n

-- After the set-up, `n` interrupts that each find a stopped structure post `n` times, and arm, in
-- turn, the structure that stopped with the buffers `(k + 3) % 2 ^ 16 % 30`.
pub interrupts-IsAt :
    (modes : ℕ → Select → Mode) (channel : ℕ) (s : State) (n : ℕ)
    → ((k : ℕ) → HasStopped (modes k))
    → s.calls ≡ []
    → s.dws_posts ≡ 0
    → IsAt modes n (interrupts modes channel n (set_up channel s))
unfolding interrupts
interrupts-IsAt modes channel s zero h e p =
    let (running, count, counted, posts, list) = set_up_lem channel s in
    record {
      running = running;
      count = count;
      counted = counted;
      posts = posts ∙ p;
      list = list ∙ rw e refl;
    }
interrupts-IsAt modes channel s (suc n) h e p =
    let t : State = interrupts modes channel n (set_up channel s) in
    let before = interrupts-IsAt modes channel s n h e p in
    let (running, count, counted, posts, list) =
      isr_dma_done_lem (modes n) channel t before.running (h n) in
    let next : (t.cnt_dma_write + 1) % 2 ^ 16 ≡ (n + 3) % 2 ^ 16 = omega (arith, before.count) in
    record {
      running = running;
      count = omega (arith, before.count);
      counted = omega (arith, before.counted);
      posts = omega (arith, before.posts);
      list = list ∙ rw (next, before.list) refl;
    }

-- While the interrupts come, the loop of `mainThread` finds nothing to do, and leaves the state and
-- the table of handlers as they are.
pub main_loop_idle :
    (modes : ℕ → Select → Mode) (channel int_adc : ℕ) (created : Option ℕ) (s : State)
    (table : Table) (n : ℕ)
    → ((k : ℕ) → HasStopped (modes k))
    → s.calls ≡ []
    → s.dws_posts ≡ 0
    → let t = interrupts modes channel n (set_up channel s) in
      main_loop channel int_adc created (t, table) ≡ (t, table)
unfolding main_loop
main_loop_idle modes channel int_adc created s table n h e p =
    let at = interrupts-IsAt modes channel s n h e p in rw at.running refl
