-- ===== src/Acquisition/Start.antt =====
-- The start of the acquisition in `mainThread` of Core/empty.c, with the drivers and the table of
-- interrupts.
use plhr_firmware.Common.{ℕ, zero, ◌≡◌, Option, some, [], ◌∷◌, ◌++◌}
use plhr_firmware.Acquisition.{
  State, emit, adc_config, set_up, adc_int_clear, adc_start, dma_transfer_set,
  udma_setup_transfer_pri, udma_setup_transfer_alt,
}
use plhr_firmware.Acquisition.Drivers.{adc_init, udma_init, adc_open, udma_open}
use plhr_firmware.Acquisition.Interrupts.{
  Handler, Table, interrupt_config, udma_interrupt_start, start-config,
}
use plhr_firmware.Acquisition.Channel.{Channel, apply_calls, after_transfers}
use plhr_firmware.Acquisition.Channel.PingPong.{IsArmed, after_transfers-IsArmed}

-- `adc_init` and `udma_init`.
pub init_drivers : State → State
init_drivers s = emit (adc_init ++ udma_init) s

-- From `interrupt_config` to `udma_interrupt_start`, for the ADC channel and its interrupt.
-- `created` is what `HwiP_create` returns.
pub start_acquisition : ℕ → ℕ → Option ℕ → State × Table → State × Table
start_acquisition channel int_adc created (s, table) = (
  set_up channel (emit (adc_open ++ (udma_open ++ adc_config channel)) s),
  (udma_interrupt_start created int_adc (interrupt_config table)).1,
)

-- From a state without calls, the calls of the start set both control structures of any channel to
-- run, on the first two buffers, and the interrupt is in the first entry of the table.
pub start_acquisition_lem :
    (channel int_adc handle : ℕ) (s : State) (h : Handler) (others : Table)
    → s.calls ≡ []
    → let (t, table) =
        start_acquisition channel int_adc (some handle) (init_drivers s, h ∷ others) in
      ((ch : Channel) → IsArmed zero t (apply_calls t.calls ch))
      × (table ≡ record { interrupt_num = int_adc; handle = handle } ∷ interrupt_config others)
unfolding start_acquisition init_drivers adc_init udma_init adc_open udma_open after_transfers
    set_up udma_setup_transfer_pri udma_setup_transfer_alt dma_transfer_set adc_int_clear adc_start
start_acquisition_lem channel int_adc handle s h others none = (
  λ ch.
      let at = after_transfers-IsArmed channel s ch zero in
      rw none (record {
        running = at.running;
        count = at.count;
        primary_runs = at.primary_runs;
        alternate_runs = at.alternate_runs;
        primary_fills = at.primary_fills;
        alternate_fills = at.alternate_fills;
      }),
  start-config int_adc handle h others,
)
