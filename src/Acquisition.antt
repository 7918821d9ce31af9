-- ===== src/Acquisition.antt =====
-- The acquisition side: Core/adc_user.c, Core/udma_user.c, Core/interrupt_user.c, and
-- `isr_dma_done` with its set-up in Core/empty.c. Driver calls are recorded, in order, as values of
-- `Call`; what a driver answers is an argument.
pub mod Interrupts
pub mod Isr
pub mod Lag
pub mod Drivers
pub mod Channel
pub mod Start
use plhr_firmware.Common.{
  ℕ, ◌+◌, ◌%◌, ◌^◌, Bool, true, false, List, [], ◌∷◌, ◌++◌, if◌then◌else◌, Option, none, some,
}
use Interrupts.{Table, Status, udma_interrupt_start}

-- The control structure that a uDMA call selects: `UDMA_PRI_SELECT`, `UDMA_ALT_SELECT`, or neither.
pub data Select : Type 0 where
  primary alternate unselected : Select

-- `UDMA_MODE_STOP`, `UDMA_MODE_PINGPONG`, `UDMA_MODE_BASIC`.
pub data Mode : Type 0 where
  stop pingpong basic : Mode

-- A call of the ADC or uDMA driver. A DMA destination is the index of a buffer of `dma_buffer`.
pub data Call : Type 0 where
  adc_dma_enable adc_channel_enable adc_channel_disable adc_int_enable_done adc_int_status
        adc_int_clear_done :
      ℕ → Call
  adc_enable : Call
  assign enable : Select → Call
  control_set : Select → Call
  transfer_set : Select → Mode → ℕ → ℕ → ℕ → Call
  transfer_stop : Select → ℕ → Call  -- `uDMAChannelTransferSet` with `UDMA_MODE_STOP` and no destination
  adc_int_register : ℕ → ℕ → Call
  adc_dma_disable adc_int_disable_fifo : ℕ → Call
  adc_disable adc_driver_init adc_driver_open udma_driver_init udma_driver_open udma_enable
        udma_int_status :
      Call
  udma_int_clear : ℕ → Call

-- `dma_stop_mode_t`.
pub data StopMode : Type 0 where
  stop_pri stop_alt stop_basic stop_none : StopMode

-- `dma_set_mode_t`.
pub data SetMode : Type 0 where
  set_pri set_alt set_basic set_none : SetMode

abbrev pub dma_num_buffers : ℕ
dma_num_buffers = 30

abbrev pub dma_buff_size : ℕ
dma_buff_size = 800

abbrev pub adc_base_fifo_data : ℕ
adc_base_fifo_data = 0x4402e874

-- `adc_int_clear`.
pub adc_int_clear : ℕ → List Call
adc_int_clear channel = adc_int_status channel ∷ adc_int_clear_done channel ∷ []

-- `adc_config`.
abbrev pub adc_config : ℕ → List Call
adc_config channel =
    adc_channel_disable channel
    ∷ adc_dma_enable channel
    ∷ adc_int_enable_done channel
    ∷ adc_channel_enable channel
    ∷ []

-- `adc_start`.
pub adc_start : ℕ → List Call
adc_start channel = adc_channel_enable channel ∷ adc_enable ∷ []

-- The four calls of one case of `dma_transfer_set`.
abbrev arm : Select → Mode → ℕ → ℕ → ℕ → List Call
arm s m channel buffer size =
    assign s
    ∷ control_set s
    ∷ transfer_set s m (adc_base_fifo_data + channel) buffer size
    ∷ enable s
    ∷ []

-- `dma_transfer_set`.
pub dma_transfer_set : SetMode → ℕ → ℕ → ℕ → List Call
dma_transfer_set set_pri channel buffer size = arm primary pingpong channel buffer size
dma_transfer_set set_alt channel buffer size = arm alternate pingpong channel buffer size
dma_transfer_set set_basic channel buffer size = arm unselected basic channel buffer size
dma_transfer_set set_none channel buffer size = []

-- `udma_setup_transfer_pri` and `udma_setup_transfer_alt`.
pub udma_setup_transfer_pri : ℕ → ℕ → ℕ → List Call
udma_setup_transfer_pri buffer channel size = dma_transfer_set set_pri channel buffer size

pub udma_setup_transfer_alt : ℕ → ℕ → ℕ → List Call
udma_setup_transfer_alt buffer channel size = dma_transfer_set set_alt channel buffer size

-- `dma_stop_mode_get`; `mode` is what `uDMAChannelModeGet` answers for a structure.
pub dma_stop_mode_get : (Select → Mode) → StopMode
dma_stop_mode_get mode = elim (mode primary) [
  | stop ↦ stop_pri
  | _ ↦ elim (mode alternate) [ stop ↦ stop_alt | _ ↦ stop_none ]
]

-- The global variables of Core/empty.c that the interrupt routine and its set-up share.
pub record State : Type 0 where
  pub cnt_dma_write : ℕ  -- uint16_t
  pub dma_cnt_interrupts : ℕ  -- uint32_t
  pub dma_finished : Bool
  pub dws_posts : ℕ  -- how often dws_semaphore was posted
  pub calls : List Call  -- the driver calls so far

abbrev pub emit : List Call → State → State
emit cs s = record s { calls = s.calls ++ cs }

-- One of the cases that count up, arm the stopped structure again and post.
abbrev rearm : SetMode → ℕ → State → State
rearm m channel s =
    let cnt = (s.cnt_dma_write + 1) % 2 ^ 16 in
    record s {
      cnt_dma_write = cnt;
      calls = s.calls ++ dma_transfer_set m channel (cnt % dma_num_buffers) dma_buff_size;
      dws_posts = s.dws_posts + 1;
    }

-- The `switch` of `isr_dma_done`.
pub dispatch : StopMode → ℕ → State → State
dispatch stop_pri channel s = rearm set_pri channel s
dispatch stop_alt channel s = rearm set_alt channel s
dispatch stop_basic channel s =
    emit (dma_transfer_set set_basic channel (s.cnt_dma_write % dma_num_buffers) dma_buff_size) s
dispatch stop_none channel s = s

-- `isr_dma_done`.
pub isr_dma_done : (Select → Mode) → ℕ → State → State
isr_dma_done mode channel s =
    let t = emit (adc_int_clear channel) s in
    if t.dma_finished
    then t
    else dispatch (dma_stop_mode_get mode) channel
        (record t { dma_cnt_interrupts = (t.dma_cnt_interrupts + 1) % 2 ^ 32 })

-- The part of `mainThread` from the clear of the ADC interrupt to the first buffers and the reset
-- of the counters before its loop.
pub set_up : ℕ → State → State
set_up channel s =
    let t = emit (adc_int_clear channel ++ adc_start channel) s in
    let u =
      emit (udma_setup_transfer_pri 0 channel dma_buff_size) (record t { cnt_dma_write = 0 }) in
    let v =
      emit (udma_setup_transfer_alt 1 channel dma_buff_size) (record u { cnt_dma_write = 1 }) in
    record v {
      cnt_dma_write = (1 + 1) % dma_num_buffers;
      dma_cnt_interrupts = 0;
      dma_finished = false;
    }

-- One round of the loop that ends `mainThread`; `created` is the handle of a new interrupt.
pub main_loop : ℕ → ℕ → Option ℕ → State × Table → State × Table
main_loop channel int_adc created (s, table) =
    if s.dma_finished
    then (
      emit (adc_int_clear channel) (record s { dma_finished = false }),
      (udma_interrupt_start created int_adc table).1,
    )
    else (s, table)
