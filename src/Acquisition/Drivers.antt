-- ===== src/Acquisition/Drivers.antt =====
-- The functions of Core/adc_user.c and Core/udma_user.c that the interrupt path does not call.
-- Those with a result return 0.
use plhr_firmware.Common.{ℕ, ◌+◌, List, [], ◌∷◌}
use plhr_firmware.Acquisition.{Call, primary, alternate, adc_base_fifo_data}

-- `adc_dma_enable` and `adc_dma_disable`.
pub adc_dma_enable : ℕ → List Call
adc_dma_enable channel = Call.adc_dma_enable channel ∷ []

pub adc_dma_disable : ℕ → List Call
adc_dma_disable channel = Call.adc_dma_disable channel ∷ []

-- `adc_int_register`; the handler is a number.
pub adc_int_register : ℕ → ℕ → List Call
adc_int_register channel irq = Call.adc_int_register channel irq ∷ []

-- `adc_int_enable`: it disables the four interrupts of the FIFO.
pub adc_int_enable : ℕ → List Call
adc_int_enable channel = Call.adc_int_disable_fifo channel ∷ []

-- `adc_stop`, `adc_open` and `adc_init`.
pub adc_stop : ℕ → List Call
adc_stop channel = Call.adc_disable ∷ []

unfoldable pub adc_open : List Call
adc_open = Call.adc_driver_init ∷ Call.adc_driver_open ∷ []

unfoldable pub adc_init : List Call
adc_init = Call.adc_driver_init ∷ []

-- `udma_init`, `udma_open`, `udma_enable` and `udma_disable`.
unfoldable pub udma_init : List Call
udma_init = Call.udma_driver_init ∷ []

unfoldable pub udma_open : List Call
udma_open = Call.udma_driver_open ∷ []

pub udma_enable : List Call
udma_enable = Call.udma_enable ∷ []

unfoldable pub udma_disable : ℕ → List Call
udma_disable channel =
    Call.transfer_stop primary (adc_base_fifo_data + channel)
    ∷ Call.transfer_stop alternate (adc_base_fifo_data + channel)
    ∷ []

-- Whether a handler comes back; `stays` is `while(1)`.
pub data Ends : Type 0 where
  comes_back stays : Ends

-- `udma_irq_fault_handler` and `udma_irq_sw_handler`; `status` is what `uDMAIntStatus` answers.
pub udma_irq_fault_handler : ℕ → List Call × Ends
udma_irq_fault_handler status = (Call.udma_int_status ∷ Call.udma_int_clear status ∷ [], stays)

pub udma_irq_sw_handler : ℕ → List Call × Ends
udma_irq_sw_handler status = (Call.udma_int_status ∷ Call.udma_int_clear status ∷ [], comes_back)

-- `dma_int_clear`: it clears nothing.
pub dma_int_clear : List Call
dma_int_clear = []
