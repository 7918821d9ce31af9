-- ===== src/Acquisition/Channel.antt =====
-- The uDMA channel that the driver calls of Core/udma_user.c set up, with its two control
-- structures. At the end of a transfer the controller writes the mode STOP to the structure and
-- goes on with the other one.
pub mod PingPong
pub mod Overrun
use plhr_firmware.Common.{
  ℕ, zero, suc, ◌+◌, ◌*◌, ◌%◌, ◌^◌, ◌<◌, ◌≡◌, refl, ◌≢◌, ap, ◌∙◌, true, false, Bool-cases, inl, inr,
  List, [], ◌∷◌, ◌++◌, ◌==◌, ==_iff, if◌then◌else◌, arith,
}
use plhr_firmware.Acquisition.{
  Select, primary, alternate, unselected, Mode, stop, pingpong, basic, Call, State, stop_pri,
  stop_alt, set_pri, set_alt, dma_num_buffers, dma_stop_mode_get, dispatch, isr_dma_done, set_up,
  dma_transfer_set, adc_int_clear, adc_start, udma_setup_transfer_pri, udma_setup_transfer_alt,
}
use plhr_firmware.Acquisition.Drivers.{udma_disable}

-- Modes and destination buffers of the two structures.
pub record Channel : Type 0 where
  pub primary_mode : Mode
  pub primary_buffer : ℕ
  pub alternate_mode : Mode
  pub alternate_buffer : ℕ

-- What a driver call does to the channel. `UDMA_PRI_SELECT` is 0, so that no selection is the
-- primary one.
abbrev pub apply_call : Call → Channel → Channel
apply_call (Call.transfer_set primary m source buffer size) ch = record ch {
  primary_mode = m;
  primary_buffer = buffer;
}
apply_call (Call.transfer_set unselected m source buffer size) ch = record ch {
  primary_mode = m;
  primary_buffer = buffer;
}
apply_call (Call.transfer_set alternate m source buffer size) ch = record ch {
  alternate_mode = m;
  alternate_buffer = buffer;
}
apply_call (Call.transfer_stop primary source) ch = record ch { primary_mode = stop }
apply_call (Call.transfer_stop unselected source) ch = record ch { primary_mode = stop }
apply_call (Call.transfer_stop alternate source) ch = record ch { alternate_mode = stop }
apply_call _ ch = ch

abbrev pub apply_calls : List Call → Channel → Channel
apply_calls [] ch = ch
apply_calls (k ∷ ks) ch = apply_calls ks (apply_call k ch)

-- The answer of `uDMAChannelModeGet`.
abbrev pub mode_of : Channel → Select → Mode
mode_of ch alternate = ch.alternate_mode
mode_of ch _ = ch.primary_mode

-- The transfer of a structure ends.
abbrev pub finish : Select → Channel → Channel
finish alternate ch = record ch { alternate_mode = stop }
finish _ ch = record ch { primary_mode = stop }

-- The interrupt routine on the channel as it stands; its driver calls take effect.
unfoldable pub interrupt_on : ℕ → State × Channel → State × Channel
interrupt_on channel (s, ch) =
    let t = isr_dma_done (mode_of ch) channel (record s { calls = [] }) in
    (t, apply_calls t.calls ch)

-- The structure whose transfer ends as the `n`-th: they take turns, the primary one first.
abbrev pub turn : ℕ → Select
turn n = if n % 2 == 0 then primary else alternate

-- The state and the channel after the set-up and `n` transfers, each with its interrupt.
unfoldable pub after_transfers : ℕ → State → Channel → ℕ → State × Channel
after_transfers channel s ch zero =
    let t = set_up channel (record s { calls = [] }) in (t, apply_calls t.calls ch)
after_transfers channel s ch (suc n) =
    let (t, now) = after_transfers channel s ch n in interrupt_on channel (t, finish (turn n) now)
