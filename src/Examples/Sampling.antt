-- ===== src/Examples/Sampling.antt =====
-- The theorems about Core/dws_user.c, Core/empty.c and Core/interrupt_user.c at concrete inputs.
use plhr_firmware.Common.{
  ◌-◌, List, ℤ, pos, false, ℕ, ◌+◌, ◌-◌, ◌*◌, ◌/◌, ◌%◌, ◌^◌, ◌≤◌, ◌<◌, ◌≡◌, ◌≢◌, refl, inl, ◌↔◌, [],
  ◌∷◌, get_or, replicate, arith, false,
}
use plhr_firmware.Samples.{pack_buffer, unpack_right, unpack_left, right_value, left_value}
use plhr_firmware.Samples.RoundTrip.{unpack-pack_buffer}
use plhr_firmware.Downsampling.{
  Args, Shared, Input, start, rounds, synchro_time, epoch_offset, seconds_to_nseconds,
}
use plhr_firmware.Messages.{MsgData}
use plhr_firmware.Downsampling.Slots.{buffer_at}
use plhr_firmware.Downsampling.Retention.{Holds, buffer_retained}
use plhr_firmware.Downsampling.Clock.{synchro_time_lem}
use plhr_firmware.Acquisition.{Select, Mode, stop, pingpong, State, set_up}
use plhr_firmware.Acquisition.Channel.{Channel, after_transfers}
use plhr_firmware.Acquisition.Channel.PingPong.{ping_pong}
use plhr_firmware.Acquisition.Channel.Overrun.{
  IsTarget, active_buffer, overrun_lem, wrapped_round_races,
}
use plhr_firmware.Acquisition.Isr.{interrupts}
use plhr_firmware.Acquisition.Lag.{buffer_of, reads_previous}
use plhr_firmware.Acquisition.Interrupts.{Table}

abbrev ramp : ℕ → ℕ
ramp k = k * 100

unpack-pack_buffer_example :
    (unpack_right (λ k. get_or (pack_buffer ramp 800 32 (replicate 6 0)) k 0) 3
      ≡ right_value ramp 800 1)
    × (unpack_left (λ k. get_or (pack_buffer ramp 800 32 (replicate 6 0)) k 0) 3
        ≡ left_value ramp 800 1)
unpack-pack_buffer_example =
    unpack-pack_buffer ramp 800 32 1 (replicate 6 0) (omega arith) (omega arith)

abbrev flat : ℕ → ℕ
flat k = 400

abbrev pub args : Args
args = record { dma_num_buffers = 30; size_buffer_in = 800 }

abbrev pub quarter : ℕ → ℕ
quarter f = f / 4

abbrev pub inputs : ℕ → Input
inputs k = record { memory = ramp; tv_sec = k; tv_nsec = 0 }

abbrev alone : ℕ → Shared → Shared
alone k s = s

abbrev unset : Shared
unset = record { status_time_sync = 0; sntp_time = 0 }

buffer_retained_example : Holds args (inputs 90) 90 (
    buffer_at
      (rounds quarter args inputs alone 100 (start, unset)).0.messages
      (90 / 78 % 10)
      (90 % 78))
buffer_retained_example =
    buffer_retained quarter args inputs alone unset (omega arith) (omega arith) 100 90 (omega arith)
      (omega arith)

synchro_time_lem_example :
    synchro_time quarter (2208988801 * 2 ^ 32 + 8) 5 7
    ≡ ((2208988801 * 2 ^ 32 + 8) / 2 ^ 32 + 5 - epoch_offset) * seconds_to_nseconds
      + 7
      + quarter ((2208988801 * 2 ^ 32 + 8) % 2 ^ 32)
synchro_time_lem_example =
    synchro_time_lem quarter (2208988801 * 2 ^ 32 + 8) 5 7 (omega arith) (omega arith) (omega arith)
      (omega arith) (omega arith)

abbrev both_stopped : ℕ → Select → Mode
both_stopped k s = stop

abbrev pub fresh : State
fresh = record {
  cnt_dma_write = 0;
  dma_cnt_interrupts = 0;
  dma_finished = false;
  dws_posts = 0;
  calls = [];
}

reads_previous_example :
    (buffer_of (interrupts both_stopped 2 10 (set_up 2 fresh)).calls (7 - 1)
      ≡ (rounds quarter args inputs alone 7 (start, unset)).0.cnt_buffer_in)
    × (buffer_of (interrupts both_stopped 2 10 (set_up 2 fresh)).calls 7
        ≢ (rounds quarter args inputs alone 7 (start, unset)).0.cnt_buffer_in)
reads_previous_example =
    reads_previous both_stopped 2 fresh (λ _. inl refl) refl refl quarter args inputs alone unset
      refl 10 7 (omega arith) (omega arith) (omega arith)

abbrev pub full_table : Table
full_table = record { interrupt_num = 30; handle = 1 } ∷ []

abbrev accepted : ℕ → ℤ
accepted j = pos 0

-- The messages as they are after 160 rounds.
abbrev as_filled : ℕ → List MsgData
as_filled j = (rounds quarter args inputs alone 160 (start, unset)).0.messages

abbrev untouched : Channel
untouched = record {
  primary_mode = stop;
  primary_buffer = 0;
  alternate_mode = stop;
  alternate_buffer = 0;
}

ping_pong_example :
    let now = (after_transfers 2 fresh untouched 65534).1 in
    (now.primary_mode ≡ pingpong)
    × (now.alternate_mode ≡ pingpong)
    × (now.primary_buffer ≢ now.alternate_buffer)
    × (now.primary_buffer < 30)
    × (now.alternate_buffer < 30)
ping_pong_example = ping_pong 2 fresh untouched 65534

-- Transfers 100 and 101 run while the thread is to read the buffer of round 72.
overrun_lem_example :
    IsTarget
      (rounds quarter args inputs alone 42 (start, unset)).0.cnt_buffer_in
      (after_transfers 2 fresh untouched 100).1
    ↔ (28 ≤ (100 - 42) % 30)
overrun_lem_example =
    overrun_lem 2 fresh untouched quarter args inputs alone unset refl 100 42 (omega arith)
      (omega arith) (omega arith)

wrapped_round_races_example :
    (rounds quarter args inputs alone 140000 (start, unset)).0.cnt_buffer_in
    ≡ active_buffer 140001 (after_transfers 2 fresh untouched 140001).1
wrapped_round_races_example =
    wrapped_round_races 2 fresh untouched quarter args inputs alone unset refl 140000 (omega arith)
      (omega arith)
