-- ===== src/Examples/Timings.antt =====
-- The theorem about the time in the header of a message at a concrete run.
use plhr_firmware.Common.{ℕ, ◌+◌, ◌*◌, ◌%◌, ◌^◌, ◌≡◌, Option, some, if◌then◌else◌, ◌==◌, arith}
use plhr_firmware.Downsampling.{synchro_time}
use plhr_firmware.Downsampling.Slots.{message_at}
use plhr_firmware.Watch.{sntp_get_time}
use plhr_firmware.Timing.{timed_rounds}
use plhr_firmware.Timing.Stamped.{header_stamped}
use plhr_firmware.Examples.Sampling.{args, quarter, inputs}

abbrev always_up : ℕ → ℕ
always_up c = 1

abbrev server_time : ℕ → Option ℕ
server_time c = some (3900000000 * 2 ^ 32 + c)

-- A second passes in each pause in front of a round 5, 83, 161 and so on.
abbrev pauses : ℕ → ℕ
pauses k = if k % 78 == 5 then 1 else 0

header_stamped_example :
    let m =
      message_at
        (timed_rounds always_up server_time quarter args inputs pauses 0 87).0.messages
        0 in
    (m.rtc_value ≡ synchro_time quarter (sntp_get_time (server_time 0)) 5 0)
    × (m.corr_buffer_id ≡ 5)
header_stamped_example =
    header_stamped always_up server_time quarter args inputs pauses 0 5 77 9 0 (omega arith)
      (omega arith) (omega arith) (omega arith) (omega arith) (omega arith) (omega arith)
      (omega arith)
