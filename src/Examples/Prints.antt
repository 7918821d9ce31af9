-- ===== src/Examples/Prints.antt =====
-- The theorem about Core/print_user.c at two rounds of a ramp.
use plhr_firmware.Common.{ℕ, ◌*◌, ◌≡◌, some, List, ◌++◌, get_or, length, replicate, arith}
use plhr_firmware.Samples.{pack_buffer}
use plhr_firmware.Printing.{display_buffer_start, display_buffer_end, print_values_downsampled}
use plhr_firmware.Printing.Text.{read_numbers}
use plhr_firmware.Printing.Averages.{averages, print-pack_buffer}

abbrev slope : ℕ → ℕ
slope k = k * 100

print-pack_buffer_example :
    (text zs : List ℕ) × (print_values_downsampled
        (replicate 30 0)
        (λ k. get_or (pack_buffer slope 0 32 (replicate 6 0)) k 0)
        6
      ≡ some ((display_buffer_start ++ text) ++ (display_buffer_end ++ zs)))
    × (length ((display_buffer_start ++ text) ++ (display_buffer_end ++ zs)) ≡ 30)
    × (read_numbers 0 text ≡ averages slope 0 2 0)
print-pack_buffer_example =
    print-pack_buffer slope 0 32 (replicate 6 0) (replicate 30 0) (omega arith) (omega arith)
      (omega arith) (omega arith)
