-- ===== src/Tests/Application.antt =====
-- The application functions on the simulated dongle, and the byte order on its host.
use libfcd.Base.{ℕ, ◌≡◌, inr, refl, none, some, [], ◌∷◌, pos, minus, replicate, arith}
use libfcd.Word.{to_i16}
use libfcd.Platform.{Sys, ok, Errno}
use libfcd.Device.{result_only}
use libfcd.Device.Transact.{transact, converse, conclude}
use libfcd.Application.{BytePointer, fcd_set_dc_correction, fcd_get_value}
use libfcd.Application.Corrections.{fcd_set_dc_correction-wire, fcd_set_dc_correction_overflow}
use libfcd.Application.Values.{fcd_get_value_lost}
use libfcd.Tests.Bench.{bench, counted, dongle, start, respond}

-- The dongle after a command without data.
abbrev asked : ℕ → Sys bench
asked cmd = record start { world = respond (0 ∷ cmd ∷ []) start.world }

set_dc_example :
    fcd_set_dc_correction bench (some dongle) (minus 2) (pos 300) start
    ≡ result_only bench (transact bench (some "a") 106 0 (254 ∷ 255 ∷ 44 ∷ 1 ∷ []) none 0) start
unfolding to_i16
set_dc_example =
    fcd_set_dc_correction-wire bench counted dongle (minus 2) (pos 300) start (omega arith)
      (omega arith)

dc_overflow_example :
    fcd_set_dc_correction bench (some dongle) (pos 5) (pos 32768) start
    ≡ ok (minus 1) (record start { errno = Errno.eoverflow })
dc_overflow_example =
    fcd_set_dc_correction_overflow bench (some dongle) (pos 5) (pos 32768) start
      (inr (λ fits. omega arith))

-- The caller's byte is 99, and stays so; the dongle's answer is 1.
abbrev pointer : BytePointer
pointer = record { address = replicate 8 16; target = some 99 }

get_value_example :
    fcd_get_value bench (some dongle) 4 pointer start ≡ ok (pos 0, some 99) (asked 154)
unfolding transact converse conclude
get_value_example =
    fcd_get_value_lost bench counted dongle 4 pointer (some (1 ∷ replicate 7 16)) start (asked 154)
      (omega arith) (omega arith) refl
