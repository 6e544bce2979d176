-- ===== src/Tests/Device.antt =====
-- The commands, the handles and the walk on the simulated dongle.
use libfcd.Base.{
  ℕ, zero, suc, ◌*◌, ◌≡◌, refl, some, List, [], ◌∷◌, String, ℤ, pos, minus, take, length, replicate,
  arith,
}
use libfcd.Platform.{Sys, ok, Cmd, Errno, ◌>>=◌, pure}
use libfcd.Platform.Returns.{Returns}
use libfcd.Device.{fcd_io, fill_command, buffer_len}
use libfcd.Device.Transact.{transact}
use libfcd.Device.Buffer.{fill_command-request}
use libfcd.Device.Io.{fcd_io-transact}
use libfcd.Device.Outcome.{Balanced, Ended, fcd_io-Ended}
use libfcd.Discovery.{
  fcd_open, fcd_close, fcd_query, fcd_for_each, fcd_reset_bootloader, fcd_reset_application,
}
use libfcd.Discovery.Handle.{fcd_close-fcd_open}
use libfcd.Discovery.Walk.{visit, fcd_for_each_stops}
use libfcd.Discovery.Query.{Answered, fcd_query-Answered}
use libfcd.Discovery.Reset.{fcd_resets-Balanced}
use libfcd.Sleep.{ms_sleep}
use libfcd.Sleep.Naps.{AllShort, total, naps, ms_sleep-naps}
use libfcd.Tests.Bench.{bench, counted, dongle, start}

-- 70 bytes are asked to be sent, and 80 to be read.
abbrev data70 : List ℕ
data70 = replicate 70 9

abbrev room80 : List ℕ
room80 = replicate 80 5

io-transact_example :
    fcd_io bench (some dongle) 27 1 (some data70) 70 (some room80) 80 start
    ≡ transact bench (some "a") 27 1 (replicate 62 9) (some room80) 62 start
io-transact_example =
    fcd_io-transact bench counted dongle 27 1 (some data70) 70 (some room80) 80 start (omega arith)
      (omega arith) (omega arith)

io-Ended_example :
    Returns
      (Ended start (some room80))
      (fcd_io bench (some dongle) 27 1 (some data70) 70 (some room80) 80 start)
io-Ended_example =
    fcd_io-Ended bench counted dongle 27 1 (some data70) 70 (some room80) 80 start (omega arith)
      (omega arith) (omega arith)

fill_command_example :
    (filled : List ℕ) × (fill_command (replicate 65 170) 27 1 (some data70) 48 ≡ some filled)
    × (length filled ≡ buffer_len)
    × (take 51 filled ≡ 0 ∷ 27 ∷ 0 ∷ replicate 48 9)
fill_command_example =
    fill_command-request (replicate 65 170) 27 1 (some data70) 48 refl (omega arith) (omega arith)

query_example :
    Returns
      (Answered (replicate 64 170) 64 start)
      (fcd_query bench (some dongle) (some (replicate 64 170)) (pos 64) start)
query_example =
    fcd_query-Answered bench counted dongle (replicate 64 170) 64 start (omega arith) (omega arith)
      (omega arith)

close-open_example :
    Returns
      (λ _ s'. (s'.blocks ≡ 0) × (s'.handles ≡ 0) × (s'.errno ≡ Errno.other 0) × (s'.printed ≡ []))
      ((fcd_open bench (some "b") >>= fcd_close bench) start)
close-open_example = fcd_close-fcd_open bench (some "b") start

-- A function that fails from its second call on, and counts its calls.
abbrev second_fails : String → ℕ → Cmd bench (ℤ × ℕ)
second_fails path zero = pure (pos 0, 1)
second_fails path (suc n) = pure (minus 7, suc (suc n))

for_each_stops_example : fcd_for_each bench second_fails 0 start ≡ ok (minus 7, 2) start
unfolding visit
for_each_stops_example =
    fcd_for_each_stops bench second_fails 0 1 2 start start start ("a" ∷ []) [] "b" (minus 7) refl
      refl refl (λ e. ground arith)

resets_example :
    Returns (λ _ s'. Balanced start s') (fcd_reset_bootloader bench 2000 start)
    × Returns (λ _ s'. Balanced start s') (fcd_reset_application bench 2000 start)
resets_example = fcd_resets-Balanced bench counted 2000 start

ms_sleep_example :
    (ns : List ℕ) × AllShort ns
    × (total ns ≡ 2500 * 1000)
    × ((s : Sys bench) → ms_sleep bench 2500 s ≡ naps bench ns s)
ms_sleep_example = ms_sleep-naps bench 2500
