-- ===== src/Tests/Bootloader.antt =====
-- The bootloader functions on the simulated dongle.
use libfcd.Base.{ℕ, ◌<◌, ◌≡◌, ◌⊎◌, inr, some, List, ℤ, pos, minus, replicate, arith}
use libfcd.Platform.{Sys, ok, ◌>>=◌}
use libfcd.Platform.Returns.{Returns}
use libfcd.Device.Outcome.{Balanced}
use libfcd.Bootloader.{fcd_bl_flash_write, fcd_bl_flash_verify}
use libfcd.Bootloader.Invariant.{EarlyCode, VerifyCode}
use libfcd.Bootloader.Range.{fcd_bl_flash_write-Returns, fcd_bl_flash_verify-Returns}
use libfcd.Device.Session.{Session, Phase}
use libfcd.Bootloader.Commands.{
  Looks, Fills, fcd_bl_flash_verify-Session, fcd_bl_flash_write-Session,
}
use libfcd.Bootloader.Write.{holding, fcd_bl_flash_write-holding, fcd_bl_flash_write_refuses}
use libfcd.Bootloader.Compare.{Matches}
use libfcd.Bootloader.Verify.{fcd_bl_flash_verify-Matches, fcd_bl_flash_verify-fcd_bl_flash_write}
use libfcd.Bootloader.Start.{WholeBlocks, SameFlash}
use libfcd.Tests.Bench.{bench, counted, dongle, chip, start}

-- An image of 144 bytes: 96 of them are flashed.
abbrev image : List ℕ
image = replicate 144 7

flash_write-holding_example :
    (s' : Sys bench) × (fcd_bl_flash_write bench (some dongle) image 144 start ≡ ok (pos 0) s')
    × Unit {0}
    × ((x : ℕ) → s'.world.flash x ≡ holding (λ y. 255) image 48 144 x)
flash_write-holding_example =
    fcd_bl_flash_write-holding bench counted dongle chip image 144 start tt (omega arith)
      (omega arith) (omega arith)

flash_write_refuses_example :
    (s' : Sys bench) × (code : ℤ) × (fcd_bl_flash_write bench (some dongle) image 100 start
      ≡ ok code s')
    × Unit {0}
    × (s'.printed ≡ start.printed)
    × (((code ≡ minus 2) × ¬ (WholeBlocks 48 144))
        ⊎ ((code ≡ minus 3) × WholeBlocks 48 144 × (100 < 144)))
    × SameFlash bench counted dongle chip start s'
flash_write_refuses_example =
    fcd_bl_flash_write_refuses bench counted dongle chip image 100 start tt (omega arith)
      (inr (omega arith))

flash_verify-Matches_example :
    (s' : Sys bench) × (code : ℤ) × (fcd_bl_flash_verify bench (some dongle) image 144 start
      ≡ ok code s')
    × Unit {0}
    × SameFlash bench counted dongle chip start s'
    × (((code ≡ pos 0) × Matches (λ x. 255) image 48 144)
        ⊎ ((code ≡ pos 1) × ¬ (Matches (λ x. 255) image 48 144)))
flash_verify-Matches_example =
    fcd_bl_flash_verify-Matches bench counted dongle chip image 144 start tt (omega arith)
      (omega arith) (omega arith)

flash_verify-flash_write_example :
    (s' : Sys bench) × ((fcd_bl_flash_write bench (some dongle) image 144 >>= λ written.
    fcd_bl_flash_verify bench (some dongle) image 144)
        start
      ≡ ok (pos 0) s')
    × Matches s'.world.flash image 48 144
flash_verify-flash_write_example =
    fcd_bl_flash_verify-fcd_bl_flash_write bench counted dongle chip image 144 start tt
      (omega arith) (omega arith) (omega arith)

flash_write-Returns_example :
    Returns
      (λ code s'. Balanced start s' × ((code ≡ pos 0) ⊎ EarlyCode code ⊎ (code ≡ minus 5)))
      (fcd_bl_flash_write bench (some dongle) image 144 start)
flash_write-Returns_example =
    fcd_bl_flash_write-Returns bench counted dongle image 144 start (omega arith) (omega arith)

flash_verify-Returns_example :
    Returns
      (λ code s'. Balanced start s' × (VerifyCode code ⊎ EarlyCode code))
      (fcd_bl_flash_verify bench (some dongle) image 144 start)
flash_verify-Returns_example =
    fcd_bl_flash_verify-Returns bench counted dongle image 144 start (omega arith) (omega arith)

flash_verify-Session_example :
    Returns
      (λ code t. Session bench (some "a") Looks start.world Phase.closed t.world)
      (fcd_bl_flash_verify bench (some dongle) image 144 start)
flash_verify-Session_example =
    fcd_bl_flash_verify-Session bench counted (some "a") image 144 start (omega arith) (omega arith)

flash_write-Session_example :
    Returns
      (λ code t. Session bench (some "a") Fills start.world Phase.closed t.world)
      (fcd_bl_flash_write bench (some dongle) image 144 start)
flash_write-Session_example =
    fcd_bl_flash_write-Session bench counted (some "a") image 144 start (omega arith) (omega arith)
