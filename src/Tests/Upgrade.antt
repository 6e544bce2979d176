-- ===== src/Tests/Upgrade.antt =====
-- The firmware utility on the pair of dongles.
use libfcd.Base.{replicate, inr, ◌≡◌, refl, some, List, [], ◌∷◌, String, arith}
use libfcd.Platform.Returns.{Returns}
use libfcd.Discovery.{fcd_for_each}
use libfcd.FlashOptions.{Opt, CommandLine}
use libfcd.FlashTool.{Context, funcube_flash, main}
use libfcd.FlashTool.Upgrade.Every.{AllDone, fcd_for_each-AllDone}
use libfcd.FlashTool.Upgrade.Program.{AllHold, main-AllHold}
use libfcd.FlashTool.Upgrade.Full.{HeldBeforeRestart, main-HeldBeforeRestart}
use libfcd.FlashTool.Fleet.{Undisturbed}
use libfcd.FlashTool.Upgrade.Judge.{Status, AllMatch, main-Status}
use libfcd.FlashTool.Parse.Plain.{initial}
use libfcd.FlashTool.Upgrade.Program.{filled}
use libfcd.FlashTool.Upgrade.Failure.{Failed, main-Failed}
use libfcd.FlashTool.Upgrade.Refuse.{Refused, funcube_flash-Refused}
use libfcd.Tests.Pair.{
  pair, pair_chip, pair_counted, linked_counted, linked_fleet, fleet, pair_start,
}
use libfcd.Tests.Attached.{
  moving, moving_found, moving_host, moving-Finds, waiting_start, pair_host, firmware, readable,
  reboots, image_file, short_host, short_file,
}

-- -ewv with the image read
abbrev loaded : Context
loaded = record {
  actions = 14;
  delay = 2000;
  data_read = some firmware;
  size = 144;
  filename = some "fw.bin";
}

-- -ewv -ifw.bin
abbrev args : CommandLine
args = record {
  options = Opt.erase ∷ Opt.write ∷ Opt.verify ∷ Opt.input "fw.bin" ∷ [];
  operands = [];
}

abbrev both_paths : List String
both_paths = "a" ∷ "b" ∷ []

fcd_for_each-AllDone_example :
    Returns
      (AllDone pair pair_counted fleet loaded both_paths pair_start.world)
      (fcd_for_each pair (funcube_flash pair) loaded pair_start)
fcd_for_each-AllDone_example =
    fcd_for_each-AllDone pair pair_counted fleet loaded pair_start refl
      (omega arith, (omega arith, tt))

main-AllHold_example :
    Returns
      (λ code t.
        (code ≡ 0)
        × AllHold pair pair_counted pair_host fleet firmware both_paths pair_start.world t.world)
      (main pair pair_host args pair_start)
main-AllHold_example =
    main-AllHold pair pair_counted pair_host fleet args "fw.bin" firmware both_paths pair_start
      readable refl refl refl refl refl (omega arith) (λ w. refl) (omega arith, (omega arith, tt))

-- --flash=fw.bin
abbrev flash_args : CommandLine
flash_args = record { options = Opt.flash "fw.bin" ∷ []; operands = [] }

main-HeldBeforeRestart_example :
    Returns
      (λ code t.
        (code ≡ 0)
        × HeldBeforeRestart moving
            (linked_counted moving_found)
            moving_host
            (linked_fleet moving_found)
            2000
            reboots
            firmware
            both_paths
            2000
            t)
      (main moving moving_host flash_args waiting_start)
main-HeldBeforeRestart_example =
    main-HeldBeforeRestart moving (linked_counted moving_found) moving_host
      (linked_fleet moving_found) flash_args "fw.bin" firmware both_paths ("c" ∷ "d" ∷ [])
      waiting_start reboots image_file refl refl refl refl refl (omega arith) moving-Finds
      (refl, (refl, tt)) (omega arith, (omega arith, tt)) (refl, (refl, tt))

-- -v -ifw.bin
abbrev verify_args : CommandLine
verify_args = record { options = Opt.verify ∷ Opt.input "fw.bin" ∷ []; operands = [] }

main-Status_example :
    Returns
      (λ code t.
        Undisturbed pair_chip pair_start.world t.world
        × Status pair pair_counted pair_host fleet
            (AllMatch pair pair_counted pair_host fleet firmware pair_start.world both_paths)
            code)
      (main pair pair_host verify_args pair_start)
main-Status_example =
    main-Status pair pair_counted pair_host fleet verify_args "fw.bin" firmware both_paths
      pair_start readable refl refl refl refl (omega arith) (λ w. refl)
      (omega arith, (omega arith, tt))

-- -wv -ifw.bin
abbrev write_args : CommandLine
write_args = record { options = Opt.write ∷ Opt.verify ∷ Opt.input "fw.bin" ∷ []; operands = [] }

main-Failed_example :
    Returns
      (Failed pair pair_counted short_host fleet
        (filled initial (replicate 100 7))
        ("a" ∷ [])
        "b"
        pair_start.world)
      (main pair short_host write_args pair_start)
main-Failed_example =
    main-Failed pair pair_counted short_host fleet write_args "fw.bin" (replicate 100 7) ("a" ∷ [])
      [] "b" pair_start short_file refl refl refl refl refl refl (λ w. refl) (omega arith, tt)
      (omega arith, omega arith, inr (omega arith))

-- -wv with 100 bytes read, which do not reach the end of the range of the dongle at "b"
abbrev short_loaded : Context
short_loaded = record {
  actions = 12;
  delay = 2000;
  data_read = some (replicate 100 7);
  size = 100;
  filename = some "fw.bin";
}

funcube_flash-Refused_example :
    Returns
      (λ (r, ctx') t.
        (ctx' ≡ short_loaded) × Refused pair pair_counted fleet short_loaded "b" pair_start r t)
      (funcube_flash pair "b" short_loaded pair_start)
funcube_flash-Refused_example =
    funcube_flash-Refused pair pair_counted fleet short_loaded "b" pair_start refl refl
      (omega arith) (omega arith) (inr (omega arith))
