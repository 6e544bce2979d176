-- ===== src/Tests/FlashTool.antt =====
-- The firmware utility on the simulated dongle, with an image file of 144 bytes.
use libfcd.Base.{
  ℕ, arith, ◌≤◌, ◌≡◌, inr, refl, true, false, none, some, [], ◌∷◌, pos, length-replicate, replicate,
}
use libfcd.Platform.Returns.{Returns}
use libfcd.FlashOptions.{Opt, CommandLine}
use libfcd.FlashTool.{Host, Context, parse, perform, fread_all, main}
use libfcd.FlashTool.Ending.{Ends, Kept, Quiet}
use libfcd.FlashOptions.Switches.{Switches, all_off}
use libfcd.FlashTool.Parse.{Parsed, Exited, parse-Parsed}
use libfcd.FlashTool.Image.{ReadsWhole, Read, fread_all-Read}
use libfcd.FlashTool.Actions.{first_failure, actions_of, perform-first_failure}
use libfcd.FlashTool.Parse.Plain.{spelled_out, main_same, main-spelled_out}
use libfcd.FlashTool.Main.{main-Ends, main_refuses}
use libfcd.Tests.Bench.{bench, counted, dongle, start}

abbrev host : Host bench
host = record {
  File = Unit {0};
  fopen = λ name w. (some tt, w);
  fseek_end = λ f w. (false, w);
  fseek_set = λ f w. (false, w);
  ftell = λ f w. (pos 144, w);
  fread = λ f n w. ((1, replicate n 7), w);
  fclose = λ f w. w;
  strtoul = λ text. some 1000;
  strerror = λ w e. "error";
  package_name = "libfcd";
  package_version = "0";
}

whole_reads : ReadsWhole host
whole_reads = record {
  within = λ f n w. omega (arith, length-replicate {A = ℕ} n 7);
  whole = λ f n w e. length-replicate n 7;
}

-- --flash=fw.bin --no-erase
abbrev args : CommandLine
args = record { options = Opt.flash "fw.bin" ∷ Opt.no_erase ∷ []; operands = [] }

abbrev initial : Context
initial = record { actions = 0; delay = 2000; data_read = none; size = 0; filename = none }

-- -wv with the image read
abbrev loaded : Context
loaded = record {
  actions = 12;
  delay = 2000;
  data_read = some (replicate 144 7);
  size = 144;
  filename = some "fw.bin";
}

abbrev write_verify : Switches
write_verify = record { resets = false; erases = false; writes = true; verifies = true }

main-Ends_example :
    Ends
      (λ code t. (code ≤ 1) × Kept start t)
      (λ code t. (code ≤ 1) × Quiet start t)
      (main bench host args start)
main-Ends_example = main-Ends bench counted host whole_reads args start

-- -w without a file
main_refuses_example :
    Ends
      (λ _ _. ⊥)
      (λ code t. (code ≤ 1) × Quiet start t)
      (main bench host (record { options = Opt.write ∷ []; operands = [] }) start)
main_refuses_example =
    main_refuses bench host (record { options = Opt.write ∷ []; operands = [] }) start
      (inr (inr (refl, refl)))

parse-Parsed_example :
    Ends
      (Parsed bench host (Opt.flash "fw.bin" ∷ Opt.no_erase ∷ []) initial all_off start)
      (Exited bench host start)
      (parse bench host (Opt.flash "fw.bin" ∷ Opt.no_erase ∷ []) initial start)
parse-Parsed_example =
    parse-Parsed bench host (Opt.flash "fw.bin" ∷ Opt.no_erase ∷ []) initial all_off start refl

fread_all-Read_example : Returns (Read bench host tt start) (fread_all bench host tt start)
fread_all-Read_example = fread_all-Read bench host whole_reads tt start

perform_example :
    perform bench "a" loaded dongle start
    ≡ first_failure bench (actions_of bench write_verify "a" loaded dongle) start
perform_example = perform-first_failure bench "a" loaded write_verify dongle start refl

-- -vwe -r -R --input=fw.bin does what -ewv -i fw.bin does
main_same_example :
    main bench host
      (record {
        options =
            Opt.verify
            ∷ Opt.write
            ∷ Opt.erase
            ∷ Opt.reset none
            ∷ Opt.no_reset
            ∷ Opt.input "fw.bin"
            ∷ [];
        operands = [];
      })
      start
    ≡ main bench host
        (record {
          options = Opt.erase ∷ Opt.write ∷ Opt.verify ∷ Opt.input "fw.bin" ∷ [];
          operands = [];
        })
        start
main_same_example =
    main_same bench host
      (record {
        options =
            Opt.verify
            ∷ Opt.write
            ∷ Opt.erase
            ∷ Opt.reset none
            ∷ Opt.no_reset
            ∷ Opt.input "fw.bin"
            ∷ [];
        operands = [];
      })
      (record {
        options = Opt.erase ∷ Opt.write ∷ Opt.verify ∷ Opt.input "fw.bin" ∷ [];
        operands = [];
      })
      start refl refl refl refl refl

-- --flash=fw.bin --no-reset
main-spelled_out_example :
    main bench host
      (record { options = Opt.flash "fw.bin" ∷ Opt.no_reset ∷ []; operands = [] })
      start
    ≡ main bench host
        (record { options = spelled_out bench host "fw.bin" (Opt.no_reset ∷ []); operands = [] })
        start
main-spelled_out_example = main-spelled_out bench host [] (Opt.no_reset ∷ []) "fw.bin" [] start
