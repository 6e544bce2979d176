-- ===== src/FlashTool/Parse/Plain.antt =====
-- Command lines of src/flash.c whose options only set something.
use mathlib.Core.Path.{fun_ext}
use libfcd.Base.{
  ◌≡◌, refl, ap, ◌∙◌, sym, Bool, true, false, ◌&&◌, Option, none, some, List, [], ◌∷◌, ◌++◌, String,
  arith,
}
use libfcd.Platform.{Platform, Sys, ok, and_then, ◌>>=◌}
use libfcd.Platform.Returns.{and_then_assoc}
use libfcd.FlashTool.Ending.{and_then-Ends}
use libfcd.FlashTool.Parse.{Parsed, Exited, parse-Parsed}
use libfcd.FlashOptions.Switches.{
  Switches, all_off, switch, switches, name_of, names, pack, act-pack,
}
use libfcd.FlashOptions.{Opt, CommandLine, act}
use libfcd.FlashTool.{Host, Context, handle, parse, main}

-- Neither an end of the program nor a delay.
abbrev pub plain : Opt → Bool
plain (Opt.reset (some text)) = false
plain Opt.help = false
plain Opt.version_info = false
plain Opt.unknown = false
plain o = true

abbrev pub all_plain : List Opt → Bool
all_plain [] = true
all_plain (o ∷ os) = plain o && all_plain os

-- The context that `main` starts with.
abbrev pub initial : Context
initial = record { actions = 0; delay = 2000; data_read = none; size = 0; filename = none }

-- The context with the flags of the switches, and a file name.
abbrev pub with_switches : Context → Switches → Option String → Context
with_switches ctx sw name = record ctx { actions = pack sw; filename = name }

module _ (p : Platform) (host : Host p) where
  flags :
      (o : Opt) (ctx : Context) (sw : Switches) (s : Sys p)
      → ctx.actions ≡ pack sw
      → ok (record ctx { actions = act o ctx.actions }) s
        ≡ ok (record ctx { actions = pack (switch o sw) }) s
  flags o ctx sw s e = ap (λ a. ok (record ctx { actions = a }) s) (ap (act o) e ∙ act-pack o sw)

  handle-plain :
      (o : Opt) (ctx : Context) (sw : Switches) (s : Sys p)
      → ctx.actions ≡ pack sw
      → plain o ≡ true
      → handle p host o ctx s ≡ ok (with_switches ctx (switch o sw) (name_of o ctx.filename)) s
  unfolding handle
  handle-plain (Opt.input name) ctx sw s e h =
      ap (λ a. ok (record ctx { actions = a; filename = some name }) s) e
  handle-plain (Opt.reset none) ctx sw s e h = flags (Opt.reset none) ctx sw s e
  handle-plain (Opt.reset (some text)) ctx sw s e h = cc
  handle-plain Opt.no_reset ctx sw s e h = flags Opt.no_reset ctx sw s e
  handle-plain Opt.erase ctx sw s e h = flags Opt.erase ctx sw s e
  handle-plain Opt.no_erase ctx sw s e h = flags Opt.no_erase ctx sw s e
  handle-plain Opt.write ctx sw s e h = flags Opt.write ctx sw s e
  handle-plain Opt.no_write ctx sw s e h = flags Opt.no_write ctx sw s e
  handle-plain Opt.verify ctx sw s e h = flags Opt.verify ctx sw s e
  handle-plain Opt.no_verify ctx sw s e h = flags Opt.no_verify ctx sw s e
  handle-plain (Opt.flash name) ctx sw s e h =
      ap (λ a. ok (record ctx { actions = a; filename = some name }) s)
        (ap (act (Opt.flash name)) e ∙ act-pack (Opt.flash name) sw)
  handle-plain Opt.help ctx sw s e h = cc
  handle-plain Opt.version_info ctx sw s e h = cc
  handle-plain Opt.unknown ctx sw s e h = cc

  -- Options that only set something are the switches that they turn on and off one after another.
  pub parse-plain :
      (os : List Opt) (ctx : Context) (sw : Switches) (s : Sys p)
      → ctx.actions ≡ pack sw
      → all_plain os ≡ true
      → parse p host os ctx s ≡ ok (with_switches ctx (switches os sw) (names os ctx.filename)) s
  unfolding parse
  parse-plain [] ctx sw s e h = ap (λ a. ok (record ctx { actions = a }) s) e
  parse-plain (o ∷ os) ctx sw s e h = rw (handle-plain o ctx sw s e (ground (arith, h))) (
      parse-plain os (with_switches ctx (switch o sw) (name_of o ctx.filename)) (switch o sw) s refl
        (ground (arith, h)))

  -- Two command lines of options that only set something, with the same operands, that leave the
  -- same switches on and the same file name, make `main` do the same, whatever the order of their
  -- options and however often they turn a switch on and off.
  pub main_same :
      (args args' : CommandLine) (s : Sys p)
      → all_plain args.options ≡ true
      → all_plain args'.options ≡ true
      → args.operands ≡ args'.operands
      → switches args.options all_off ≡ switches args'.options all_off
      → names args.options none ≡ names args'.options none
      → main p host args s ≡ main p host args' s
  unfolding main
  main_same args args' s plain plain' operands same file =
      rw
        (
          parse-plain args.options initial all_off s refl plain,
          parse-plain args'.options initial all_off s refl plain',
          operands,
          same,
          file,
        )
        refl

  parse-append :
      (xs ys : List Opt) (ctx : Context) (s : Sys p)
      → parse p host (xs ++ ys) ctx s ≡ (parse p host xs ctx >>= parse p host ys) s
  unfolding parse
  parse-append [] ys ctx s = refl
  parse-append (x ∷ xs) ys ctx s =
      ap (and_then (handle p host x ctx s)) (fun_ext λ ctx'. fun_ext λ t. parse-append xs ys ctx' t)
      ∙ sym (and_then_assoc (handle p host x ctx s) (parse p host xs) (parse p host ys))

  -- The options that `--flash=FILE` stands for.
  abbrev pub spelled_out : String → List Opt → List Opt
  spelled_out name after =
      Opt.reset none ∷ Opt.erase ∷ Opt.write ∷ Opt.verify ∷ Opt.input name ∷ after

  parse-spelled_out :
      (name : String) (after : List Opt) (ctx : Context) (sw : Switches) (s : Sys p)
      → ctx.actions ≡ pack sw
      → parse p host (Opt.flash name ∷ after) ctx s ≡ parse p host (spelled_out name after) ctx s
  unfolding parse handle
  parse-spelled_out name after ctx sw s e =
      let resetting = switch (Opt.reset none) sw in
      let erasing = switch Opt.erase resetting in
      ap (λ a. parse p host after (record ctx { actions = a; filename = some name }) s)
        (ap (act (Opt.flash name)) e
          ∙ act-pack (Opt.flash name) sw
          ∙ sym (
              rw
                (
                  e,
                  act-pack (Opt.reset none) sw,
                  act-pack Opt.erase resetting,
                  act-pack Opt.write erasing,
                  act-pack Opt.verify (switch Opt.write erasing),
                )
                refl))

  -- Among any other options, `--flash=FILE` makes `main` do what `-r -ewv -iFILE` does, as the usage
  -- text says.
  pub main-spelled_out :
      (before after : List Opt) (name : String) (operands : List String) (s : Sys p)
      → main p host (record { options = before ++ Opt.flash name ∷ after; operands = operands }) s
        ≡ main p host (record { options = before ++ spelled_out name after; operands = operands }) s
  unfolding main
  main-spelled_out before after name operands s =
      let same : parse p host (before ++ Opt.flash name ∷ after) initial s
          ≡ parse p host (before ++ spelled_out name after) initial s =
        parse-append before (Opt.flash name ∷ after) initial s
        ∙ and_then-Ends (Parsed p host before initial all_off s) (Exited p host s)
            (parse p host before initial s) (parse p host (Opt.flash name ∷ after))
            (parse p host (spelled_out name after))
            (parse-Parsed p host before initial all_off s refl)
            (λ ctx t h. parse-spelled_out name after ctx (switches before all_off) t h.0)
        ∙ sym (parse-append before (spelled_out name after) initial s) in
      rw same refl
