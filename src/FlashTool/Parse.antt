-- ===== src/FlashTool/Parse.antt =====
-- The command line of src/flash.c.
pub mod Plain
use libfcd.Base.{
  ℕ, ◌≤◌, ◌≡◌, refl, ap, ◌∙◌, inl, inr, none, some, Option-cases, List, [], ◌∷◌, arith,
}
use libfcd.Platform.{Platform, Sys}
use libfcd.FlashTool.Ending.{
  Ends, Ends-and_then, Ends-mono, Quiet, Quiet-of, Quiet-refl, Quiet-trans,
}
use libfcd.FlashOptions.Switches.{Switches, switch, switches, names, pack, act-pack}
use libfcd.FlashOptions.{Opt, act}
use libfcd.FlashTool.{Host, Context, handle, parse, die, usage, version}

module _ (p : Platform) (host : Host p) where
  -- What the options make of a context.
  abbrev pub Parsed : List Opt → Context → Switches → Sys p → Context → Sys p → Type 0
  Parsed os ctx sw s ctx' s' =
      (ctx'.actions ≡ pack (switches os sw))
      × (ctx'.filename ≡ names os ctx.filename)
      × (ctx'.data_read ≡ ctx.data_read)
      × (ctx'.size ≡ ctx.size)
      × Quiet s s'

  -- An exit before anything has been done.
  abbrev pub Exited : Sys p → ℕ → Sys p → Type 0
  Exited s code s' = (code ≤ 1) × Quiet s s'

  handle-Parsed :
      (o : Opt) (ctx : Context) (sw : Switches) (s : Sys p)
      → ctx.actions ≡ pack sw
      → Ends (Parsed (o ∷ []) ctx sw s) (Exited s) (handle p host o ctx s)
  unfolding handle die usage version
  handle-Parsed (Opt.input name) ctx sw s e = (e, refl, refl, refl, Quiet-refl s)
  handle-Parsed (Opt.reset none) ctx sw s e =
      (ap (act (Opt.reset none)) e ∙ act-pack (Opt.reset none) sw, refl, refl, refl, Quiet-refl s)
  handle-Parsed (Opt.reset (some text)) ctx sw s e = elim (Option-cases (host.strtoul text)) [
    | inl wrong ↦ rw (handle, wrong) (omega arith, Quiet-of _ s refl refl refl)
    | inr (ms, right) ↦
        rw (handle, right)
          (
            ap (act (Opt.reset none)) e ∙ act-pack (Opt.reset none) sw,
            refl,
            refl,
            refl,
            Quiet-refl s,
          )
  ]
  handle-Parsed Opt.no_reset ctx sw s e =
      (ap (act Opt.no_reset) e ∙ act-pack Opt.no_reset sw, refl, refl, refl, Quiet-refl s)
  handle-Parsed Opt.erase ctx sw s e =
      (ap (act Opt.erase) e ∙ act-pack Opt.erase sw, refl, refl, refl, Quiet-refl s)
  handle-Parsed Opt.no_erase ctx sw s e =
      (ap (act Opt.no_erase) e ∙ act-pack Opt.no_erase sw, refl, refl, refl, Quiet-refl s)
  handle-Parsed Opt.write ctx sw s e =
      (ap (act Opt.write) e ∙ act-pack Opt.write sw, refl, refl, refl, Quiet-refl s)
  handle-Parsed Opt.no_write ctx sw s e =
      (ap (act Opt.no_write) e ∙ act-pack Opt.no_write sw, refl, refl, refl, Quiet-refl s)
  handle-Parsed Opt.verify ctx sw s e =
      (ap (act Opt.verify) e ∙ act-pack Opt.verify sw, refl, refl, refl, Quiet-refl s)
  handle-Parsed Opt.no_verify ctx sw s e =
      (ap (act Opt.no_verify) e ∙ act-pack Opt.no_verify sw, refl, refl, refl, Quiet-refl s)
  handle-Parsed (Opt.flash name) ctx sw s e =
      (ap (act (Opt.flash name)) e ∙ act-pack (Opt.flash name) sw, refl, refl, refl, Quiet-refl s)
  handle-Parsed Opt.help ctx sw s e = (omega arith, Quiet-of _ s refl refl refl)
  handle-Parsed Opt.version_info ctx sw s e = (omega arith, Quiet-of _ s refl refl refl)
  handle-Parsed Opt.unknown ctx sw s e = (omega arith, Quiet-of _ s refl refl refl)

  -- From a context whose action flags are those of some switches, the options of the command line
  -- either end the program, before any device or file is touched, with status 0 or 1, or leave
  -- the flags of the switches that they turn on and off one after another, and the file name of
  -- the last option that gives one.
  pub parse-Parsed :
      (os : List Opt) (ctx : Context) (sw : Switches) (s : Sys p)
      → ctx.actions ≡ pack sw
      → Ends (Parsed os ctx sw s) (Exited s) (parse p host os ctx s)
  unfolding parse
  parse-Parsed [] ctx sw s e = (e, refl, refl, refl, Quiet-refl s)
  parse-Parsed (o ∷ os) ctx sw s e =
      Ends-and_then (Exited s) (Parsed (o ∷ []) ctx sw s) (Parsed (o ∷ os) ctx sw s)
        (handle p host o ctx s) (parse p host os) (handle-Parsed o ctx sw s e)
        (λ mid t (flags, name, image, size, quiet).
          Ends-mono (Parsed os mid (switch o sw) t) (Parsed (o ∷ os) ctx sw s) (Exited t) (Exited s)
            (parse p host os mid t) (parse-Parsed os mid (switch o sw) t flags)
            (λ ctx' u (flags', name', image', size', quiet'). (
              flags',
              name' ∙ ap (names os) name,
              image' ∙ image,
              size' ∙ size,
              Quiet-trans quiet quiet',
            ))
            (λ code u (small, quiet'). (small, Quiet-trans quiet quiet')))
