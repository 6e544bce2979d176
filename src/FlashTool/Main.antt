-- ===== src/FlashTool/Main.antt =====
-- `main` of src/flash.c.
use libfcd.Base.{
  ℕ, ◌≤◌, ◌≡◌, refl, ap, ◌∙◌, ◌⊎◌, inl, inr, true, Bool-cases, Option, none, some, List, [], ◌∷◌,
  ◌||◌, ◌≢◌, String, ◌==◌, bit_or, arith,
}
use libfcd.Platform.{Platform, Sys, Cmd, pure, ◌>>=◌}
use libfcd.Platform.Returns.{Returns, Returns-and_then}
use libfcd.Device.Transact.{ReadsCounted}
use libfcd.FlashTool.Ending.{
  Ends, Ends-and_then, Ends-mono, Returns-Ends, Quiet, Quiet-trans, Quiet-of, Kept, Kept-trans,
}
use libfcd.FlashOptions.Switches.{Switches, all_off, switches, pack, has-pack, names}
use libfcd.FlashTool.Parse.{Parsed, Exited, parse-Parsed}
use libfcd.FlashTool.Image.{ReadsWhole}
use libfcd.FlashTool.Work.{Named, check-Named, IsReady, prepare_image-IsReady, flash_all-Kept}
use libfcd.FlashOptions.{CommandLine, has, action_write, action_verify}
use libfcd.FlashTool.{Host, Context, check, prepare_image, flash_all, parse, main, die}

-- The context that `main` starts with.
abbrev initial : Context
initial = record { actions = 0; delay = 2000; data_read = none; size = 0; filename = none }

Quiet-Kept : {p : Platform} {s t : Sys p} → Quiet s t → Kept s t
Quiet-Kept q = record { kept_handles = q.same_handles; kept_blocks = q.same_blocks }

abbrev Ending : {p : Platform} → Sys p → ℕ → Sys p → Type 0
Ending s code t = (code ≤ 1) × Kept s t

module _ (p : Platform) (host : Host p) where
  -- `main` after the checks.
  abbrev worked : Context → Cmd p ℕ
  worked ctx =
      prepare_image p host ctx >>= elim [ none ↦ pure 1 | some ctx' ↦ flash_all p host ctx' ]

module _ (p : Platform) (c : ReadsCounted p) (host : Host p) (reads : ReadsWhole host) where
  worked-Kept :
      (ctx : Context) (s : Sys p)
      → Named ctx
      → ctx.data_read ≡ none
      → ctx.size ≡ 0
      → Returns (Ending s) (worked p host ctx s)
  worked-Kept ctx s named empty sized =
      Returns-and_then (IsReady p c host reads s) (Ending s) (prepare_image p host ctx s) _
        (prepare_image-IsReady p c host reads ctx s named empty sized) after
    where
      after :
          (ready : Option Context) (t : Sys p)
          → IsReady p c host reads s ready t
          → Returns (Ending s) (
              (elim ready as (λ _. Cmd p ℕ) [ none ↦ pure 1 | some ctx' ↦ flash_all p host ctx' ])
                t)
      after ready t (inl (failed, k)) = rw failed (omega arith, k)
      after ready t (inr (ctx', there, held)) =
          rw there (flash_all-Kept p c host reads ctx' s t held)

  -- If `hid_read` and `fread` count what they read, the utility ends whatever the command line, the
  -- file and the devices are. Either it exits with status 0 or 1, before any device or file is
  -- touched, or `main` returns 0 or 1, and as many hidapi handles are open and as many blocks
  -- allocated as before. No access is out of bounds.
  pub main-Ends :
      (args : CommandLine) (s : Sys p)
      → Ends
          (λ code t. (code ≤ 1) × Kept s t)
          (λ code t. (code ≤ 1) × Quiet s t)
          (main p host args s)
  unfolding main
  main-Ends args s =
      Ends-and_then (Exited p host s) (Parsed p host args.options initial all_off s) (Ending s)
        (parse p host args.options initial s) (checked args)
        (parse-Parsed p host args.options initial all_off s refl)
        (λ ctx t (flags, name, image, size, quiet).
          Ends-and_then (Exited p host s) (λ _ u. Quiet s u × Named ctx) (Ending s)
            (check p host args.operands ctx t) (λ _. worked p host ctx)
            (Ends-mono (λ _ u. Quiet t u × Named ctx) (λ _ u. Quiet s u × Named ctx)
              (Exited p host t) (Exited p host s) (check p host args.operands ctx t)
              (check-Named p host args.operands ctx t)
              (λ _ u (quiet', named). (Quiet-trans quiet quiet', named))
              (λ code u (small, quiet'). (small, Quiet-trans quiet quiet')))
            (λ _ u (quiet', named).
              Returns-Ends (Exited p host s) (λ code v. (code ≤ 1) × Kept u v) (Ending s)
                (worked p host ctx u) (worked-Kept ctx u named image size)
                (λ code v (small, k). (small, Kept-trans (Quiet-Kept quiet') k))))
    where
      checked : CommandLine → Context → Cmd p ℕ
      checked line ctx = check p host line.operands ctx >>= λ _. worked p host ctx

-- A command line that the utility refuses: an operand, no action, or an image wanted and not named.
abbrev pub Refusable : CommandLine → Type 0
Refusable args =
    let sw = switches args.options all_off in
    (args.operands ≢ [])
    ⊎ (sw ≡ all_off)
    ⊎ (((sw.writes || sw.verifies) ≡ true) × (names args.options none ≡ none))

module _ (p : Platform) (host : Host p) where
  check-refuses :
      (operands : List String) (ctx : Context) (sw : Switches) (s : Sys p)
      → ctx.actions ≡ pack sw
      → (operands ≢ [])
        ⊎ (sw ≡ all_off)
        ⊎ (((sw.writes || sw.verifies) ≡ true) × (ctx.filename ≡ none))
      → Ends (λ _ _. ⊥) (λ code t. (code ≡ 1) × Quiet s t) (check p host operands ctx s)
  unfolding check die
  check-refuses (extra ∷ more) ctx sw s e bad = (refl, Quiet-of _ s refl refl refl)
  check-refuses [] ctx sw s e (inl operand) = absurd (operand refl)
  check-refuses [] ctx sw s e (inr (inl off)) =
      rw (check, e, off) (refl, Quiet-of _ s refl refl refl)
  check-refuses [] ctx sw s e (inr (inr (wanted, missing))) = elim (Bool-cases (ctx.actions == 0)) [
    | inl idle ↦ rw (check, idle) (refl, Quiet-of _ s refl refl refl)
    | inr busy ↦
        let image : has ctx.actions (bit_or action_write action_verify) ≡ true =
          ap (λ a. has a (bit_or action_write action_verify)) e ∙ (has-pack sw).3 ∙ wanted in
        rw (check, busy, image, missing) (refl, Quiet-of _ s refl refl refl)
  ]

  -- With an operand, with no action left, or with an image wanted and no file named, `main` never
  -- returns: it exits with status 0 or 1 before any device or file is touched.
  pub main_refuses :
      (args : CommandLine) (s : Sys p)
      → Refusable args
      → Ends (λ _ _. ⊥) (λ code t. (code ≤ 1) × Quiet s t) (main p host args s)
  unfolding main
  main_refuses args s bad =
      Ends-and_then (Exited p host s) (Parsed p host args.options initial all_off s) (λ _ _. ⊥)
        (parse p host args.options initial s)
        (λ ctx. check p host args.operands ctx >>= λ _. worked p host ctx)
        (parse-Parsed p host args.options initial all_off s refl)
        (λ ctx t (flags, name, image, size, quiet).
          Ends-and_then (λ code u. (code ≤ 1) × Quiet s u) (λ _ _. ⊥) (λ _ _. ⊥)
            (check p host args.operands ctx t) (λ _. worked p host ctx)
            (Ends-mono (λ _ _. ⊥) (λ _ _. ⊥) (λ code u. (code ≡ 1) × Quiet t u)
              (λ code u. (code ≤ 1) × Quiet s u) (check p host args.operands ctx t)
              (check-refuses args.operands ctx (switches args.options all_off) t flags
                (refusal ctx name bad))
              (λ _ u never. never)
              (λ code u (one, quiet'). (omega (arith, one), Quiet-trans quiet quiet')))
            (λ _ u never. absurd never))
    where
      refusal :
          (ctx : Context)
          → ctx.filename ≡ names args.options none
          → Refusable args
          → let sw = switches args.options all_off in
            (args.operands ≢ [])
            ⊎ (sw ≡ all_off)
            ⊎ (((sw.writes || sw.verifies) ≡ true) × (ctx.filename ≡ none))
      refusal ctx name (inl operand) = inl operand
      refusal ctx name (inr (inl off)) = inr (inl off)
      refusal ctx name (inr (inr (wanted, missing))) = inr (inr (wanted, name ∙ missing))
