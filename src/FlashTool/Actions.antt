-- ===== src/FlashTool/Actions.antt =====
-- The actions of `funcube_flash` are a list of commands, run up to the first failure.
use mathlib.Core.Path.{fun_ext}
use libfcd.Base.{
  zero, suc, negsuc, ◌≡◌, refl, sym, ap, ◌∙◌, inl, inr, Bool, Bool-cases, some, List, [], ◌∷◌,
  String, ◌<>◌, ℤ, pos, is_nonzero, if◌then◌else◌,
}
use libfcd.Word.{u32}
use libfcd.Platform.{Platform, Sys, Run, ok, exit, fault, out_of_fuel, Cmd, and_then, pure, ◌>>=◌}
use libfcd.Platform.Returns.{and_then_assoc}
use libfcd.Device.{Fcd, bytes_of}
use libfcd.Bootloader.{fcd_bl_erase_application, fcd_bl_flash_write, fcd_bl_flash_verify}
use libfcd.FlashOptions.Switches.{Switches, pack, has-pack}
use libfcd.FlashOptions.{has, action_erase, action_write, action_verify, error_msg}
use libfcd.FlashTool.{Context, action_step, report, perform}

and_then-pure : {p : Platform} {A : Type 0} (r : Run p A) → and_then r pure ≡ r
and_then-pure (ok a s) = refl
and_then-pure (exit code s) = refl
and_then-pure fault = refl
and_then-pure out_of_fuel = refl

module _ (p : Platform) where
  -- What is done after a result: nothing after a failure.
  abbrev pub unless_nonzero : Cmd p ℤ → ℤ → Cmd p ℤ
  unless_nonzero rest r = if is_nonzero r then pure r else rest

  -- Run one command after another, up to the first result that is not 0.
  unfoldable pub first_failure : List (Cmd p ℤ) → Cmd p ℤ
  first_failure [] = pure (pos 0)
  first_failure (run ∷ rest) = run >>= unless_nonzero (first_failure rest)

  abbrev pub chosen : Bool → Cmd p ℤ → List (Cmd p ℤ) → List (Cmd p ℤ)
  chosen wanted run rest = if wanted then run ∷ rest else rest

  -- The commands for the switches that are on, each with its report of a failure.
  abbrev pub actions_of : Switches → String → Context → Fcd → List (Cmd p ℤ)
  actions_of sw path ctx fcd =
      chosen sw.erases
        (fcd_bl_erase_application p (some fcd)
          >>= report p (λ r. "[" <> path <> "] erase failed\n"))
        (chosen sw.writes
          (fcd_bl_flash_write p (some fcd) (bytes_of ctx.data_read) (u32 ctx.size)
            >>= report p (λ r. "[" <> path <> "] write: " <> error_msg r <> "\n"))
          (chosen sw.verifies
            (fcd_bl_flash_verify p (some fcd) (bytes_of ctx.data_read) (u32 ctx.size)
              >>= report p (λ r. "[" <> path <> "] verify: " <> error_msg r <> "\n"))
            []))

  action_step_continues :
      (wanted : Bool) (run : Cmd p ℤ) (message : ℤ → String) (next : ℤ → Cmd p ℤ)
      (rest : List (Cmd p ℤ))
      → ((r : ℤ) (t : Sys p) → next r t ≡ unless_nonzero (first_failure rest) r t)
      → (r : ℤ) (t : Sys p)
      → and_then (action_step p wanted run message r t) next
        ≡ unless_nonzero (first_failure (chosen wanted (run >>= report p message) rest)) r t
  unfolding first_failure
  action_step_continues wanted run message next rest goes r t = elim (Bool-cases (is_nonzero r)) [
    | inl failed ↦ rw failed (goes r t ∙ rw failed)
    | inr good ↦ elim (Bool-cases wanted) [
      | inl on ↦
          rw (good, on)
            (ap (and_then (and_then (run t) (report p message)))
              (fun_ext λ r'. fun_ext λ u. goes r' u))
      | inr off ↦ rw (good, off) (goes r t ∙ rw good)
    ]
  ]

  three_steps :
      (be bw bv : Bool) (erase write verify : Cmd p ℤ) (me mw mv : ℤ → String) (s : Sys p)
      → and_then
          (and_then (action_step p be erase me (pos 0) s) (action_step p bw write mw))
          (action_step p bv verify mv)
        ≡ first_failure
            (chosen be
              (erase >>= report p me)
              (chosen bw (write >>= report p mw) (chosen bv (verify >>= report p mv) [])))
            s
  unfolding first_failure
  three_steps be bw bv erase write verify me mw mv s =
      and_then_assoc (action_step p be erase me (pos 0) s) (action_step p bw write mw)
        (action_step p bv verify mv)
      ∙ action_step_continues be erase me
          (λ r. action_step p bw write mw r >>= action_step p bv verify mv)
          (chosen bw (write >>= report p mw) (chosen bv (verify >>= report p mv) []))
          (action_step_continues bw write mw (action_step p bv verify mv)
            (chosen bv (verify >>= report p mv) []) last)
          (pos 0) s
    where
      done : (r : ℤ) (t : Sys p) → pure r t ≡ unless_nonzero (pure (pos 0)) r t
      done (pos zero) t = refl
      done (pos (suc n)) t = refl
      done (negsuc n) t = refl

      last :
          (r : ℤ) (t : Sys p)
          → action_step p bv verify mv r t
            ≡ unless_nonzero (first_failure (chosen bv (verify >>= report p mv) [])) r t
      last r t =
          sym (and_then-pure (action_step p bv verify mv r t))
          ∙ action_step_continues bv verify mv pure [] done r t

  -- If the action flags are those of the switches, the actions on a device are the commands of the
  -- switches that are on, in the order erase, write, verify, each run only if all before it have
  -- returned 0, and the result is that of the first that fails.
  pub perform-first_failure :
      (path : String) (ctx : Context) (sw : Switches) (fcd : Fcd) (s : Sys p)
      → ctx.actions ≡ pack sw
      → perform p path ctx fcd s ≡ first_failure (actions_of sw path ctx fcd) s
  unfolding perform
  perform-first_failure path ctx sw fcd s e =
      let (erases, writes, verifies, image, idle) = has-pack sw in
      rw
        (
          ← (ap (λ a. has a action_erase) e ∙ erases),
          ← (ap (λ a. has a action_write) e ∙ writes),
          ← (ap (λ a. has a action_verify) e ∙ verifies),
        )
        (three_steps (has ctx.actions action_erase) (has ctx.actions action_write)
          (has ctx.actions action_verify) _ _ _ _ _ _ s)
