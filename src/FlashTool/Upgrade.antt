-- ===== src/FlashTool/Upgrade.antt =====
-- `funcube_flash` of src/flash.c on dongles that answer.
pub mod File
pub mod Every
pub mod Reboot
pub mod Program
pub mod Full
pub mod Verdict
pub mod Judge
pub mod Refuse
pub mod Halt
pub mod Failure
use libfcd.Base.{
  ℕ, ◌≤◌, ◌≡◌, refl, sym, ap, ◌∙◌, inl, inr, Bool, true, false, Bool-cases, Option, none, some,
  String, ℤ, pos, length, arith, ◌∷◌, [],
}
use libfcd.Word.{u32}
use libfcd.Platform.{Platform, Sys, ok, Cmd, pure, ◌>>=◌, ◌>>◌}
use libfcd.Platform.Returns.{Returns, Returns-and_then, Returns-mono}
use libfcd.Command.{cmd_erase_application}
use libfcd.Device.{Fcd, bytes_of}
use libfcd.Device.Transact.{ReadsCounted, request}
use libfcd.Discovery.{fcd_open, fcd_close, sizeof_fcd}
use libfcd.Discovery.Handle.{fcd_open-opens, fcd_close-same}
use libfcd.Bootloader.{fcd_bl_erase_application, fcd_bl_flash_write, fcd_bl_flash_verify}
use libfcd.Bootloader.Chip.{Chip}
use libfcd.Bootloader.Blocks.{erase_application-Answers}
use libfcd.Bootloader.Start.{WholeBlocks}
use libfcd.Bootloader.Compare.{Matches}
use libfcd.Bootloader.Write.{fcd_bl_flash_write-holding}
use libfcd.Bootloader.Verify.{fcd_bl_flash_verify-Matches}
use libfcd.FlashOptions.{has, action_erase, action_write, action_verify}
use libfcd.FlashTool.{
  Context, action_step, report, erase_step, write_step, verify_step, perform, funcube_flash,
}
use libfcd.FlashTool.Callback.{Loaded}
use libfcd.FlashTool.Fleet.{
  Fleet, Undisturbed, OthersKept, OthersKept-refl, OthersKept-trans, Undisturbed-OthersKept,
  Answers-OthersKept, watched,
}

-- The run returns 0, and `Q` holds afterwards.
abbrev pub Succeeds : {p : Platform} → (Sys p → Type 0) → Cmd p ℤ → Sys p → Type 0
Succeeds Q run s = Returns (λ r t. (r ≡ pos 0) × Q t) (run s)

-- An action that succeeds where it is chosen goes on with 0.
action_step-Succeeds :
    (p : Platform) (chosen : Bool) (run : Cmd p ℤ) (message : ℤ → String) (Q : Sys p → Type 0)
    (r : ℤ) (s : Sys p)
    → r ≡ pos 0
    → (chosen ≡ true → Succeeds Q run s)
    → (chosen ≡ false → Q s)
    → Succeeds Q (action_step p chosen run message r) s
action_step-Succeeds p true run message Q r s zero_so_far good idle = rw zero_so_far (
    Returns-and_then (λ r' t. (r' ≡ pos 0) × Q t) (λ r' t. (r' ≡ pos 0) × Q t) (run s)
      (report p message) (good refl) (λ r' t (z, q). rw z (refl, q)))
action_step-Succeeds p false run message Q r s zero_so_far good idle =
    rw zero_so_far (refl, idle refl)

-- The size is that of an image that reaches the end of a good range.
abbrev pub Covers : Context → ℕ → ℕ → Type 0
Covers ctx first last = WholeBlocks first last × (last ≤ u32 ctx.size) × Loaded ctx

module _ (p : Platform) (c : ReadsCounted p) (fleet : Fleet p) (path : String) (w0 : p.World) where
  open fleet use {chip}

  abbrev pub Watched : Sys p → Type 0
  Watched s = (watched fleet w0 path).ready s.world

  abbrev pub Holds : Context → Sys p → Type 0
  Holds ctx s =
      Watched s
      × Matches ((chip path).flash s.world) (bytes_of ctx.data_read) (chip path).first
          (chip path).last

  abbrev dev : Fcd
  dev = record { path = some path }

  erase-Watched :
      (s : Sys p) → Watched s → Succeeds Watched (fcd_bl_erase_application p (some dev)) s
  erase-Watched s (r, kept) =
      let (w', a, r') = fleet.erases path s.world r in
      rw (erase_application-Answers p c dev s w' a)
        (refl, (r', Answers-OthersKept fleet path w0 s.world w' _ _ _ kept r a))

  write-Holds :
      (ctx : Context) (s : Sys p)
      → Covers ctx (chip path).first (chip path).last
      → Watched s
      → Succeeds
          (Holds ctx)
          (fcd_bl_flash_write p (some dev) (bytes_of ctx.data_read) (u32 ctx.size))
          s
  write-Holds ctx s (whole, fits, inside) r =
      let (s', runs, r', held) =
        fcd_bl_flash_write-holding p c dev (watched fleet w0 path) (bytes_of ctx.data_read)
          (u32 ctx.size) s r whole fits inside in
      rw runs (refl, (r', λ x lo hi. ground (arith, held x)))

  verify-Holds :
      (ctx : Context) (s : Sys p)
      → Covers ctx (chip path).first (chip path).last
      → Holds ctx s
      → Succeeds
          (Holds ctx)
          (fcd_bl_flash_verify p (some dev) (bytes_of ctx.data_read) (u32 ctx.size))
          s
  verify-Holds ctx s (whole, fits, inside) (r, held) =
      let (s', code, runs, r', same, verdict) =
        fcd_bl_flash_verify-Matches p c dev (watched fleet w0 path) (bytes_of ctx.data_read)
          (u32 ctx.size) s r whole fits inside in
      elim verdict [
        | inl good ↦ rw runs (good.0, (r', λ x lo hi. same x ∙ held x lo hi))
        | inr bad ↦ absurd (bad.1 held)
      ]

  perform-Holds :
      (ctx : Context) (s : Sys p)
      → Covers ctx (chip path).first (chip path).last
      → has ctx.actions action_write ≡ true
      → Watched s
      → Succeeds (Holds ctx) (perform p path ctx dev) s
  unfolding perform
  perform-Holds ctx s covers writes r =
      Returns-and_then (λ z t. (z ≡ pos 0) × Holds ctx t) (λ z t. (z ≡ pos 0) × Holds ctx t)
        ((erase_step p path ctx dev (pos 0) >>= write_step p path ctx dev) s)
        (verify_step p path ctx dev)
        (Returns-and_then (λ z t. (z ≡ pos 0) × Watched t) (λ z t. (z ≡ pos 0) × Holds ctx t)
          (erase_step p path ctx dev (pos 0) s) (write_step p path ctx dev)
          (action_step-Succeeds p (has ctx.actions action_erase)
            (fcd_bl_erase_application p (some dev)) _ Watched (pos 0) s refl
            (λ _. erase-Watched s r) (λ _. r))
          (λ z t (e, r').
            action_step-Succeeds p (has ctx.actions action_write)
              (fcd_bl_flash_write p (some dev) (bytes_of ctx.data_read) (u32 ctx.size)) _
              (Holds ctx) z t e (λ _. write-Holds ctx t covers r')
              (λ off. absurd (ground (arith, writes, off)))))
        (λ z t (e, h).
          action_step-Succeeds p (has ctx.actions action_verify)
            (fcd_bl_flash_verify p (some dev) (bytes_of ctx.data_read) (u32 ctx.size)) _ (Holds ctx)
            z t e (λ _. verify-Holds ctx t covers h) (λ _. h))

module _ (p : Platform) (c : ReadsCounted p) (fleet : Fleet p) where
  open fleet use {chip}

  -- The device is opened, with all dongles as they were.
  pub fcd_open-Undisturbed :
      (path : String) (s : Sys p)
      → (chip path).ready s.world
      → Returns
          (λ dev t. (dev ≡ some (record { path = some path })) × Undisturbed chip s.world t.world)
          (fcd_open p (some path) s)
  fcd_open-Undisturbed path s r =
      let (enough, calm) = fleet.allocates sizeof_fcd s.world in
      let w1 = (p.malloc sizeof_fcd s.world).1 in
      let (h, opened, calm') = fleet.opens path w1 (calm path r).0 in
      let (enough', _) = fleet.copies path (p.hid_open_path (some path) w1).1 in
      Returns-mono _ _ (fcd_open p (some path) s) (fcd_open-opens p path h s enough opened enough')
        (λ dev t (made, world). (
          made,
          rw world (λ other ro.
              let (r1, f1) = calm other ro in
              let (r2, f2) = calm' other r1 in (r2, λ x. f2 x ∙ f1 x)),
        ))

  -- If `hid_read` counts what it reads, the dongles answer as `Fleet` says, one is attached at the
  -- path, and the image covers the dongle's range, then `funcube_flash` with the write action
  -- returns 0, whichever of the erase and verify actions are chosen too, and leaves the dongle's
  -- flash holding the image's bytes at all addresses of the range, and the other dongles' flash as
  -- it was.
  pub funcube_flash-Holds :
      (path : String) (ctx : Context) (s : Sys p)
      → (chip path).ready s.world
      → Covers ctx (chip path).first (chip path).last
      → has ctx.actions action_write ≡ true
      → Returns
          (λ (r, ctx') t. (r ≡ pos 0) × (ctx' ≡ ctx) × Holds p c fleet path s.world ctx t)
          (funcube_flash p path ctx s)
  unfolding funcube_flash
  funcube_flash-Holds path ctx s r covers writes =
      Returns-and_then _ _ (fcd_open p (some path) s) _ (fcd_open-Undisturbed path s r)
        (λ dev t (made, calm). rw made (
          Returns-and_then _ _ (perform p path ctx (record { path = some path }) t) _
            (perform-Holds p c fleet path s.world ctx t covers writes
              ((calm path r).0, Undisturbed-OthersKept fleet path s.world t.world calm))
            (λ z u (e, held).
              Returns-and_then _ _ (fcd_close p (some (record { path = some path })) u) _
                (fcd_close-same p (some (record { path = some path })) u)
                (λ _ v same. (e, refl, rw same.0 held)))))
