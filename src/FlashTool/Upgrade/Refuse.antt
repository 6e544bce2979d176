-- ===== src/FlashTool/Upgrade/Refuse.antt =====
-- The firmware utility, src/flash.c, where a dongle's range does not suit the image.
use libfcd.Base.{
  ◌-◌, ◌%◌, ◌^◌, ◌≤◌, ◌<◌, ◌≡◌, ◌≢◌, refl, ap, ◌∙◌, ◌⊎◌, inl, inr, true, false, some, [], ◌∷◌, ◌++◌,
  String, ◌<>◌, ℤ, minus, is_nonzero,
}
use libfcd.Word.{u32}
use libfcd.Platform.{Platform, Sys, Printed, ◌>>=◌}
use libfcd.Platform.Returns.{Returns, Returns-and_then, Returns-both}
use libfcd.Device.{bytes_of}
use libfcd.Device.Transact.{ReadsCounted}
use libfcd.Discovery.{fcd_open, fcd_close}
use libfcd.Discovery.Handle.{fcd_open-Owned, fcd_close-same}
use libfcd.Bootloader.Start.{WholeBlocks}
use libfcd.Bootloader.Write.{fcd_bl_flash_write_refuses}
use libfcd.FlashOptions.{has, action_erase, action_write, error_msg}
use libfcd.FlashTool.{Context, report, verify_step, perform, funcube_flash}
use libfcd.FlashTool.Fleet.{Fleet, Undisturbed, OthersKept-refl, watched}
use libfcd.FlashTool.Upgrade.{fcd_open-Undisturbed}
use libfcd.FlashTool.Upgrade.Verdict.{Undisturbed-trans, OthersKept-Undisturbed}

module _ (p : Platform) (c : ReadsCounted p) (fleet : Fleet p) (ctx : Context) where
  open fleet use {chip}

  -- The range is no positive number of whole blocks, or the image ends before it does.
  abbrev pub Unsuited : String → Type 0
  Unsuited path =
      let first = (chip path).first in
      let last = (chip path).last in
      ((last ≤ first) ⊎ ((last - first) % 48 ≢ 0))
      ⊎ (WholeBlocks first last × (u32 ctx.size < last))

  -- The code of the failure.
  abbrev pub RefusalCode : String → ℤ → Type 0
  RefusalCode path r =
      let first = (chip path).first in
      let last = (chip path).last in
      ((r ≡ minus 2) × ¬ (WholeBlocks first last))
      ⊎ ((r ≡ minus 3) × WholeBlocks first last × (u32 ctx.size < last))

  abbrev pub complaint : String → ℤ → Printed
  complaint path r = Printed.err ("[" <> path <> "] write: " <> error_msg r <> "\n")

  abbrev pub Refused : String → Sys p → ℤ → Sys p → Type 0
  Refused path s r t =
      RefusalCode path r
      × Undisturbed chip s.world t.world
      × (t.printed ≡ s.printed ++ complaint path r ∷ [])

  pub RefusalCode-nonzero : (path : String) (r : ℤ) → RefusalCode path r → is_nonzero r ≡ true
  RefusalCode-nonzero path r (inl (e, _)) = rw e refl
  RefusalCode-nonzero path r (inr (e, _, _)) = rw e refl

  -- The failure is reported, and the verify action is passed over.
  report-Refused :
      (path : String) (s t : Sys p) (code : ℤ)
      → RefusalCode path code
      → Undisturbed chip s.world t.world
      → t.printed ≡ s.printed
      → Returns (Refused path s) (
          (report p (λ r. "[" <> path <> "] write: " <> error_msg r <> "\n") code
              >>= verify_step p path ctx (record { path = some path }))
            t)
  report-Refused path s t code (inl (e, broken)) calm quiet =
      rw e (inl (refl, broken), calm, ap (λ out. out ++ complaint path (minus 2) ∷ []) quiet)
  report-Refused path s t code (inr (e, whole, cut)) calm quiet =
      rw e (inr (refl, whole, cut), calm, ap (λ out. out ++ complaint path (minus 3) ∷ []) quiet)

  perform-Refused :
      (path : String) (s : Sys p)
      → has ctx.actions action_erase ≡ false
      → has ctx.actions action_write ≡ true
      → (chip path).ready s.world
      → (chip path).first < 2 ^ 32
      → Unsuited path
      → Returns (Refused path s) (perform p path ctx (record { path = some path }) s)
  unfolding perform
  perform-Refused path s no_erase writes ready small bad =
      let (t, code, runs, (r', kept), quiet, verdict, same) =
        fcd_bl_flash_write_refuses p c (record { path = some path }) (watched fleet s.world path)
          (bytes_of ctx.data_read) (u32 ctx.size) s (ready, OthersKept-refl fleet path s.world)
          small bad in
      rw (no_erase, writes, runs)
        (report-Refused path s t code verdict
          (OthersKept-Undisturbed fleet path s.world t.world r' same kept) quiet)

  -- If `hid_read` counts what it reads, the dongles answer as `Fleet` says, one is attached at the
  -- path whose range starts at a 32-bit address, and the write action is chosen and the erase action
  -- is not: if the range is empty or no whole number of blocks, `funcube_flash` returns -2, and if it
  -- is good and the image ends before it does, -3. Either way it prints the message for that code
  -- with the path and nothing else, skips the verify action, and leaves the flash of all dongles as it
  -- was.
  pub funcube_flash-Refused :
      (path : String) (s : Sys p)
      → has ctx.actions action_erase ≡ false
      → has ctx.actions action_write ≡ true
      → (chip path).ready s.world
      → (chip path).first < 2 ^ 32
      → Unsuited path
      → Returns (λ (r, ctx') t. (ctx' ≡ ctx) × Refused path s r t) (funcube_flash p path ctx s)
  unfolding funcube_flash
  funcube_flash-Refused path s no_erase writes ready small bad =
      Returns-and_then _ _ (fcd_open p (some path) s) _
        (Returns-both _ _ (fcd_open p (some path) s) (fcd_open-Undisturbed p c fleet path s ready)
          (fcd_open-Owned p (some path) s))
        (λ dev t ((made, calm), owned). rw made (
          Returns-and_then _ _ (perform p path ctx (record { path = some path }) t) _
            (perform-Refused path t no_erase writes (calm path ready).0 small bad)
            (λ z u (verdict, calm', printed).
              Returns-and_then _ _ (fcd_close p (some (record { path = some path })) u) _
                (fcd_close-same p (some (record { path = some path })) u)
                (λ _ v closed. (
                  refl,
                  (
                    verdict,
                    rw closed.0 (Undisturbed-trans fleet s.world t.world u.world calm calm'),
                    closed.1 ∙ printed ∙ ap (λ out. out ++ complaint path z ∷ []) owned.3,
                  ),
                )))))
