-- ===== src/FlashTool/Upgrade/Halt.antt =====
-- The walk and `main` of src/flash.c, where one dongle's range does not suit the image.
use libfcd.Base.{
  ◌^◌, ◌<◌, ◌≡◌, ◌∙◌, true, false, List, [], ◌∷◌, ◌++◌, String, ℤ, Bool-cases, inl, inr, arith,
}
use libfcd.Platform.{Platform, Sys, Printed, pure, ◌>>◌, hid_free_enumeration}
use libfcd.Platform.Returns.{Returns, Returns-and_then}
use libfcd.Command.{usb_vid, usb_pid}
use libfcd.Device.Transact.{ReadsCounted}
use libfcd.Discovery.{fcd_for_each}
use libfcd.Discovery.Walk.{paths, visit, visit-append, unless_failed, fcd_for_each-visit}
use libfcd.FlashOptions.{has, action_erase, action_write}
use libfcd.FlashTool.{Context, funcube_flash}
use libfcd.FlashTool.Fleet.{Fleet}
use libfcd.FlashTool.Upgrade.Every.{
  Each, Each-mono, Each-listed, listed, Upgradable, Upgraded, RestKept, visit-AllDone,
}
use libfcd.FlashTool.Upgrade.Refuse.{
  Unsuited, RefusalCode, RefusalCode-nonzero, complaint, funcube_flash-Refused,
}

module _ (p : Platform) (c : ReadsCounted p) (fleet : Fleet p) (ctx : Context) where
  open fleet use {chip}

  -- A dongle that is attached, with a range that does not suit the image.
  abbrev pub Bars : p.World → String → Type 0
  Bars w path = (chip path).ready w × ((chip path).first < 2 ^ 32) × Unsuited p c fleet ctx path

  -- The message is the last thing printed.
  abbrev pub Ends : Printed → Sys p → Type 0
  Ends message t = (earlier : List Printed) × (t.printed ≡ earlier ++ message ∷ [])

  abbrev pub Halted : List String → String → p.World → ℤ → Sys p → Type 0
  Halted before path w r t =
      RefusalCode p c fleet ctx path r
      × Each (Upgraded p c fleet ctx t.world) before
      × RestKept fleet before w t.world
      × Ends (complaint p c fleet ctx path r) t

  -- A dongle that the image does not suit is none of those before it, and is still there after them.
  Bars-ready :
      (before : List String) (path : String) (w w' : p.World)
      → Bars w path
      → Each (Upgradable p c fleet ctx w) before
      → RestKept fleet before w w'
      → (chip path).ready w'
  Bars-ready before path w w' (ready, small, bad) ups kept =
      elim (Bool-cases (listed path before)) [
        | inl among ↦
            let (_, covers) = Each-listed (Upgradable p c fleet ctx w) path before ups among in
            absurd (elim bad [
              | inl broken ↦ ground (arith, broken, covers.0)
              | inr cut ↦ omega (arith, cut.1, covers.1)
            ])
        | inr away ↦ (kept path away ready).0
      ]

  visit-Halted :
      (before after : List String) (path : String) (s : Sys p)
      → has ctx.actions action_erase ≡ false
      → has ctx.actions action_write ≡ true
      → Each (Upgradable p c fleet ctx s.world) before
      → Bars s.world path
      → Returns
          (λ (r, ctx') t. (ctx' ≡ ctx) × Halted before path s.world r t)
          (visit p (funcube_flash p) (before ++ path ∷ after) ctx s)
  unfolding visit
  visit-Halted before after path s no_erase writes ups bars =
      rw (visit-append p (funcube_flash p) before (path ∷ after)) (
        Returns-and_then _ _ (visit p (funcube_flash p) before ctx s)
          (unless_failed p (funcube_flash p) (visit p (funcube_flash p) (path ∷ after)))
          (visit-AllDone p c fleet ctx before s writes ups)
          (λ (z, ctx1) t (good, same, each, kept).
            rw (good, same)
              (Returns-and_then _ _ (funcube_flash p path ctx t)
                (unless_failed p (funcube_flash p) (visit p (funcube_flash p) after))
                (funcube_flash-Refused p c fleet ctx path t no_erase writes
                  (Bars-ready before path s.world t.world bars ups kept) bars.1 bars.2)
                (λ (r, ctx2) u (same', (code, calm, printed)).
                  rw (RefusalCode-nonzero p c fleet ctx path r code) (
                    same',
                    (
                      code,
                      Each-mono _ _ before
                          (λ x (rx, held).
                            let (rx', f) = calm x rx in (rx', λ y lo hi. f y ∙ held y lo hi))
                          each,
                      λ other away ro.
                          let (r1, f1) = kept other away ro in
                          let (r2, f2) = calm other r1 in (r2, λ x. f2 x ∙ f1 x),
                      (t.printed, printed),
                    ),
                  )))))

  pub fcd_for_each-Halted :
      (before after : List String) (path : String) (s : Sys p)
      → paths (p.hid_enumerate usb_vid usb_pid s.world).0 ≡ before ++ path ∷ after
      → has ctx.actions action_erase ≡ false
      → has ctx.actions action_write ≡ true
      → Each (Upgradable p c fleet ctx s.world) before
      → Bars s.world path
      → Returns
          (λ (r, ctx') t. (ctx' ≡ ctx) × Halted before path s.world r t)
          (fcd_for_each p (funcube_flash p) ctx s)
  fcd_for_each-Halted before after path s finds no_erase writes ups (ready, small, bad) =
      let (devs, w) = p.hid_enumerate usb_vid usb_pid s.world in
      let found = fleet.enumerates usb_vid usb_pid s.world in
      rw (fcd_for_each-visit p (funcube_flash p) ctx s, finds)
        (Returns-and_then _ _
          (visit p (funcube_flash p) (before ++ path ∷ after) ctx (record s { world = w }))
          (λ outcome. hid_free_enumeration p devs >> pure outcome)
          (visit-Halted before after path (record s { world = w }) no_erase writes
            (Each-mono (Upgradable p c fleet ctx s.world) (Upgradable p c fleet ctx w) before
              (λ x (ro, co). ((found x ro).0, co)) ups)
            ((found path ready).0, small, bad))
          (λ (r, ctx') t (same, (code, each, kept, (earlier, printed))).
            let freed = fleet.frees devs t.world in
            (
              same,
              (
                code,
                Each-mono (Upgraded p c fleet ctx t.world) _ before
                    (λ x (ro, held).
                      let (r', f) = freed x ro in (r', λ y lo hi. f y ∙ held y lo hi))
                    each,
                λ other away ro.
                    let (r1, f1) = found other ro in
                    let (r2, f2) = kept other away r1 in
                    let (r3, f3) = freed other r2 in (r3, λ x. f3 x ∙ f2 x ∙ f1 x),
                (earlier, printed),
              ),
            )))
