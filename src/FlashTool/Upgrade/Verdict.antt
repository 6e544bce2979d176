-- ===== src/FlashTool/Upgrade/Verdict.antt =====
-- The verify action alone, src/flash.c, on dongles that answer.
use text.Mathlib.Text.{◌==◌ as str_eq}
use text.Mathlib.TextEquality.{eq_iff}
use libfcd.Base.{
  ℕ, ◌≡◌, refl, sym, ◌∙◌, ◌⊎◌, ◌↔◌, inl, inr, true, false, Bool-cases, some, List, [], ◌∷◌, String,
  ℤ, pos, is_nonzero,
}
use libfcd.Word.{u32}
use libfcd.Platform.{Platform, Sys}
use libfcd.Platform.Returns.{Returns, Returns-and_then, Returns-mono}
use libfcd.Device.{bytes_of}
use libfcd.Device.Transact.{ReadsCounted}
use libfcd.Discovery.{fcd_open, fcd_close}
use libfcd.Discovery.Handle.{fcd_close-same}
use libfcd.Discovery.Walk.{visit, unless_failed}
use libfcd.Bootloader.{fcd_bl_flash_verify}
use libfcd.Bootloader.Compare.{Matches}
use libfcd.Bootloader.Verify.{fcd_bl_flash_verify-Matches}
use libfcd.FlashOptions.{has, action_erase, action_write, action_verify}
use libfcd.FlashTool.{Context, report, perform, funcube_flash}
use libfcd.FlashTool.Fleet.{Fleet, Undisturbed, OthersKept, OthersKept-refl, watched}
use libfcd.FlashTool.Upgrade.{fcd_open-Undisturbed}
use libfcd.FlashTool.Upgrade.Every.{Each, Each-mono, Upgradable, str_eq-false}

pub Undisturbed-trans :
    {p : Platform} (fleet : Fleet p) (w w' w2 : p.World)
    → Undisturbed fleet.chip w w'
    → Undisturbed fleet.chip w' w2
    → Undisturbed fleet.chip w w2
Undisturbed-trans fleet w w' w2 f g path r =
    let (r', same) = f path r in let (r2, same') = g path r' in (r2, λ x. same' x ∙ same x)

pub OthersKept-Undisturbed :
    {p : Platform} (fleet : Fleet p) (path : String) (w w' : p.World)
    → (fleet.chip path).ready w'
    → ((x : ℕ) → (fleet.chip path).flash w' x ≡ (fleet.chip path).flash w x)
    → OthersKept fleet path w w'
    → Undisturbed fleet.chip w w'
OthersKept-Undisturbed fleet path w w' r' same kept other ro =
    elim (Bool-cases (str_eq path other)) [
      | inl here ↦
          (rw ((eq_iff path other).0 here) at r', λ x. rw ((eq_iff path other).0 here) at (same x))
      | inr away ↦ kept other (str_eq-false path other away) ro
    ]

module _ (p : Platform) (c : ReadsCounted p) (fleet : Fleet p) (ctx : Context) where
  open fleet use {chip}

  -- The dongle at the path holds the image.
  abbrev pub HoldsImage : p.World → String → Type 0
  HoldsImage w path =
      Matches ((chip path).flash w) (bytes_of ctx.data_read) (chip path).first (chip path).last

  -- The result 0 for a yes, and 1 for a no.
  abbrev pub Decides : Type 0 → ℤ → Type 0
  Decides A r = ((r ≡ pos 0) × A) ⊎ ((r ≡ pos 1) × ¬ A)

  pub Decides-iff : (A B : Type 0) (r : ℤ) → A ↔ B → Decides A r → Decides B r
  Decides-iff A B r same (inl (e, a)) = inl (e, same.0 a)
  Decides-iff A B r same (inr (e, not_a)) = inr (e, λ b. not_a (same.1 b))

  HoldsImage-same :
      (w w' : p.World) (path : String)
      → ((x : ℕ) → (chip path).flash w' x ≡ (chip path).flash w x)
      → HoldsImage w' path ↔ HoldsImage w path
  HoldsImage-same w w' path same =
      (λ h x lo hi. sym (same x) ∙ h x lo hi, λ h x lo hi. same x ∙ h x lo hi)

  pub Each-same :
      (s t : Sys p) (xs : List String)
      → Undisturbed chip s.world t.world
      → Each (Upgradable p c fleet ctx s.world) xs
      → Each (HoldsImage t.world) xs ↔ Each (HoldsImage s.world) xs
  Each-same s t [] calm ups = (λ k. k, λ k. k)
  Each-same s t (x ∷ xs) calm (up, ups) =
      let here = HoldsImage-same s.world t.world x (calm x up.0).1 in
      let rest = Each-same s t xs calm ups in
      (λ k. (here.0 k.0, rest.0 k.1), λ k. (here.1 k.0, rest.1 k.1))

  -- Only the verify action.
  abbrev pub OnlyVerifies : Type 0
  OnlyVerifies =
      (has ctx.actions action_erase ≡ false)
      × (has ctx.actions action_write ≡ false)
      × (has ctx.actions action_verify ≡ true)

  abbrev Judged : String → p.World → ℤ → Sys p → Type 0
  Judged path w r t = Undisturbed chip w t.world × Decides (HoldsImage w path) r

  verify-Judged :
      (path : String) (s : Sys p)
      → Upgradable p c fleet ctx s.world path
      → Returns (Judged path s.world) (
          fcd_bl_flash_verify p
            (some (record { path = some path }))
            (bytes_of ctx.data_read)
            (u32 ctx.size)
            s)
  verify-Judged path s (r, (whole, fits, inside)) =
      let (t, code, runs, (r', kept), same, verdict) =
        fcd_bl_flash_verify-Matches p c (record { path = some path }) (watched fleet s.world path)
          (bytes_of ctx.data_read) (u32 ctx.size) s (r, OthersKept-refl fleet path s.world) whole
          fits inside in
      rw runs (OthersKept-Undisturbed fleet path s.world t.world r' same kept, verdict)

  perform-Judged :
      (path : String) (s : Sys p)
      → OnlyVerifies
      → Upgradable p c fleet ctx s.world path
      → Returns (Judged path s.world) (perform p path ctx (record { path = some path }) s)
  unfolding perform
  perform-Judged path s (no_erase, no_write, verifies) up =
      rw (no_erase, no_write, verifies)
        (Returns-and_then (Judged path s.world) (Judged path s.world)
          (fcd_bl_flash_verify p (some (record { path = some path })) (bytes_of ctx.data_read)
            (u32 ctx.size) s)
          (report p _) (verify-Judged path s up)
          (λ r t (calm, verdict). elim (Bool-cases (is_nonzero r)) [
            | inl bad ↦ rw bad (calm, verdict)
            | inr good ↦ rw good (calm, verdict)
          ]))

  funcube_flash-Judged :
      (path : String) (s : Sys p)
      → OnlyVerifies
      → Upgradable p c fleet ctx s.world path
      → Returns (λ (r, ctx') t. (ctx' ≡ ctx) × Judged path s.world r t) (funcube_flash p path ctx s)
  unfolding funcube_flash
  funcube_flash-Judged path s only (ready, covers) =
      Returns-and_then _ _ (fcd_open p (some path) s) _
        (fcd_open-Undisturbed p c fleet path s ready)
        (λ dev t (made, calm). rw made (
          Returns-and_then _ _ (perform p path ctx (record { path = some path }) t) _
            (perform-Judged path t only ((calm path ready).0, covers))
            (λ z u (calm', verdict).
              Returns-and_then _ _ (fcd_close p (some (record { path = some path })) u) _
                (fcd_close-same p (some (record { path = some path })) u)
                (λ _ v closed. (
                  refl,
                  (
                    rw closed.0 (Undisturbed-trans fleet s.world t.world u.world calm calm'),
                    Decides-iff _ _ z (HoldsImage-same s.world t.world path (calm path ready).1)
                        verdict,
                  ),
                )))))

  pub visit-Judged :
      (xs : List String) (s : Sys p)
      → OnlyVerifies
      → Each (Upgradable p c fleet ctx s.world) xs
      → Returns
          (λ (r, ctx') t.
            (ctx' ≡ ctx)
            × Undisturbed chip s.world t.world
            × Decides (Each (HoldsImage s.world) xs) r)
          (visit p (funcube_flash p) xs ctx s)
  unfolding visit
  visit-Judged [] s only h = (refl, λ other ro. (ro, λ x. refl), inl (refl, tt))
  visit-Judged (path ∷ xs) s only (up, rest) =
      Returns-and_then _ _ (funcube_flash p path ctx s)
        (unless_failed p (funcube_flash p) (visit p (funcube_flash p) xs))
        (funcube_flash-Judged path s only up)
        (λ (z, ctx') t (same, (calm, verdict)). elim verdict [
          | inl (good, holds) ↦
              rw (good, same)
                (Returns-mono _ _ (visit p (funcube_flash p) xs ctx t)
                  (visit-Judged xs t only (
                    Each-mono (Upgradable p c fleet ctx s.world) (Upgradable p c fleet ctx t.world)
                      xs (λ other (ro, co). ((calm other ro).0, co)) rest))
                  (λ (z', ctx2) u (same', calm', verdict'). (
                    same',
                    Undisturbed-trans fleet s.world t.world u.world calm calm',
                    Decides-iff _ _ z' (all_same s t xs holds calm rest) verdict',
                  )))
          | inr (bad, fails) ↦ rw (bad, same) (refl, calm, inr (refl, λ all. fails all.0))
        ])
    where
      all_same :
          (s' t : Sys p) (ys : List String)
          → HoldsImage s'.world path
          → Undisturbed chip s'.world t.world
          → Each (Upgradable p c fleet ctx s'.world) ys
          → Each (HoldsImage t.world) ys ↔ Each (HoldsImage s'.world) (path ∷ ys)
      all_same s' t ys holds calm ups =
          (λ k. (holds, (Each-same s' t ys calm ups).0 k), λ k. (Each-same s' t ys calm ups).1 k.1)
