-- ===== src/FlashTool/Callback.antt =====
-- `funcube_flash` of src/flash.c always returns, and closes what it opens.
use libfcd.Base.{
  ℕ, ◌≤◌, ◌≡◌, refl, ◌∙◌, ◌⊎◌, inl, inr, Bool, ◌&&◌, not, Bool-cases, Option, none, some, List,
  String, ℤ, pos, minus, is_nonzero, length, arith,
}
use libfcd.Word.{u32}
use libfcd.Platform.{Platform, Sys, Run, Cmd, pure, ◌>>=◌, ◌>>◌}
use libfcd.Platform.Returns.{Returns, Returns-and_then, Returns-mono}
use libfcd.Device.{Fcd, bytes_of}
use libfcd.Device.Transact.{ReadsCounted}
use libfcd.Device.Outcome.{Balanced}
use libfcd.Discovery.{fcd_open, fcd_close}
use libfcd.Discovery.Handle.{Owned, fcd_open-Owned}
use libfcd.Bootloader.{fcd_bl_erase_application, fcd_bl_flash_write, fcd_bl_flash_verify}
use libfcd.Bootloader.Single.{erase_application-Settled}
use libfcd.Bootloader.Invariant.{EarlyCode, VerifyCode}
use libfcd.Bootloader.Range.{fcd_bl_flash_write-Returns, fcd_bl_flash_verify-Returns}
use libfcd.FlashTool.Ending.{Kept, Kept-trans}
use libfcd.FlashOptions.{has, action_erase, action_write, action_verify}
use libfcd.FlashTool.{
  Context, action_step, report, erase_step, write_step, verify_step, perform, funcube_flash,
}

-- The image is as long as the size that the flash functions are told.
abbrev pub Loaded : Context → Type 0
Loaded ctx = u32 ctx.size ≤ length (bytes_of ctx.data_read)

pub Balanced-Kept : {p : Platform} {s t : Sys p} → Balanced s t → Kept s t
Balanced-Kept b = record { kept_handles = b.same_handles; kept_blocks = b.same_blocks }

Returns-Kept :
    {p : Platform} (R : ℤ → Type 0) (s : Sys p) (r : Run p ℤ)
    → Returns (λ code t. Balanced s t × R code) r
    → Returns (λ _ t. Kept s t) r
Returns-Kept R s r h =
    Returns-mono (λ code t. Balanced s t × R code) (λ _ t. Kept s t) r h
      (λ code t e. Balanced-Kept e.0)

module _ (p : Platform) where
  action_step-Kept :
      (chosen : Bool) (run : Cmd p ℤ) (message : ℤ → String) (result : ℤ) (s t : Sys p)
      → ((u : Sys p) → Returns (λ _ v. Kept u v) (run u))
      → Kept s t
      → Returns (λ _ v. Kept s v) (action_step p chosen run message result t)
  action_step-Kept chosen run message result s t returns h =
      elim (Bool-cases (not (is_nonzero result) && chosen)) [
        | inl chosen_now ↦ rw chosen_now (
            Returns-and_then (λ _ v. Kept t v) (λ _ v. Kept s v) (run t) (report p message)
              (returns t)
              (λ r v k. elim (Bool-cases (is_nonzero r)) [
                | inl failed ↦ rw failed (record {
                  kept_handles = k.kept_handles ∙ h.kept_handles;
                  kept_blocks = k.kept_blocks ∙ h.kept_blocks;
                })
                | inr good ↦ rw good (Kept-trans h k)
              ]))
        | inr passed ↦ rw passed h
      ]

module _ (p : Platform) (c : ReadsCounted p) where
  perform-Kept :
      (path : String) (ctx : Context) (dev : Fcd) (s : Sys p)
      → Loaded ctx
      → Returns (λ _ v. Kept s v) (perform p path ctx dev s)
  unfolding perform
  perform-Kept path ctx dev s loaded =
      Returns-and_then (λ _ u. Kept s u) (λ _ u. Kept s u)
        ((erase_step p path ctx dev (pos 0) >>= write_step p path ctx dev) s)
        (verify_step p path ctx dev)
        (Returns-and_then (λ _ u. Kept s u) (λ _ u. Kept s u) (erase_step p path ctx dev (pos 0) s)
          (write_step p path ctx dev)
          (action_step-Kept p (has ctx.actions action_erase) (fcd_bl_erase_application p (some dev))
            _ (pos 0) s s erases (record { kept_handles = refl; kept_blocks = refl }))
          (λ erased t k.
            action_step-Kept p (has ctx.actions action_write)
              (fcd_bl_flash_write p (some dev) image size) _ erased s t writes k))
        (λ written u k.
          action_step-Kept p (has ctx.actions action_verify)
            (fcd_bl_flash_verify p (some dev) image size) _ written s u verifies k)
    where
      image : List ℕ
      image = bytes_of ctx.data_read

      size : ℕ
      size = u32 ctx.size

      erases : (u : Sys p) → Returns (λ _ v. Kept u v) (fcd_bl_erase_application p (some dev) u)
      erases u =
          Returns-Kept (λ code. (code ≡ pos 0) ⊎ (code ≡ minus 1)) u
            (fcd_bl_erase_application p (some dev) u) (erase_application-Settled p c dev u)

      writes :
          (u : Sys p) → Returns (λ _ v. Kept u v) (fcd_bl_flash_write p (some dev) image size u)
      writes u =
          Returns-Kept (λ code. (code ≡ pos 0) ⊎ EarlyCode code ⊎ (code ≡ minus 5)) u
            (fcd_bl_flash_write p (some dev) image size u)
            (fcd_bl_flash_write-Returns p c dev image size u (omega arith) loaded)

      verifies :
          (u : Sys p) → Returns (λ _ v. Kept u v) (fcd_bl_flash_verify p (some dev) image size u)
      verifies u =
          Returns-Kept (λ code. VerifyCode code ⊎ EarlyCode code) u
            (fcd_bl_flash_verify p (some dev) image size u)
            (fcd_bl_flash_verify-Returns p c dev image size u (omega arith) loaded)

  closed-Kept :
      (ctx : Context) (result : ℤ) (fcd : Option Fcd) (s t u : Sys p)
      → Owned s.blocks fcd t
      → t.handles ≡ s.handles
      → Kept t u
      → Returns (λ (r, ctx') v. (ctx' ≡ ctx) × Kept s v) ((fcd_close p fcd >> pure (result, ctx)) u)
  unfolding fcd_close
  closed-Kept ctx result none s t u owned h k =
      (refl, record { kept_handles = k.kept_handles ∙ h; kept_blocks = k.kept_blocks ∙ owned })
  closed-Kept ctx result (some dev) s t u (blocks, (path, known)) h k = rw known (
    refl,
    record {
      kept_handles = k.kept_handles ∙ h;
      kept_blocks = omega (arith, k.kept_blocks, blocks);
    },
  )

  -- If `hid_read` counts what it reads, then with an image at least as long as the size that the
  -- flash functions are told, `funcube_flash` always returns, hands on its context, and leaves as
  -- many hidapi handles open and as many blocks allocated as before.
  pub funcube_flash-Kept :
      (path : String) (ctx : Context) (s : Sys p)
      → Loaded ctx
      → Returns (λ (r, ctx') v. (ctx' ≡ ctx) × Kept s v) (funcube_flash p path ctx s)
  unfolding funcube_flash
  funcube_flash-Kept path ctx s loaded =
      Returns-and_then _ _ (fcd_open p (some path) s) (flashed) (fcd_open-Owned p (some path) s)
        after
    where
      flashed : Option Fcd → Cmd p (ℤ × Context)
      flashed fcd = do
        result ← elim fcd [ none ↦ pure (minus 1) | some dev ↦ perform p path ctx dev ]
        fcd_close p fcd
        pure (result, ctx)

      after :
          (fcd : Option Fcd) (t : Sys p)
          → Owned s.blocks fcd t
            × (t.handles ≡ s.handles)
            × (t.errno ≡ s.errno)
            × (t.printed ≡ s.printed)
          → Returns (λ (r, ctx') v. (ctx' ≡ ctx) × Kept s v) (flashed fcd t)
      after none t (owned, h, _, _) =
          closed-Kept ctx (minus 1) none s t t owned h
            (record { kept_handles = refl; kept_blocks = refl })
      after (some dev) t (owned, h, _, _) =
          Returns-and_then (λ _ u. Kept t u) (λ (r, ctx') v. (ctx' ≡ ctx) × Kept s v)
            (perform p path ctx dev t) (λ result. fcd_close p (some dev) >> pure (result, ctx))
            (perform-Kept path ctx dev t loaded)
            (λ result u k. closed-Kept ctx result (some dev) s t u owned h k)
