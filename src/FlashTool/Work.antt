-- ===== src/FlashTool/Work.antt =====
-- The work of `main` of src/flash.c: the checks, the image, and the devices.
use libfcd.Base.{
  ℕ, ◌+◌, ◌≤◌, ◌≡◌, refl, ◌∙◌, ◌⊎◌, inl, inr, true, Bool-cases, Option, none, some, Option-cases,
  List, [], ◌∷◌, String, ℤ, is_nonzero, if◌then◌else◌, ◌==◌, bit_or, arith,
}
use libfcd.Platform.{Platform, Sys, Cmd, pure, skip, free, ◌>>=◌, ◌>>◌}
use libfcd.Platform.Returns.{Returns, Returns-and_then, Returns-mono}
use libfcd.Device.{Buf}
use libfcd.Device.Transact.{ReadsCounted}
use libfcd.Device.Outcome.{Balanced}
use libfcd.Discovery.{fcd_for_each, fcd_reset_bootloader, fcd_reset_application}
use libfcd.Discovery.Walk.{fcd_for_each-Returns}
use libfcd.Discovery.Reset.{fcd_resets-Balanced}
use libfcd.FlashTool.Ending.{Ends, Quiet, Quiet-refl, Quiet-of, Kept, Kept-trans}
use libfcd.FlashTool.Parse.{Exited}
use libfcd.FlashTool.Image.{ReadsWhole, Read, fread_all-Read}
use libfcd.FlashTool.Callback.{Loaded, funcube_flash-Kept, Balanced-Kept}
use libfcd.FlashOptions.{has, action_write, action_verify, action_reset}
use libfcd.FlashTool.{
  Host, Context, funcube_flash, fread_all, fclose, take_contents, check, read_image, prepare_image,
  flash_all, when_resetting, restart, die,
}

-- A file name is there wherever an image is wanted.
abbrev pub Named : Context → Type 0
Named ctx =
    has ctx.actions (bit_or action_write action_verify) ≡ true
    → (name : String) × (ctx.filename ≡ some name)

-- The blocks that a context holds.
abbrev pub blocks_of : Context → ℕ
blocks_of ctx = elim ctx.data_read [ none ↦ 0 | some bytes ↦ 1 ]

abbrev pub Holding : {p : Platform} → Sys p → Context → Sys p → Type 0
Holding s ctx t = Loaded ctx × (t.handles ≡ s.handles) × (t.blocks ≡ s.blocks + blocks_of ctx)

module _ (p : Platform) (host : Host p) where
  pub check-Named :
      (operands : List String) (ctx : Context) (s : Sys p)
      → Ends (λ _ t. Quiet s t × Named ctx) (Exited p host s) (check p host operands ctx s)
  unfolding check die
  check-Named (extra ∷ more) ctx s = (omega arith, Quiet-of _ s refl refl refl)
  check-Named [] ctx s = elim (Bool-cases (ctx.actions == 0)) [
    | inl idle ↦ rw (check, idle) (omega arith, Quiet-of _ s refl refl refl)
    | inr busy ↦ elim (Bool-cases (has ctx.actions (bit_or action_write action_verify))) [
      | inl wanted ↦ elim (Option-cases ctx.filename) [
        | inl missing ↦ rw (check, busy, wanted, missing) (omega arith, Quiet-of _ s refl refl refl)
        | inr (name, given) ↦ rw (check, busy, wanted, given) (Quiet-refl s, λ e. (name, refl))
      ]
      | inr unwanted ↦ rw (check, busy, unwanted) (Quiet-refl s, λ e. ground arith)
    ]
  ]

module _ (p : Platform) (c : ReadsCounted p) (host : Host p) (reads : ReadsWhole host) where
  -- The image is read with its size, and one block is held for it, or none.
  read_image-Holding :
      (name : String) (ctx : Context) (s : Sys p)
      → Returns
          (λ ready t.
            (ready ≡ none × Kept s t) ⊎ ((ctx' : Context) × (ready ≡ some ctx') × Holding s ctx' t))
          (read_image p host name ctx s)
  unfolding read_image
  read_image-Holding name ctx s = elim (Option-cases (host.fopen name s.world).0) [
    | inl missing ↦ rw missing (inl (refl, record { kept_handles = refl; kept_blocks = refl }))
    | inr (f, opened) ↦ rw opened (
        Returns-and_then (Read p host f start)
          (λ ready t.
            (ready ≡ none × Kept s t) ⊎ ((ctx' : Context) × (ready ≡ some ctx') × Holding s ctx' t))
          (fread_all p host f start) (rest f) (fread_all-Read p host reads f start) (after f))
  ]
    where
      start : Sys p
      start = record s { world = (host.fopen name s.world).1 }

      rest : host.File → Option (List ℕ × ℕ) → Cmd p (Option Context)
      rest f contents = fclose p host f >> take_contents p host ctx contents

      after :
          (f : host.File) (contents : Option (List ℕ × ℕ)) (t : Sys p)
          → Read p host f start contents t
          → Returns
              (λ ready u.
                (ready ≡ none × Kept s u)
                ⊎ ((ctx' : Context) × (ready ≡ some ctx') × Holding s ctx' u))
              (rest f contents t)
      after f none t k =
          inl (refl, record { kept_handles = k.kept_handles; kept_blocks = k.kept_blocks })
      after f (some (bytes, n)) t (size, h, b, _) =
          inr (record ctx { data_read = some bytes; size = n }, refl, (omega (arith, size), h, b))

  -- What the preparation of the image leaves.
  abbrev pub IsReady : Sys p → Option Context → Sys p → Type 0
  IsReady s ready t =
      (ready ≡ none × Kept s t) ⊎ ((ctx' : Context) × (ready ≡ some ctx') × Holding s ctx' t)

  pub prepare_image-IsReady :
      (ctx : Context) (s : Sys p)
      → Named ctx
      → ctx.data_read ≡ none
      → ctx.size ≡ 0
      → Returns (IsReady s) (prepare_image p host ctx s)
  unfolding prepare_image
  prepare_image-IsReady ctx s named empty sized =
      elim (Bool-cases (has ctx.actions (bit_or action_write action_verify))) [
        | inl wanted ↦
            let (name, given) = named wanted in
            rw (wanted, given) (read_image-Holding name (record ctx { filename = some name }) s)
        | inr unwanted ↦
            rw unwanted
              (inr (ctx, refl, (rw (sized, empty) (omega arith), refl, rw empty (omega arith))))
      ]

  when_resetting-Kept :
      (ctx : Context) (run : Cmd p (Unit {0})) (s : Sys p)
      → Returns (λ _ t. Balanced s t) (run s)
      → Returns (λ _ t. Kept s t) (when_resetting p host ctx run s)
  when_resetting-Kept ctx run s h = elim (Bool-cases (has ctx.actions action_reset)) [
    | inl resetting ↦
        rw resetting (
          Returns-mono (λ _ t. Balanced s t) (λ _ t. Kept s t) (run s) h (λ _ t b. Balanced-Kept b))
    | inr staying ↦ rw staying (record { kept_handles = refl; kept_blocks = refl })
  ]

  -- One block is released, if there is one.
  restart-Kept :
      (ctx : Context) (failed : ℤ) (s t : Sys p)
      → t.handles ≡ s.handles
      → t.blocks ≡ s.blocks + blocks_of ctx
      → Returns (λ code u. (code ≤ 1) × Kept s u) (restart p host (failed, ctx) t)
  restart-Kept ctx failed s t h b =
      Returns-and_then (λ _ u. Kept t u) (λ code u. (code ≤ 1) × Kept s u)
        (when_resetting p host ctx (fcd_reset_application p ctx.delay) t) (released ctx)
        (when_resetting-Kept ctx (fcd_reset_application p ctx.delay) t
          (fcd_resets-Balanced p c ctx.delay t).1)
        (λ _ u k.
          release ctx.data_read u (omega (arith, k.kept_handles, h))
            (omega (arith, k.kept_blocks, b)))
    where
      freed : Buf → Cmd p (Unit {0})
      freed image = elim image [ none ↦ skip | some bytes ↦ free p ]

      released : Context → Unit {0} → Cmd p ℕ
      released ctx' _ = freed ctx'.data_read >> pure (if is_nonzero failed then 1 else 0)

      status : (if is_nonzero failed then 1 else 0) ≤ 1
      status = ground arith

      release :
          (image : Buf) (u : Sys p)
          → u.handles ≡ s.handles
          → u.blocks ≡ s.blocks + (elim image [ none ↦ 0 | some bytes ↦ 1 ])
          → Returns
              (λ code v. (code ≤ 1) × Kept s v)
              ((freed image >> pure (if is_nonzero failed then 1 else 0)) u)
      release none u h' b' = (status, record { kept_handles = h'; kept_blocks = omega (arith, b') })
      release (some bytes) u h' b' =
          (status, record { kept_handles = h'; kept_blocks = omega (arith, b') })

  pub flash_all-Kept :
      (ctx : Context) (s t : Sys p)
      → Holding s ctx t
      → Returns (λ code u. (code ≤ 1) × Kept s u) (flash_all p host ctx t)
  unfolding flash_all
  flash_all-Kept ctx s t (loaded, h, b) =
      Returns-and_then (λ _ u. Kept t u) (λ code u. (code ≤ 1) × Kept s u)
        (when_resetting p host ctx (fcd_reset_bootloader p ctx.delay) t)
        (λ _. fcd_for_each p (funcube_flash p) ctx >>= restart p host)
        (when_resetting-Kept ctx (fcd_reset_bootloader p ctx.delay) t
          (fcd_resets-Balanced p c ctx.delay t).0)
        (λ _ u k.
          Returns-and_then (λ (r, ctx') v. (ctx' ≡ ctx) × Kept t v)
            (λ code v. (code ≤ 1) × Kept s v) (fcd_for_each p (funcube_flash p) ctx u)
            (restart p host)
            (fcd_for_each-Returns p (funcube_flash p) (λ ctx' v. (ctx' ≡ ctx) × Kept t v)
              (λ ctx' v w e.
                (e.0, record { kept_handles = e.1.kept_handles; kept_blocks = e.1.kept_blocks }))
              (λ path ctx' v e. step path ctx' v e.0 e.1) ctx u (refl, k))
            (λ (r, ctx') v (same, k'). after r ctx' v same k'))
    where
      step :
          (path : String) (ctx' : Context) (u : Sys p)
          → ctx' ≡ ctx
          → Kept t u
          → Returns (λ (r, ctx2) v. (ctx2 ≡ ctx) × Kept t v) (funcube_flash p path ctx' u)
      step path ctx' u same k = rw same (
          Returns-mono (λ (r, ctx2) v. (ctx2 ≡ ctx) × Kept u v)
            (λ (r, ctx2) v. (ctx2 ≡ ctx) × Kept t v) (funcube_flash p path ctx u)
            (funcube_flash-Kept p c path ctx u loaded)
            (λ (r, ctx2) v (e, k'). (e, Kept-trans k k')))

      after :
          (r : ℤ) (ctx' : Context) (u : Sys p)
          → ctx' ≡ ctx
          → Kept t u
          → Returns (λ code v. (code ≤ 1) × Kept s v) (restart p host (r, ctx') u)
      after r ctx' u same k =
          rw same (restart-Kept ctx r s u (k.kept_handles ∙ h) (omega (arith, k.kept_blocks, b)))
