-- ===== src/Discovery/Handle.antt =====
-- `fcd_open` and `fcd_close` leak nothing.
use libfcd.Base.{ℕ, ◌+◌, ◌≡◌, refl, true, inl, inr, Option, none, some, Option-cases, String, arith}
use libfcd.Platform.{Platform, Sys, ◌>>=◌}
use libfcd.Platform.Returns.{Returns, Returns-and_then}
use libfcd.Device.{Fcd}
use libfcd.Discovery.{fcd_close, fcd_open, sizeof_fcd}

-- A device that `fcd_open` has made: it owns its own block and its path's.
abbrev pub Owned : {p : Platform} → ℕ → Option Fcd → Sys p → Type 0
Owned n none s = s.blocks ≡ n
Owned n (some dev) s = (s.blocks ≡ n + 2) × ((path : String) × (dev.path ≡ some path))

module _ (p : Platform) where
  -- `fcd_open` always returns; it leaves no hidapi handle open, assigns nothing to `errno`, prints
  -- nothing, and it keeps two blocks, with the path set, if it returns a device, and otherwise none.
  pub fcd_open-Owned :
      (path : Option String) (s : Sys p)
      → Returns
          (λ dev s'.
            Owned s.blocks dev s'
            × (s'.handles ≡ s.handles)
            × (s'.errno ≡ s.errno)
            × (s'.printed ≡ s.printed))
          (fcd_open p path s)
  unfolding fcd_open
  fcd_open-Owned none s = ground arith
  fcd_open-Owned (some path) s = ground arith

  -- `fcd_close` gives back what `fcd_open` has kept: after the pair, as many blocks are allocated
  -- and as many hidapi handles are open as before, whether or not the device could be opened. Neither
  -- assigns anything to `errno` or prints anything.
  pub fcd_close-fcd_open :
      (path : Option String) (s : Sys p)
      → Returns
          (λ _ s'.
            (s'.blocks ≡ s.blocks)
            × (s'.handles ≡ s.handles)
            × (s'.errno ≡ s.errno)
            × (s'.printed ≡ s.printed))
          ((fcd_open p path >>= fcd_close p) s)
  unfolding fcd_close
  fcd_close-fcd_open path s =
      Returns-and_then _ _ (fcd_open p path s) (fcd_close p) (fcd_open-Owned path s) closed
    where
      closed :
          (dev : Option Fcd) (s' : Sys p)
          → Owned s.blocks dev s'
            × (s'.handles ≡ s.handles)
            × (s'.errno ≡ s.errno)
            × (s'.printed ≡ s.printed)
          → Returns
              (λ _ s'.
                (s'.blocks ≡ s.blocks)
                × (s'.handles ≡ s.handles)
                × (s'.errno ≡ s.errno)
                × (s'.printed ≡ s.printed))
              (fcd_close p dev s')
      closed none s' h = ground arith
      closed (some dev) s' h = ground arith

  -- Where memory and the path are there, the device is made, and the path is open no longer.
  pub fcd_open-opens :
      (path : String) (h : p.Handle) (s : Sys p)
      → let w1 = (p.malloc sizeof_fcd s.world).1 in
        let w2 = (p.hid_open_path (some path) w1).1 in
        (p.malloc sizeof_fcd s.world).0 ≡ true
        → (p.hid_open_path (some path) w1).0 ≡ some h
        → (p.strdup path w2).0 ≡ true
        → Returns
            (λ dev s'.
              (dev ≡ some (record { path = some path }))
              × (s'.world ≡ p.hid_close (some h) (p.strdup path w2).1))
            (fcd_open p (some path) s)
  unfolding fcd_open
  fcd_open-opens path h s enough opened enough' = rw (enough, opened, enough') (refl, refl)

  pub fcd_close-same :
      (dev : Option Fcd) (s : Sys p)
      → Returns (λ _ s'. (s'.world ≡ s.world) × (s'.printed ≡ s.printed)) (fcd_close p dev s)
  unfolding fcd_close
  fcd_close-same none s = (refl, refl)
  fcd_close-same (some dev) s = elim (Option-cases dev.path) [
    | inl missing ↦ rw missing (refl, refl)
    | inr (path, found) ↦ rw found (refl, refl)
  ]
