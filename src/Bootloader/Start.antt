-- ===== src/Bootloader/Start.antt =====
-- The common start of the flash functions on a dongle that answers.
use libfcd.Base.{
  ℕ, ◌-◌, ◌%◌, ◌^◌, ◌≤◌, ◌<◌, ◌≡◌, ◌≢◌, refl, ◌∙◌, true, false, some, ◌⊎◌, minus, lt→ltb,
  le→ltb_false, arith,
}
use libfcd.Platform.{Platform, Sys, ok}
use libfcd.Device.{Fcd}
use libfcd.Device.Transact.{ReadsCounted}
use libfcd.Bootloader.{stop, go, bad_range, prepare}
use libfcd.Bootloader.Chip.{Chip}
use libfcd.Bootloader.Blocks.{set_address-Answers, get_range-Answers}

-- The range is not empty, and a whole number of blocks.
abbrev pub WholeBlocks : ℕ → ℕ → Type 0
WholeBlocks first last = (first < last) × ((last - first) % 48 ≡ 0)

pub bad_range-false :
    (first last : ℕ) → last < 2 ^ 32 → WholeBlocks first last → bad_range first last ≡ false
bad_range-false first last h whole = ground arith

pub bad_range-true :
    (first last : ℕ)
    → last < 2 ^ 32
    → (last ≤ first) ⊎ ((last - first) % 48 ≢ 0)
    → bad_range first last ≡ true
bad_range-true first last h broken = ground arith

module _ (p : Platform) (c : ReadsCounted p) (dev : Fcd) (chip : Chip p dev.path) where
  open chip use {ready, flash, counter, first, last}

  -- The memory of the dongle is as it was.
  abbrev pub SameFlash : Sys p → Sys p → Type 0
  SameFlash s s' = (x : ℕ) → flash s'.world x ≡ flash s.world x

  -- A good range, and an image that reaches to its end: the address is set to the start.
  pub prepare-go :
      (size : ℕ) (s : Sys p)
      → ready s.world
      → WholeBlocks first last
      → last ≤ size
      → (s' : Sys p) × (prepare p (some dev) size s ≡ ok (go first last) s')
        × ready s'.world
        × (counter s'.world ≡ first)
        × SameFlash s s'
  unfolding prepare
  prepare-go size s r whole fits =
      let (w1, a1, r1, f1) = chip.reports_range s.world r in
      let (w2, a2, r2, at, f2) = chip.sets_address w1 first r1 (omega arith) whole.0 in
      (
        record s { world = w2 },
        rw
            (
              get_range-Answers p c dev first last (p.junk 0) (p.junk 1) s w1
                  (omega (arith, chip.last_lt)) chip.last_lt a1,
              bad_range-false first last chip.last_lt whole,
              le→ltb_false size last fits,
              set_address-Answers p c dev first (record s { world = w1 }) w2
                  (omega (arith, chip.last_lt)) a2,
            )
            refl,
        r2,
        at,
        λ x. f2 x ∙ f1 x,
      )

  -- A bad range, or an image that is too short: the code of the failure.
  pub prepare-stop :
      (size : ℕ) (s : Sys p)
      → ready s.world
      → (s' : Sys p) × ready s'.world
        × (s'.printed ≡ s.printed)
        × SameFlash s s'
        × (((last ≤ first) ⊎ ((last - first) % 48 ≢ 0))
            → first < 2 ^ 32
            → prepare p (some dev) size s ≡ ok (stop (minus 2)) s')
        × (WholeBlocks first last
            → size < last
            → prepare p (some dev) size s ≡ ok (stop (minus 3)) s')
  unfolding prepare
  prepare-stop size s r =
      let (w1, a1, r1, f1) = chip.reports_range s.world r in
      (
        record s { world = w1 },
        r1,
        refl,
        f1,
        λ broken small.
            rw
              (
                get_range-Answers p c dev first last (p.junk 0) (p.junk 1) s w1 small chip.last_lt
                    a1,
                bad_range-true first last chip.last_lt broken,
              )
              refl,
        λ whole short.
            rw
              (
                get_range-Answers p c dev first last (p.junk 0) (p.junk 1) s w1
                    (omega (arith, chip.last_lt)) chip.last_lt a1,
                bad_range-false first last chip.last_lt whole,
                lt→ltb size last short,
              )
              refl,
      )
