-- ===== src/Bootloader/Verify.antt =====
-- `fcd_bl_flash_verify` on a dongle that answers.
use libfcd.Base.{
  ℕ, zero, suc, ◌+◌, ◌-◌, ◌*◌, ◌/◌, ◌≤◌, ◌<◌, ◌≡◌, refl, sym, ap, ◌∙◌, ◌⊎◌, inl, inr, some, List, ℤ,
  pos, lt→ltb, le→ltb_false, take, drop, length, arith, Bool-cases,
}
use libfcd.Platform.{Platform, Sys, ok, ◌>>=◌}
use libfcd.Device.{Fcd}
use libfcd.Device.Transact.{ReadsCounted}
use libfcd.Bootloader.{differ, verify_loop, rounds, fcd_bl_flash_write, fcd_bl_flash_verify}
use libfcd.Bootloader.Chip.{Chip, cells}
use libfcd.Bootloader.Blocks.{read_block-Answers}
use libfcd.Bootloader.Invariant.{wraps_not, peek_inside}
use libfcd.Bootloader.Start.{WholeBlocks, SameFlash, prepare-go}
use libfcd.Bootloader.Compare.{Matches, block-Matches, block_differs, Matches-split}
use libfcd.Bootloader.Write.{fcd_bl_flash_write-holding}

module _ (p : Platform) (c : ReadsCounted p) (dev : Fcd) (chip : Chip p dev.path) where
  open chip use {ready, flash, counter, first, last}

  abbrev Verdict : ℤ → (ℕ → ℕ) → List ℕ → ℕ → Type 0
  Verdict code f image addr =
      ((code ≡ pos 0) × Matches f image addr last)
      ⊎ ((code ≡ pos 1) × ¬ (Matches f image addr last))

  verify_loop-Verdict :
      (image : List ℕ) (k fuel addr : ℕ) (s : Sys p)
      → addr + 48 * k ≡ last
      → k < fuel
      → last ≤ length image
      → first ≤ addr
      → ready s.world
      → counter s.world ≡ addr
      → (s' : Sys p) × (code : ℤ) × (verify_loop p fuel (some dev) image addr last s ≡ ok code s')
        × ready s'.world
        × SameFlash p c dev chip s s'
        × Verdict code (flash s.world) image addr
  unfolding verify_loop
  verify_loop-Verdict image k zero addr s e h inside above r set = absurd (omega arith)
  verify_loop-Verdict image zero (suc fuel) addr s e h inside above r set = (
    s,
    pos 0,
    rw (le→ltb_false addr last (omega arith)),
    r,
    λ x. refl,
    inl (refl, λ x lo hi. absurd (omega arith)),
  )
  verify_loop-Verdict image (suc k) (suc fuel) addr s e h inside above r set =
      let (w1, a1, r1, at1, f1) = chip.reads_block s.world r (omega arith) (omega arith) in
      let read = read_block-Answers p c dev (flash s.world) addr s w1 (rw set at a1) in
      let block = take 48 (drop addr image) in
      elim (Bool-cases (differ (cells (flash s.world) addr 48) block)) [
        | inl other ↦ (
          record s { world = w1 },
          pos 1,
          rw (
            lt→ltb addr last (omega arith),
            wraps_not addr last (omega arith) chip.last_lt,
            read,
            peek_inside image addr (omega arith),
            other,
          ),
          r1,
          f1,
          inr (
            refl,
            block_differs (flash s.world) image addr last (omega arith) (omega arith) other,
          ),
        )
        | inr same ↦
            let (s', code, runs, r', f', verdict) =
              verify_loop-Verdict image k fuel (addr + 48) (record s { world = w1 }) (omega arith)
                (omega arith) inside (omega arith) r1 (omega arith) in
            let split =
              Matches-split (flash s.world) (flash w1) image addr last f1 (omega arith)
                (block-Matches (flash s.world) image addr (omega arith) same) in
            (
              s',
              code,
              rw
                  (
                    lt→ltb addr last (omega arith),
                    wraps_not addr last (omega arith) chip.last_lt,
                    read,
                    peek_inside image addr (omega arith),
                    same,
                  )
                  runs,
              r',
              λ x. f' x ∙ f1 x,
              elim verdict [
                | inl good ↦ inl (good.0, split.0 good.1)
                | inr bad ↦ inr (bad.0, λ all. bad.1 (split.1 all))
              ],
            )
      ]

  -- If `hid_read` counts what it reads and the dongle answers as `Chip` says, and the dongle's
  -- range is a positive number of whole blocks that the image reaches to the end of, then
  -- `fcd_bl_flash_verify` returns 0 where the flash holds the image's bytes at all addresses of
  -- the range, and 1 where it does not, and the flash is as it was.
  pub fcd_bl_flash_verify-Matches :
      (image : List ℕ) (size : ℕ) (s : Sys p)
      → ready s.world
      → WholeBlocks first last
      → last ≤ size
      → size ≤ length image
      → (s' : Sys p) × (code : ℤ) × (fcd_bl_flash_verify p (some dev) image size s ≡ ok code s')
        × ready s'.world
        × SameFlash p c dev chip s s'
        × (((code ≡ pos 0) × Matches (flash s.world) image first last)
            ⊎ ((code ≡ pos 1) × ¬ (Matches (flash s.world) image first last)))
  unfolding fcd_bl_flash_verify
  fcd_bl_flash_verify-Matches image size s r whole fits inside =
      let (s1, goes, r1, at1, f1) = prepare-go p c dev chip size s r whole fits in
      let (s2, code, runs, r2, f2, verdict) =
        verify_loop-Verdict image ((last - first) / 48) (rounds first last) first s1 (omega arith)
          (omega arith) (omega arith) (omega arith) r1 at1 in
      (
        s2,
        code,
        rw goes runs,
        r2,
        λ x. f2 x ∙ f1 x,
        elim verdict [
          | inl good ↦ inl (good.0, λ x lo hi. sym (f1 x) ∙ good.1 x lo hi)
          | inr bad ↦ inr (bad.0, λ all. bad.1 (λ x lo hi. f1 x ∙ all x lo hi))
        ],
      )

  -- If `hid_read` counts what it reads and the dongle answers as `Chip` says, and the dongle's
  -- range is a positive number of whole blocks that the image reaches to the end of, then
  -- `fcd_bl_flash_write` followed by `fcd_bl_flash_verify` of the same image returns 0, and the
  -- flash holds the image's bytes at all addresses of the range.
  pub fcd_bl_flash_verify-fcd_bl_flash_write :
      (image : List ℕ) (size : ℕ) (s : Sys p)
      → ready s.world
      → WholeBlocks first last
      → last ≤ size
      → size ≤ length image
      → (s' : Sys p) × ((fcd_bl_flash_write p (some dev) image size >>= λ written.
              fcd_bl_flash_verify p (some dev) image size)
            s
          ≡ ok (pos 0) s')
        × Matches (flash s'.world) image first last
  fcd_bl_flash_verify-fcd_bl_flash_write image size s r whole fits inside =
      let (s1, writes, r1, f1) =
        fcd_bl_flash_write-holding p c dev chip image size s r whole fits inside in
      let (s2, code, verifies, r2, f2, verdict) =
        fcd_bl_flash_verify-Matches image size s1 r1 whole fits inside in
      let held : Matches (flash s1.world) image first last = λ x lo hi. ground (arith, f1 x) in
      elim verdict [
        | inl good ↦
            (s2, rw writes (verifies ∙ ap (λ k. ok k s2) good.0), λ x lo hi. f2 x ∙ held x lo hi)
        | inr bad ↦ absurd (bad.1 held)
      ]
