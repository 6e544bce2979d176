-- ===== src/Bootloader/Write.antt =====
-- `fcd_bl_flash_write` on a dongle that answers.
use libfcd.Base.{
  ℕ, zero, suc, ◌+◌, ◌-◌, ◌*◌, ◌/◌, ◌%◌, ◌^◌, ◌≤◌, ◌<◌, ◌≡◌, ◌≢◌, refl, ap, ◌∙◌, ◌⊎◌, inl, inr,
  ◌&&◌, some, List, ℤ, pos, minus, ltb, leb, lt→ltb, le→ltb_false, if◌then◌else◌, get_or, take,
  drop, length, length-take, length-drop, get_or-drop, get_or-take, arith,
}
use libfcd.Platform.{Platform, Sys, ok}
use libfcd.Device.{Fcd}
use libfcd.Device.Transact.{ReadsCounted}
use libfcd.Bootloader.{write_loop, rounds, fcd_bl_flash_write}
use libfcd.Bootloader.Chip.{Chip, written_at}
use libfcd.Bootloader.Blocks.{write_block-Answers}
use libfcd.Bootloader.Invariant.{wraps_not}
use libfcd.Bootloader.Start.{WholeBlocks, SameFlash, prepare-go, prepare-stop}

-- A memory with the image written from `start` up to `end`.
abbrev pub holding : (ℕ → ℕ) → List ℕ → ℕ → ℕ → ℕ → ℕ
holding f image start end x = if leb start x && ltb x end then get_or image x 0 else f x

-- Writing one block of the image, and then the rest.
holding_step :
    (f g h : ℕ → ℕ) (image : List ℕ) (addr end x : ℕ)
    → addr + 48 ≤ end
    → g x ≡ written_at f addr (take 48 (drop addr image)) x
    → h x ≡ holding g image (addr + 48) end x
    → h x ≡ holding f image addr end x
holding_step f g h image addr end x room first rest = ground (
  arith,
  get_or-take 48 (drop addr image) (x - addr) 0,
  get_or-drop addr image (x - addr) 0,
  ap (λ k. get_or image k 0) {x = addr + (x - addr)} {y = x},
)

module _ (p : Platform) (c : ReadsCounted p) (dev : Fcd) (chip : Chip p dev.path) where
  open chip use {ready, flash, counter, first, last}

  -- The loop with `k` blocks left, at the address that the dongle's counter holds.
  write_loop-holding :
      (image : List ℕ) (k fuel addr : ℕ) (s : Sys p)
      → addr + 48 * k ≡ last
      → k < fuel
      → last ≤ length image
      → first ≤ addr
      → ready s.world
      → counter s.world ≡ addr
      → (s' : Sys p) × (write_loop p fuel (some dev) image addr last s ≡ ok (pos 0) s')
        × ready s'.world
        × ((x : ℕ) → flash s'.world x ≡ holding (flash s.world) image addr last x)
  unfolding write_loop
  write_loop-holding image k zero addr s e h inside above r at = absurd (omega arith)
  write_loop-holding image zero (suc fuel) addr s e h inside above r at =
      (s, rw (le→ltb_false addr last (omega arith)), r, λ x. ground arith)
  write_loop-holding image (suc k) (suc fuel) addr s e h inside above r at =
      let (w1, a1, r1, at1, f1) =
        chip.writes_block s.world (take 48 (drop addr image)) r
          (omega (arith, length-take 48 (drop addr image), length-drop addr image)) (omega arith)
          (omega arith) in
      let (s', runs, r', f') =
        write_loop-holding image k fuel (addr + 48) (record s { world = w1 }) (omega arith)
          (omega arith) inside (omega arith) r1 (omega arith) in
      (
        s',
        rw
            (
              lt→ltb addr last (omega arith),
              wraps_not addr last (omega arith) chip.last_lt,
              write_block-Answers p c dev (drop addr image) s w1
                  (omega (arith, length-drop addr image)) a1,
            )
            runs,
        r',
        λ x.
            holding_step (flash s.world) (flash w1) (flash s'.world) image addr last x (omega arith)
              (f1 x ∙ ap (λ a. written_at (flash s.world) a (take 48 (drop addr image)) x) at)
              (f' x),
      )

  -- If `hid_read` counts what it reads and the dongle answers as `Chip` says, and the dongle's
  -- range is a positive number of whole blocks that the image reaches to the end of, then
  -- `fcd_bl_flash_write` returns 0 and leaves the dongle's flash holding the image's bytes at the
  -- addresses of the range, and what it held before at all others.
  pub fcd_bl_flash_write-holding :
      (image : List ℕ) (size : ℕ) (s : Sys p)
      → ready s.world
      → WholeBlocks first last
      → last ≤ size
      → size ≤ length image
      → (s' : Sys p) × (fcd_bl_flash_write p (some dev) image size s ≡ ok (pos 0) s')
        × ready s'.world
        × ((x : ℕ) → flash s'.world x ≡ holding (flash s.world) image first last x)
  unfolding fcd_bl_flash_write
  fcd_bl_flash_write-holding image size s r whole fits inside =
      let (s1, goes, r1, at, f1) = prepare-go p c dev chip size s r whole fits in
      let (s2, runs, r2, f2) =
        write_loop-holding image ((last - first) / 48) (rounds first last) first s1 (omega arith)
          (omega arith) (omega arith) (omega arith) r1 at in
      (s2, rw goes runs, r2, λ x. ground (arith, f2 x, f1 x))

  -- If `hid_read` counts what it reads and the dongle answers as `Chip` says, from a 32-bit start
  -- of its range: if the range is empty or no whole number of blocks, `fcd_bl_flash_write`
  -- returns -2, and if the range is good and the size given ends before it does, -3. Either way
  -- the dongle still answers, the flash is as it was, and nothing is printed.
  pub fcd_bl_flash_write_refuses :
      (image : List ℕ) (size : ℕ) (s : Sys p)
      → ready s.world
      → first < 2 ^ 32
      → ((last ≤ first) ⊎ ((last - first) % 48 ≢ 0)) ⊎ (WholeBlocks first last × (size < last))
      → (s' : Sys p) × (code : ℤ) × (fcd_bl_flash_write p (some dev) image size s ≡ ok code s')
        × ready s'.world
        × (s'.printed ≡ s.printed)
        × (((code ≡ minus 2) × ¬ (WholeBlocks first last))
            ⊎ ((code ≡ minus 3) × WholeBlocks first last × (size < last)))
        × SameFlash p c dev chip s s'
  unfolding fcd_bl_flash_write
  fcd_bl_flash_write_refuses image size s r small (inl broken) =
      let (s1, r1, quiet, f1, bad, short) = prepare-stop p c dev chip size s r in
      (s1, minus 2, rw (bad broken small), r1, quiet, inl (refl, ground arith), f1)
  fcd_bl_flash_write_refuses image size s r small (inr cut) =
      let (s1, r1, quiet, f1, bad, short) = prepare-stop p c dev chip size s r in
      (s1, minus 3, rw (short cut.0 cut.1), r1, quiet, inr (refl, cut.0, cut.1), f1)
