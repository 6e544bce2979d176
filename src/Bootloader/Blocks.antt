-- ===== src/Bootloader/Blocks.antt =====
-- The bootloader operations on a dongle that answers.
use libfcd.Base.{
  ℕ, zero, suc, ◌+◌, ◌^◌, ◌≤◌, ◌<◌, ◌≡◌, refl, ap, ◌∙◌, none, some, List, [], ◌∷◌, ◌++◌, pos, take,
  length, arith,
}
use libfcd.Word.Wire.{le32, store-convert_u32}
use libfcd.Platform.{Platform, Sys, ok, uninit}
use libfcd.Device.{Fcd, result_only}
use libfcd.Device.Transact.{ReadsCounted, request, transact}
use libfcd.Device.Io.{fcd_io-transact}
use libfcd.Device.GetSet.{fcd_set-transact, fcd_set-transact_nothing, fcd_get-transact}
use libfcd.Application.Frequency.{convert-le32}
use libfcd.Command.{
  cmd_erase_application, cmd_set_byte_addr, cmd_get_byte_addr_range, cmd_read_block,
  cmd_write_block,
}
use libfcd.Bootloader.{
  fcd_bl_erase_application, fcd_bl_set_address, fcd_bl_get_address_range, fcd_bl_read_block,
  fcd_bl_write_block,
}
use libfcd.Device.Answers.{Answers, transact-Answers}
use libfcd.Bootloader.Chip.{cells}

length-cells : (f : ℕ → ℕ) (a n : ℕ) → length (cells f a n) ≡ n
length-cells f a zero = refl
length-cells f a (suc n) = ap suc (length-cells f (a + 1) n)

module _ (p : Platform) (c : ReadsCounted p) (dev : Fcd) where
  -- `fcd_bl_set_address` sends the address as four bytes, low byte first, on either kind of host.
  pub fcd_bl_set_address-wire :
      (addr : ℕ) (s : Sys p)
      → addr < 2 ^ 32
      → fcd_bl_set_address p (some dev) addr s
        ≡ result_only p (transact p dev.path cmd_set_byte_addr 0 (le32 addr) none 0) s
  unfolding fcd_bl_set_address
  fcd_bl_set_address-wire addr s h =
      rw
        (
          store-convert_u32 p.endian addr h,
          fcd_set-transact p c dev cmd_set_byte_addr (le32 addr) 4 s refl (omega arith),
        )
        refl

  -- `fcd_bl_write_block` sends 48 bytes behind one byte of padding.
  pub fcd_bl_write_block-wire :
      (bs : List ℕ) (s : Sys p)
      → 48 ≤ length bs
      → fcd_bl_write_block p (some dev) (some bs) s
        ≡ result_only p (transact p dev.path cmd_write_block 1 (take 48 bs) none 0) s
  unfolding fcd_bl_write_block
  fcd_bl_write_block-wire bs s h =
      rw (fcd_io-transact p c dev cmd_write_block 1 (some bs) 48 none 0 s (omega arith) h refl) refl

  -- If `hid_read` counts what it reads, and the device answers with two 32-bit addresses, each
  -- low byte first, then `fcd_bl_get_address_range` with two pointers that are not NULL stores
  -- these and returns 0.
  pub fcd_bl_get_address_range_decodes :
      (first last x y : ℕ) (s s' : Sys p)
      → first < 2 ^ 32
      → last < 2 ^ 32
      → transact p dev.path cmd_get_byte_addr_range 0 [] (some (uninit p 8)) 8 s
        ≡ ok (pos 0, some (le32 first ++ le32 last)) s'
      → fcd_bl_get_address_range p (some dev) (some x) (some y) s
        ≡ ok (pos 0, some first, some last) s'
  unfolding fcd_bl_get_address_range
  fcd_bl_get_address_range_decodes first last x y s s' h k answer =
      rw
        (
          fcd_get-transact p c dev cmd_get_byte_addr_range (uninit p 8) 8 s (omega arith)
              (omega arith),
          answer,
          convert-le32 p.endian first h,
          convert-le32 p.endian last k,
        )
        refl

  pub set_address-Answers :
      (addr : ℕ) (s : Sys p) (w' : p.World)
      → addr < 2 ^ 32
      → Answers p dev.path s.world
          (request cmd_set_byte_addr 0 (le32 addr))
          0
          (cmd_set_byte_addr ∷ 1 ∷ [])
          w'
      → fcd_bl_set_address p (some dev) addr s ≡ ok (pos 0) (record s { world = w' })
  set_address-Answers addr s w' h a =
      fcd_bl_set_address-wire addr s h
      ∙ rw (transact-Answers p dev.path cmd_set_byte_addr 0 (le32 addr) none 0 s [] w' a) refl

  pub write_block-Answers :
      (bs : List ℕ) (s : Sys p) (w' : p.World)
      → 48 ≤ length bs
      → Answers p dev.path s.world
          (request cmd_write_block 1 (take 48 bs))
          0
          (cmd_write_block ∷ 1 ∷ [])
          w'
      → fcd_bl_write_block p (some dev) (some bs) s ≡ ok (pos 0) (record s { world = w' })
  write_block-Answers bs s w' h a =
      fcd_bl_write_block-wire bs s h
      ∙ rw (transact-Answers p dev.path cmd_write_block 1 (take 48 bs) none 0 s [] w' a) refl

  pub read_block-Answers :
      (f : ℕ → ℕ) (addr : ℕ) (s : Sys p) (w' : p.World)
      → Answers p dev.path s.world
          (request cmd_read_block 0 [])
          48
          (cmd_read_block ∷ 1 ∷ cells f addr 48)
          w'
      → fcd_bl_read_block p (some dev) (some (uninit p 48)) s
        ≡ ok (pos 0, some (cells f addr 48)) (record s { world = w' })
  unfolding fcd_bl_read_block
  read_block-Answers f addr s w' a =
      fcd_get-transact p c dev cmd_read_block (uninit p 48) 48 s (omega arith) (omega arith)
      ∙ transact-Answers p dev.path cmd_read_block 0 [] (some (uninit p 48)) 48 s (cells f addr 48)
          w' a

  pub get_range-Answers :
      (first last x y : ℕ) (s : Sys p) (w' : p.World)
      → first < 2 ^ 32
      → last < 2 ^ 32
      → Answers p dev.path s.world
          (request cmd_get_byte_addr_range 0 [])
          8
          (cmd_get_byte_addr_range ∷ 1 ∷ (le32 first ++ le32 last))
          w'
      → fcd_bl_get_address_range p (some dev) (some x) (some y) s
        ≡ ok (pos 0, some first, some last) (record s { world = w' })
  get_range-Answers first last x y s w' h k a =
      fcd_bl_get_address_range_decodes first last x y s (record s { world = w' }) h k
        (transact-Answers p dev.path cmd_get_byte_addr_range 0 [] (some (uninit p 8)) 8 s
          (le32 first ++ le32 last) w' a)

  pub erase_application-Answers :
      (s : Sys p) (w' : p.World)
      → Answers p dev.path s.world
          (request cmd_erase_application 0 [])
          0
          (cmd_erase_application ∷ 1 ∷ [])
          w'
      → fcd_bl_erase_application p (some dev) s ≡ ok (pos 0) (record s { world = w' })
  unfolding fcd_bl_erase_application
  erase_application-Answers s w' a =
      rw
        (
          fcd_set-transact_nothing p c dev cmd_erase_application s,
          transact-Answers p dev.path cmd_erase_application 0 [] none 0 s [] w' a,
        )
        refl
