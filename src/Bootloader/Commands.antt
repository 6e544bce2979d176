-- ===== src/Bootloader/Commands.antt =====
-- Which commands the flash functions send, whatever the device answers.
use libfcd.Base.{
  ℕ, ◌^◌, ◌≤◌, ◌<◌, ◌≡◌, refl, ◌⊎◌, inl, inr, Option, none, some, List, String, is_nonzero, length,
  Bool-cases, arith,
}
use libfcd.Word.{store_u32, convert_le_u32}
use libfcd.Word.Wire.{length-store_u32}
use libfcd.Platform.{Platform, Sys, uninit}
use libfcd.Platform.Returns.{Returns, Returns-mono, Returns-and_then}
use libfcd.Command.{cmd_set_byte_addr, cmd_get_byte_addr_range, cmd_read_block, cmd_write_block}
use libfcd.Device.{Fcd, fcd_io}
use libfcd.Device.Transact.{ReadsCounted}
use libfcd.Device.Session.{
  Session, Phase, Over, fcd_io-Over, result_only-Over, fcd_get-Over, fcd_set-Over,
}
use libfcd.Bootloader.{
  fcd_bl_set_address, fcd_bl_get_address_range, fcd_bl_read_block, fcd_bl_write_block,
  fcd_bl_flash_write, fcd_bl_flash_verify,
}
use libfcd.Bootloader.Invariant.{
  Starts, Reads, Writes, fcd_bl_flash_write-Inv, fcd_bl_flash_verify-Inv,
}

-- The commands that only look, and those that fill the flash.
abbrev pub Looks : ℕ → Type 0
Looks cmd = (cmd ≡ cmd_get_byte_addr_range) ⊎ (cmd ≡ cmd_set_byte_addr) ⊎ (cmd ≡ cmd_read_block)

abbrev pub Fills : ℕ → Type 0
Fills cmd = (cmd ≡ cmd_get_byte_addr_range) ⊎ (cmd ≡ cmd_set_byte_addr) ⊎ (cmd ≡ cmd_write_block)

module _ (p : Platform) (c : ReadsCounted p) (path : Option String) where
  abbrev dev : Fcd
  dev = record { path = path }

  module _ (Permits : ℕ → Type 0) (w0 : p.World) where
    pub get_address_range-Over :
        (start end : Option ℕ) (s : Sys p)
        → Permits cmd_get_byte_addr_range
        → Over p path Permits w0 s
        → Returns
            (λ _ t. Over p path Permits w0 t)
            (fcd_bl_get_address_range p (some dev) start end s)
    unfolding fcd_bl_get_address_range
    get_address_range-Over start end s permit over =
        Returns-and_then (λ _ t. Over p path Permits w0 t) _ _ _
          (fcd_get-Over p path Permits w0 c 26 (some (uninit p 8)) 8 s permit (omega arith) over)
          (λ (r, range) t after. elim (Bool-cases (is_nonzero r)) [
            | inl failed ↦ rw failed after
            | inr good ↦ rw good after
          ])

    pub set_address-Over :
        (addr : ℕ) (s : Sys p)
        → Permits cmd_set_byte_addr
        → Over p path Permits w0 s
        → Returns (λ _ t. Over p path Permits w0 t) (fcd_bl_set_address p (some dev) addr s)
    unfolding fcd_bl_set_address
    set_address-Over addr s permit over =
        fcd_set-Over p path Permits w0 c 25
          (some (store_u32 p.endian (convert_le_u32 p.endian addr))) 4 s permit
          (omega (arith, length-store_u32 p.endian (convert_le_u32 p.endian addr))) over

    pub read_block-Over : Permits cmd_read_block → Reads p dev (Over p path Permits w0)
    unfolding fcd_bl_read_block
    read_block-Over permit room s fits over =
        fcd_get-Over p path Permits w0 c 28 (some room) 48 s permit fits over

    write_block-Over : Permits cmd_write_block → Writes p dev (Over p path Permits w0)
    unfolding fcd_bl_write_block
    write_block-Over permit bs s fits over =
        result_only-Over p path Permits w0 (fcd_io p (some dev) 27 1 (some bs) 48 none 0) s (
          fcd_io-Over p path Permits w0 c 27 1 (some bs) 48 none 0 s permit (omega arith) fits refl
            over)

    Over-Starts :
        Permits cmd_get_byte_addr_range
        → Permits cmd_set_byte_addr
        → Starts p dev (Over p path Permits w0)
    Over-Starts ranges addresses = record {
      ranges = λ start end s over. get_address_range-Over start end s ranges over;
      addresses = λ addr s over. set_address-Over addr s addresses over;
    }

  -- If `hid_read` counts what it reads, then for an image at least as long as the size given, a
  -- 32-bit number, `fcd_bl_flash_verify` returns, and whatever the device answers, all that it
  -- has done is to try to open the path again and again, and where that succeeds, to write one
  -- request to the handle, to read at most one response, and to close the handle. Every request
  -- is for the address range, for setting the address, or for reading a block: none erases,
  -- writes or resets.
  pub fcd_bl_flash_verify-Session :
      (image : List ℕ) (size : ℕ) (s : Sys p)
      → size < 2 ^ 32
      → size ≤ length image
      → Returns
          (λ code t. Session p path Looks s.world Phase.closed t.world)
          (fcd_bl_flash_verify p (some dev) image size s)
  fcd_bl_flash_verify-Session image size s small inside =
      Returns-mono _ _ (fcd_bl_flash_verify p (some dev) image size s)
        (fcd_bl_flash_verify-Inv p dev (Over p path Looks s.world)
          (Over-Starts Looks s.world (inl refl) (inr (inl refl)))
          (read_block-Over Looks s.world (inr (inr refl))) image size s small inside Session.idle)
        (λ code t h. h.0)

  -- If `hid_read` counts what it reads, then for an image at least as long as the size given, a
  -- 32-bit number, `fcd_bl_flash_write` returns, and whatever the device answers, all that it has
  -- done is to try to open the path again and again, and where that succeeds, to write one
  -- request to the handle, to read at most one response, and to close the handle. Every request
  -- is for the address range, for setting the address, or for writing a block: none erases or
  -- resets.
  pub fcd_bl_flash_write-Session :
      (image : List ℕ) (size : ℕ) (s : Sys p)
      → size < 2 ^ 32
      → size ≤ length image
      → Returns
          (λ code t. Session p path Fills s.world Phase.closed t.world)
          (fcd_bl_flash_write p (some dev) image size s)
  fcd_bl_flash_write-Session image size s small inside =
      Returns-mono _ _ (fcd_bl_flash_write p (some dev) image size s)
        (fcd_bl_flash_write-Inv p dev (Over p path Fills s.world)
          (Over-Starts Fills s.world (inl refl) (inr (inl refl)))
          (write_block-Over Fills s.world (inr (inr refl))) image size s small inside Session.idle)
        (λ code t h. h.0)
