-- ===== src/Bootloader/Single.antt =====
-- Each single call of the bootloader interface returns, and leaves nothing open.
use libfcd.Base.{
  ℕ, ◌≤◌, refl, inl, inr, Option, none, some, List, is_nonzero, length, Bool-cases, arith,
}
use libfcd.Word.{store_u32, convert_le_u32}
use libfcd.Word.Wire.{length-store_u32}
use libfcd.Platform.{Platform, Sys, uninit}
use libfcd.Platform.Returns.{Returns, Returns-and_then}
use libfcd.Device.{Fcd, fcd_io}
use libfcd.Device.Transact.{ReadsCounted}
use libfcd.Device.Outcome.{Balanced, Ended, fcd_io-Ended}
use libfcd.Device.GetSet.{Settled, result_only-Settled, fcd_set-Settled, fcd_get-Ended}
use libfcd.Command.{cmd_erase_application}
use libfcd.Bootloader.{
  fcd_bl_erase_application, fcd_bl_set_address, fcd_bl_get_address_range, fcd_bl_read_block,
  fcd_bl_write_block,
}

module _ (p : Platform) (c : ReadsCounted p) (dev : Fcd) where
  pub set_address-Settled :
      (addr : ℕ) (s : Sys p) → Returns (Settled s) (fcd_bl_set_address p (some dev) addr s)
  unfolding fcd_bl_set_address
  set_address-Settled addr s =
      fcd_set-Settled p c dev 25 (some (store_u32 p.endian (convert_le_u32 p.endian addr))) 4 s
        (omega (arith, length-store_u32 p.endian (convert_le_u32 p.endian addr)))

  pub write_block-Settled :
      (bs : List ℕ) (s : Sys p)
      → 48 ≤ length bs
      → Returns (Settled s) (fcd_bl_write_block p (some dev) (some bs) s)
  unfolding fcd_bl_write_block
  write_block-Settled bs s h =
      result_only-Settled p (fcd_io p (some dev) 27 1 (some bs) 48 none 0) none s
        (fcd_io-Ended p c dev 27 1 (some bs) 48 none 0 s (omega arith) h refl)

  pub read_block-Ended :
      (room : List ℕ) (s : Sys p)
      → 48 ≤ length room
      → Returns (Ended s (some room)) (fcd_bl_read_block p (some dev) (some room) s)
  unfolding fcd_bl_read_block
  read_block-Ended room s h = fcd_get-Ended p c dev 28 (some room) 48 s h

  pub get_address_range-Balanced :
      (start end : Option ℕ) (s : Sys p)
      → Returns
          (λ (result, first, last) s'. Balanced s s')
          (fcd_bl_get_address_range p (some dev) start end s)
  unfolding fcd_bl_get_address_range
  get_address_range-Balanced start end s =
      Returns-and_then (Ended s (some (uninit p 8))) _ _ _
        (fcd_get-Ended p c dev 26 (some (uninit p 8)) 8 s (omega arith))
        (λ (r, range) s' e. elim (Bool-cases (is_nonzero r)) [
          | inl failed ↦ rw failed e.0
          | inr good ↦ rw good e.0
        ])

  pub erase_application-Settled :
      (s : Sys p) → Returns (Settled s) (fcd_bl_erase_application p (some dev) s)
  unfolding fcd_bl_erase_application
  erase_application-Settled s = fcd_set-Settled p c dev cmd_erase_application none 0 s refl
