-- ===== src/Bootloader.antt =====
-- The bootloader interface, lib/fcd_bootloader.c. Image data is a list of bytes; the pointer
-- `data+addr` is the list from `addr` on.
pub mod Blocks
pub mod Single
pub mod Invariant
pub mod Range
pub mod Commands
pub mod Chip
pub mod Start
pub mod Write
pub mod Compare
pub mod Verify
use libfcd.Base.{
  ℕ, zero, suc, ◌+◌, ◌-◌, ◌*◌, ◌/◌, ◌%◌, ◌^◌, Bool, true, false, ◌&&◌, ◌||◌, not, Option, none,
  some, List, [], ◌∷◌, ℤ, pos, minus, is_nonzero, ltb, leb, ◌==◌, if◌then◌else◌, take, drop, peek,
  length,
}
use libfcd.Word.{u32, convert_le_u32, store_u32, load_u32}
use libfcd.Platform.{Platform, Cmd, pure, ◌>>=◌, ◌>>◌, or_fault, out_of_fuel, uninit}
use libfcd.Command.{
  cmd_erase_application, cmd_set_byte_addr, cmd_get_byte_addr_range, cmd_read_block,
  cmd_write_block,
}
use libfcd.Device.{Fcd, Buf, bytes_of, result_only, fcd_io, fcd_get, fcd_set}
use libfcd.Application.{assign}

abbrev pub block_len : ℕ
block_len = 48

-- `memcmp(a, b, n)`, as far as the code asks: whether the bytes differ.
pub differ : List ℕ → List ℕ → Bool
differ [] [] = false
differ (a ∷ as') (b ∷ bs) = not (a == b) || differ as' bs
differ [] (b ∷ bs) = true
differ (a ∷ as') [] = true

-- The start of both flash functions: the range, the checks, and the address. The result is the
-- code to return, or the range.
pub data Ready : Type 0 where
  stop : ℤ → Ready
  go : ℕ → ℕ → Ready

-- A local variable whose address was passed.
abbrev pub value_of : Option ℕ → ℕ
value_of none = 0
value_of (some v) = v

-- `start >= end || (end - start) % 48` in `unsigned int`.
abbrev pub bad_range : ℕ → ℕ → Bool
bad_range start end = leb end start || not (u32 (end + 2 ^ 32 - start) % 48 == 0)

-- One round for each block, and one for the test that ends the loop.
abbrev pub rounds : ℕ → ℕ → ℕ
rounds start end = (end - start) / 48 + 1

module _ (p : Platform) where
  pub fcd_bl_erase_application : Option Fcd → Cmd p ℤ
  fcd_bl_erase_application dev = result_only p (fcd_set p dev cmd_erase_application none 0)

  pub fcd_bl_set_address : Option Fcd → ℕ → Cmd p ℤ
  fcd_bl_set_address dev addr =
      let address = convert_le_u32 p.endian addr in
      result_only p (fcd_set p dev cmd_set_byte_addr (some (store_u32 p.endian address)) 4)

  pub fcd_bl_get_address_range : Option Fcd → Option ℕ → Option ℕ → Cmd p (ℤ × Option ℕ × Option ℕ)
  fcd_bl_get_address_range dev start end = do
    (result, range) ← fcd_get p dev cmd_get_byte_addr_range (some (uninit p 8)) 8
    if is_nonzero result then pure (result, start, end) else (do
      let first = convert_le_u32 p.endian (load_u32 p.endian (take 4 (bytes_of range)))
      let last = convert_le_u32 p.endian (load_u32 p.endian (drop 4 (bytes_of range)))
      pure (pos 0, assign start first, assign end last))

  pub fcd_bl_read_block : Option Fcd → Buf → Cmd p (ℤ × Buf)
  fcd_bl_read_block dev block = fcd_get p dev cmd_read_block block 48

  pub fcd_bl_write_block : Option Fcd → Buf → Cmd p ℤ
  fcd_bl_write_block dev block = result_only p (fcd_io p dev cmd_write_block 1 block 48 none 0)

  pub prepare : Option Fcd → ℕ → Cmd p Ready
  prepare dev size = do
    (result, first, last) ← fcd_bl_get_address_range dev (some (p.junk 0)) (some (p.junk 1))
    let start = value_of first
    let end = value_of last
    if is_nonzero result
        then pure (Ready.stop (minus 1))
        else if bad_range start end
        then pure (Ready.stop (minus 2))
        else if ltb size end
        then pure (Ready.stop (minus 3))
        else (do
          failed ← fcd_bl_set_address dev start
          if is_nonzero failed then pure (Ready.stop (minus 4)) else pure (Ready.go start end))

  -- `for (addr = start; addr < end; addr += 48)`, with `addr` an `unsigned int`.
  pub write_loop : ℕ → Option Fcd → List ℕ → ℕ → ℕ → Cmd p ℤ
  write_loop zero dev image addr end = λ _. out_of_fuel
  write_loop (suc fuel) dev image addr end =
      let next = write_loop fuel dev image (u32 (addr + 48)) end in
      if ltb addr end
      then (do
        failed ← fcd_bl_write_block dev (some (drop addr image))
        if is_nonzero failed then pure (minus 5) else next)
      else pure (pos 0)

  pub verify_loop : ℕ → Option Fcd → List ℕ → ℕ → ℕ → Cmd p ℤ
  verify_loop zero dev image addr end = λ _. out_of_fuel
  verify_loop (suc fuel) dev image addr end =
      let next = verify_loop fuel dev image (u32 (addr + 48)) end in
      if ltb addr end
      then (do
        (failed, buffer) ← fcd_bl_read_block dev (some (uninit p 48))
        if is_nonzero failed then pure (minus 6) else (do
          block ← or_fault (peek image addr 48)
          if differ (bytes_of buffer) block then pure (pos 1) else next))
      else pure (pos 0)

  -- What follows the common start.
  abbrev pub write_ready : Option Fcd → List ℕ → Ready → Cmd p ℤ
  write_ready dev image (Ready.stop code) = pure code
  write_ready dev image (Ready.go start end) = write_loop (rounds start end) dev image start end

  abbrev pub verify_ready : Option Fcd → List ℕ → Ready → Cmd p ℤ
  verify_ready dev image (Ready.stop code) = pure code
  verify_ready dev image (Ready.go start end) = verify_loop (rounds start end) dev image start end

  pub fcd_bl_flash_write : Option Fcd → List ℕ → ℕ → Cmd p ℤ
  fcd_bl_flash_write dev image size = prepare dev size >>= write_ready dev image

  pub fcd_bl_flash_verify : Option Fcd → List ℕ → ℕ → Cmd p ℤ
  fcd_bl_flash_verify dev image size = prepare dev size >>= verify_ready dev image
