-- ===== src/Bootloader/Chip.antt =====
-- What the flash functions rely on of a dongle in bootloader mode, as lib/fcd_cmd.h describes its
-- commands: an address counter that each block command moves on, and a flash memory behind it.
use libfcd.Base.{
  ℕ, zero, suc, ◌+◌, ◌-◌, ◌^◌, ◌≤◌, ◌<◌, ◌≡◌, ◌&&◌, Option, List, [], ◌∷◌, ◌++◌, String, ltb, leb,
  if◌then◌else◌, get_or, length,
}
use libfcd.Word.Wire.{le32}
use libfcd.Platform.{Platform}
use libfcd.Command.{cmd_set_byte_addr, cmd_get_byte_addr_range, cmd_read_block, cmd_write_block}
use libfcd.Device.Answers.{Answers}
use libfcd.Device.Transact.{request}

-- The `n` bytes of a memory from an address on.
abbrev pub cells : (ℕ → ℕ) → ℕ → ℕ → List ℕ
cells f a zero = []
cells f a (suc n) = f a ∷ cells f (a + 1) n

-- A memory with a block written at an address.
abbrev pub written_at : (ℕ → ℕ) → ℕ → List ℕ → ℕ → ℕ
written_at f a block x = if leb a x && ltb x (a + 48) then get_or block (x - a) 0 else f x

-- A dongle in bootloader mode, behind a path. `ready` holds of the worlds in which it is there;
-- `flash` is its memory, `counter` the address that the next block command acts on, and
-- `first` to `last` the range that it reports.
pub record Chip (p : Platform) (path : Option String) : Type 1 where
  pub ready : p.World → Type 0
  pub flash : p.World → ℕ → ℕ
  pub counter : p.World → ℕ
  pub first : ℕ
  pub last : ℕ
  pub last_lt : last < 2 ^ 32
  pub reports_range :
      (w : p.World)
      → ready w
      → (w' : p.World) × Answers p path w
          (request cmd_get_byte_addr_range 0 [])
          8
          (cmd_get_byte_addr_range ∷ 1 ∷ (le32 first ++ le32 last))
          w'
        × ready w'
        × ((x : ℕ) → flash w' x ≡ flash w x)
  pub sets_address :
      (w : p.World) (a : ℕ)
      → ready w
      → first ≤ a
      → a < last
      → (w' : p.World) × Answers p path w
          (request cmd_set_byte_addr 0 (le32 a))
          0
          (cmd_set_byte_addr ∷ 1 ∷ [])
          w'
        × ready w'
        × (counter w' ≡ a)
        × ((x : ℕ) → flash w' x ≡ flash w x)
  pub writes_block :
      (w : p.World) (block : List ℕ)
      → ready w
      → length block ≡ 48
      → first ≤ counter w
      → counter w + 48 ≤ last
      → (w' : p.World) × Answers p path w
          (request cmd_write_block 1 block)
          0
          (cmd_write_block ∷ 1 ∷ [])
          w'
        × ready w'
        × (counter w' ≡ counter w + 48)
        × ((x : ℕ) → flash w' x ≡ written_at (flash w) (counter w) block x)
  pub reads_block :
      (w : p.World)
      → ready w
      → first ≤ counter w
      → counter w + 48 ≤ last
      → (w' : p.World) × Answers p path w
          (request cmd_read_block 0 [])
          48
          (cmd_read_block ∷ 1 ∷ cells (flash w) (counter w) 48)
          w'
        × ready w'
        × (counter w' ≡ counter w + 48)
        × ((x : ℕ) → flash w' x ≡ flash w x)
