-- ===== src/DebugTool.antt =====
-- The diagnostic utility, src/main.c.
pub mod Safety
pub mod Session
pub mod Output
use libfcd.Base.{
  ℕ, zero, suc, ◌+◌, ◌/◌, ◌%◌, bit_and, Bool, Option, none, some, List, [], ◌∷◌, String, ◌<>◌, ℤ,
  pos, minus, is_nonzero, ◌==◌, if◌then◌else◌, get_or,
}
use libfcd.Platform.{Platform, Cmd, pure, ◌>>=◌, ◌>>◌, skip, or_fault, print, Printed, uninit}
use libfcd.Device.{Fcd, Buf, bytes_of}
use libfcd.Discovery.{fcd_open, fcd_close, fcd_query, fcd_for_each}
use libfcd.Bootloader.{fcd_bl_get_address_range, fcd_bl_set_address, fcd_bl_read_block, value_of}

abbrev pub hex_digit : ℕ → String
hex_digit n =
    get_or
      ("0" ∷ "1" ∷ "2" ∷ "3" ∷ "4" ∷ "5" ∷ "6" ∷ "7" ∷ "8" ∷ "9" ∷ "a" ∷ "b" ∷ "c" ∷ "d" ∷ "e" ∷ "f"
        ∷ [])
      n ""

-- `%02x` and `%08x` of a number that fits the width.
pub hex : ℕ → ℕ → String
hex zero n = ""
hex (suc width) n = hex width (n / 16) <> hex_digit (n % 16)

-- `%s`: the bytes before the first zero, which has to be there.
abbrev pub c_string : List ℕ → Option (List ℕ)
c_string [] = none
c_string (zero ∷ bs) = some []
c_string (suc b ∷ bs) = elim (c_string bs) [ none ↦ none | some text ↦ some (suc b ∷ text) ]

module _ (p : Platform) where
  -- The loop over the block, from an index on.
  pub dump : ℕ → List ℕ → Cmd p (Unit {0})
  dump index [] = skip
  dump index (b ∷ block) = do
    let delim : String = if bit_and index 15 == 15 then "\n" else " "
    print (Printed.out (hex 2 b <> delim))
    dump (index + 1) block

  -- The block at the start of the range, if it can be read.
  abbrev pub show_read : ℤ × Buf → Cmd p (Unit {0})
  show_read (unread, block) = if is_nonzero unread then skip else dump 0 (bytes_of block)

  pub show_block : Fcd → ℕ → Cmd p (Unit {0})
  show_block fcd start = do
    fcd_bl_set_address p (some fcd) start
    outcome ← fcd_bl_read_block p (some fcd) (some (uninit p 48))
    show_read outcome

  -- The range, and the first block.
  pub show_flash : Fcd → Cmd p (Unit {0})
  show_flash fcd = do
    (failed, start, end) ← fcd_bl_get_address_range p (some fcd) (some (p.junk 0)) (some (p.junk 1))
    if is_nonzero failed then skip else (do
      print (
          Printed.out
            ("\tRange: 0x" <> hex 8 (value_of start) <> " - 0x" <> hex 8 (value_of end) <> "\n"))
      show_block fcd (value_of start))

  -- The text of a device that has answered the query.
  abbrev pub show_query : String → Fcd → Bool × Buf → Cmd p ℤ
  show_query path fcd (found, query) =
      if found
      then (do
        text ← or_fault (c_string (bytes_of query))
        print (Printed.out ("[" <> path <> "]\t"))
        print (Printed.out_bytes text)
        print (Printed.out "\n")
        show_flash fcd
        pure (pos 0))
      else (do print (Printed.err ("Query failed for [" <> path <> "]\n")); pure (minus 1))

  -- With the device open.
  pub diagnose : String → Fcd → Cmd p ℤ
  diagnose path fcd = fcd_query p (some fcd) (some (uninit p 64)) (pos 64) >>= show_query path fcd

  -- The result with the device, or with NULL.
  abbrev pub debug_opened : String → Option Fcd → Cmd p ℤ
  debug_opened path none = do
    print (Printed.err ("Could not open [" <> path <> "]\n"))
    pure (minus 1)
  debug_opened path (some fcd) = do result ← diagnose path fcd; fcd_close p (some fcd); pure result

  pub funcube_debug : String → Unit {0} → Cmd p (ℤ × Unit {0})
  funcube_debug path context = do
    fcd ← fcd_open p (some path)
    result ← debug_opened path fcd
    pure (result, context)

  -- The exit status.
  pub debug_main : Cmd p ℕ
  debug_main = do
    (failed, context) ← fcd_for_each p funcube_debug tt
    pure (if is_nonzero failed then 1 else 0)
