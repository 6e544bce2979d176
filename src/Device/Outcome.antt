-- ===== src/Device/Outcome.antt =====
-- How `fcd_io` ends: what it returns, `errno`, and the handle that it opens.
use libfcd.Base.{ℕ, ◌≤◌, ◌≡◌, ◌∙◌, ◌⊎◌, Option, some, List, String, ℤ, pos, minus, arith}
use libfcd.Platform.{Platform, Errno, Sys}
use libfcd.Platform.Returns.{Returns}
use libfcd.Device.{Fcd, Buf, command_data_len, fcd_io}
use libfcd.Device.Transact.{Holds, ReadsCounted, transact}
use libfcd.Device.Io.{fcd_io-transact}

-- Nothing but the world and `errno` has changed.
pub record Balanced {p : Platform} (s s' : Sys p) : Type 0 where
  pub same_handles : s'.handles ≡ s.handles
  pub same_blocks : s'.blocks ≡ s.blocks
  pub same_printed : s'.printed ≡ s.printed

pub Balanced-trans : {p : Platform} {s t u : Sys p} → Balanced s t → Balanced t u → Balanced s u
Balanced-trans a b = record {
  same_handles = b.same_handles ∙ a.same_handles;
  same_blocks = b.same_blocks ∙ a.same_blocks;
  same_printed = b.same_printed ∙ a.same_printed;
}

-- Success, or -1 with ENODEV or EIO, and with the output buffer as it was.
abbrev pub Ended : {p : Platform} → Sys p → Buf → ℤ × Buf → Sys p → Type 0
Ended s odata (result, filled) s' =
    Balanced s s'
    × ((result ≡ pos 0)
        ⊎ ((result ≡ minus 1)
            × (filled ≡ odata)
            × ((s'.errno ≡ Errno.enodev) ⊎ (s'.errno ≡ Errno.eio))))

transact-Ended :
    (p : Platform) (path : Option String) (cmd iskip : ℕ) (payload : List ℕ) (odata : Buf) (n : ℕ)
    (s : Sys p)
    → Returns (Ended s odata) (transact p path cmd iskip payload odata n s)
unfolding transact
transact-Ended p path cmd iskip payload odata n s = ground arith

-- If `hid_read` counts what it reads, then with a skip of at most 63 bytes and buffers that hold
-- the lengths asked for, `fcd_io` on an open device always returns, with 0,
-- or with -1, the output buffer as it was, and ENODEV or EIO. As many handles are open and as
-- many blocks allocated as before, and nothing is printed.
pub fcd_io-Ended :
    (p : Platform)
    → ReadsCounted p
    → (dev : Fcd) (cmd iskip : ℕ) (idata : Buf) (ilen : ℕ) (odata : Buf) (olen : ℕ) (s : Sys p)
    → iskip ≤ command_data_len
    → Holds idata ilen
    → Holds odata olen
    → Returns (Ended s odata) (fcd_io p (some dev) cmd iskip idata ilen odata olen s)
fcd_io-Ended p c dev cmd iskip idata ilen odata olen s skipped supply room =
    rw (fcd_io-transact p c dev cmd iskip idata ilen odata olen s skipped supply room)
      (transact-Ended p dev.path cmd iskip _ odata _ s)
