-- ===== src/Device.antt =====
-- The common interface, lib/fcd_common.c: one command and its response, the handle of a device,
-- and the walk over the devices that are present.
pub mod Transact
pub mod Buffer
pub mod Io
pub mod Outcome
pub mod GetSet
pub mod Delivery
pub mod Answers
pub mod Session
use libfcd.Base.{
  ℕ, zero, suc, ◌+◌, ◌-◌, ◌%◌, ◌^◌, Bool, true, false, ◌&&◌, ◌||◌, not, Option, none, some, List,
  [], ◌∷◌, ◌++◌, String, ℤ, pos, minus, at_least, is_nonzero, ltb, ◌==◌, if◌then◌else◌, get_elem?,
  replicate, poke, peek,
}
use libfcd.Word.{u8}
use libfcd.Platform.{
  Platform, Errno, Sys, Cmd, ok, pure, ◌>>=◌, ◌>>◌, or_fault, skip, set_errno, uninit,
  hid_open_path, hid_write, hid_read, hid_close,
}

-- `FCD`: the path is NULL until `fcd_open` has set it.
pub record Fcd : Type 0 where
  pub path : Option String

-- A pointer to bytes: NULL, or the bytes from there to the end of the object.
abbrev pub Buf : Type 0
Buf = Option (List ℕ)

abbrev pub is_null : Buf → Bool
is_null none = true
is_null (some bs) = false

-- The bytes that `fcd_get` has left in a local object.
abbrev pub bytes_of : Buf → List ℕ
bytes_of none = []
bytes_of (some bs) = bs

-- `memcpy` of nothing is allowed from and to NULL, as the code relies on.
abbrev pub read_buf : Buf → ℕ → Option (List ℕ)
read_buf none zero = some []
read_buf none (suc n) = none
read_buf (some bs) n = peek bs 0 n

abbrev pub write_buf : Buf → List ℕ → Option Buf
write_buf none [] = some none
write_buf none (x ∷ xs) = none
write_buf (some bs) xs = elim (poke bs 0 xs) [ none ↦ none | some b ↦ some (some b) ]

-- `fcd_buffer`: its `command` has the report id at 0, the command at 1 and 63 bytes of data from
-- 2 on; its `response` has the command at 0, the status at 1 and 62 bytes of data from 2 on.
abbrev pub command_data_len : ℕ
command_data_len = 63

abbrev pub response_data_len : ℕ
response_data_len = 62

abbrev pub buffer_len : ℕ
buffer_len = 2 + command_data_len

-- `sizeof(buffer.command.data) - iskip` is a `size_t`; the assignment back cuts it to a byte.
abbrev pub trim_in : ℕ → ℕ → ℕ
trim_in iskip ilen =
    let room : ℕ = (2 ^ 64 + command_data_len - iskip) % 2 ^ 64 in
    if ltb room ilen then u8 room else ilen

abbrev pub trim_out : ℕ → ℕ
trim_out olen = if ltb response_data_len olen then response_data_len else olen

infixl 5 ◌>>?◌
abbrev ◌>>?◌ : Option (List ℕ) → (List ℕ → Option (List ℕ)) → Option (List ℕ)
none >>? k = none
some b >>? k = k b

-- The stores into `buffer.command`, in order.
pub fill_command : List ℕ → ℕ → ℕ → Buf → ℕ → Option (List ℕ)
fill_command buffer cmd iskip idata ilen = poke buffer 0 (0 ∷ []) >>? λ b1.
    poke b1 1 (cmd ∷ []) >>? λ b2. poke b2 2 (replicate iskip 0) >>? λ b3.
    read_buf idata ilen >>? λ bytes. poke b3 (2 + iskip) bytes

module _ (p : Platform) where
  -- The return of a failure with `errno` set; the output buffer is as it was.
  abbrev pub fail : Errno → Buf → Cmd p (ℤ × Buf)
  fail e odata = do set_errno e; pure (minus 1, odata)

  -- Validate the response, and copy its data out.
  pub accept : List ℕ → ℕ → Buf → ℕ → Cmd p (ℤ × Buf)
  accept buffer cmd odata olen = do
    command ← or_fault (get_elem? buffer 0)
    status ← or_fault (get_elem? buffer 1)
    if command == cmd && status == 1
        then (do
          payload ← or_fault (peek buffer 2 olen)
          filled ← or_fault (write_buf odata payload)
          pure (pos 0, filled))
        else pure (minus 1, odata)

  -- Receive the response into the buffer that the request was sent from.
  pub receive : p.Handle → List ℕ → ℕ → Buf → ℕ → Cmd p (ℤ × Buf)
  receive hid_dev buffer cmd odata olen = do
    (n, got) ← hid_read p hid_dev (olen + 2)
    buffer' ← or_fault (poke buffer 0 got)
    if at_least n (olen + 2) then accept buffer' cmd odata olen else pure (minus 1, odata)

  -- Send the request, and go on to the response if all of it was sent.
  pub exchange : p.Handle → List ℕ → ℕ → ℕ → Buf → ℕ → Cmd p (ℤ × Buf)
  exchange hid_dev buffer cmd len odata olen = do
    bytes ← or_fault (peek buffer 0 len)
    n ← hid_write p hid_dev bytes
    if at_least n len then receive hid_dev buffer cmd odata olen else pure (minus 1, odata)

  abbrev set_eio_if : Bool → Cmd p (Unit {0})
  set_eio_if failed = if failed then set_errno Errno.eio else skip

  -- From `hid_open_path` on, with the lengths trimmed.
  pub transfer : Option String → ℕ → ℕ → Buf → ℕ → Buf → ℕ → Cmd p (ℤ × Buf)
  transfer path cmd iskip idata ilen odata olen = hid_open_path p path >>= elim [
    | none ↦ fail Errno.enodev odata
    | some hid_dev ↦ do
      buffer ← or_fault (fill_command (uninit p buffer_len) cmd iskip idata ilen)
      (result, filled) ← exchange hid_dev buffer cmd (ilen + 2 + iskip) odata olen
      hid_close p (some hid_dev)
      set_eio_if (is_nonzero result)
      pure (result, filled)
  ]

  -- The output buffer comes back beside the result.
  pub fcd_io : Option Fcd → ℕ → ℕ → Buf → ℕ → Buf → ℕ → Cmd p (ℤ × Buf)
  fcd_io none cmd iskip idata ilen odata olen = fail Errno.efault odata
  fcd_io (some dev) cmd iskip idata ilen odata olen =
      if not (ilen == 0) && is_null idata || not (olen == 0) && is_null odata
      then fail Errno.efault odata
      else transfer dev.path cmd iskip idata (trim_in iskip ilen) odata (trim_out olen)

  pub fcd_get : Option Fcd → ℕ → Buf → ℕ → Cmd p (ℤ × Buf)
  fcd_get dev cmd bytes len = fcd_io dev cmd 0 none 0 bytes len

  pub fcd_set : Option Fcd → ℕ → Buf → ℕ → Cmd p (ℤ × Buf)
  fcd_set dev cmd bytes len = fcd_io dev cmd 0 bytes len none 0

  -- The result of a call that fills no buffer.
  abbrev pub result_only : Cmd p (ℤ × Buf) → Cmd p ℤ
  result_only m = m >>= λ (result, bytes). pure result
