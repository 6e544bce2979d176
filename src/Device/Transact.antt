-- ===== src/Device/Transact.antt =====
-- What `fcd_io` promises: one request and its response as byte strings, with no transfer buffer.
use libfcd.Base.{
  ℕ, ◌+◌, ◌≤◌, ◌≡◌, true, ◌&&◌, Option, none, some, List, [], ◌∷◌, ◌++◌, String, ℤ, pos, at_least,
  ◌==◌, if◌then◌else◌, length, take, drop, replicate,
}
use libfcd.Platform.{
  Platform, Errno, Cmd, pure, ◌>>=◌, ◌>>◌, hid_open_path, hid_write, hid_read, hid_close,
}
use libfcd.Device.{Buf, fail}

-- The report that is sent: report id 0, the command, the padding and the data.
abbrev pub request : ℕ → ℕ → List ℕ → List ℕ
request cmd iskip payload = 0 ∷ cmd ∷ (replicate iskip 0 ++ payload)

-- The data of a response that repeats the command and reports success.
abbrev pub parse_response : ℕ → List ℕ → Option (List ℕ)
parse_response cmd [] = none
parse_response cmd (c ∷ []) = none
parse_response cmd (c ∷ status ∷ payload) = if c == cmd && status == 1 then some payload else none

-- The output buffer with the payload at its start.
abbrev pub overwrite : Buf → List ℕ → Buf
overwrite none xs = none
overwrite (some bs) xs = some (xs ++ drop (length xs) bs)

-- The data that a caller's buffer gives.
abbrev pub payload_of : Buf → ℕ → List ℕ
payload_of none n = []
payload_of (some bs) n = take n bs

-- The buffer is large enough for `n` bytes, or NULL where none are asked for.
abbrev pub Holds : Buf → ℕ → Type 0
Holds none n = n ≡ 0
Holds (some bs) n = n ≤ length bs

-- What hidapi documents of `hid_read`: it fills no more than the length passed, and a result that
-- is no error counts the bytes.
pub record ReadsCounted (p : Platform) : Type 0 where
  pub within : (h : p.Handle) (n : ℕ) (w : p.World) → length (p.hid_read h n w).0.1 ≤ n
  pub counted :
      (h : p.Handle) (n : ℕ) (w : p.World)
      → at_least (p.hid_read h n w).0.0 n ≡ true
      → length (p.hid_read h n w).0.1 ≡ n

module _ (p : Platform) where
  -- Write the request and read a response of `n` bytes of data.
  unfoldable pub converse : p.Handle → List ℕ → ℕ → ℕ → Cmd p (Option (List ℕ))
  converse h req cmd n = hid_write p h req >>= λ sent.
      if at_least sent (length req)
      then (hid_read p h (n + 2) >>= λ (r, got).
          pure (if at_least r (n + 2) then parse_response cmd got else none))
      else pure none

  unfoldable pub conclude : Option (List ℕ) → Buf → Cmd p (ℤ × Buf)
  conclude none odata = fail p Errno.eio odata
  conclude (some payload) odata = pure (pos 0, overwrite odata payload)

  -- Open the device, converse, and close it.
  unfoldable pub transact : Option String → ℕ → ℕ → List ℕ → Buf → ℕ → Cmd p (ℤ × Buf)
  unfolding converse conclude
  transact path cmd iskip payload odata n = hid_open_path p path >>= elim [
    | none ↦ fail p Errno.enodev odata
    | some h ↦ do
      answer ← converse h (request cmd iskip payload) cmd n
      hid_close p (some h)
      conclude answer odata
  ]
