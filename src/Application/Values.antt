-- ===== src/Application/Values.antt =====
-- The one-byte values.
use libfcd.Base.{
  ℕ, ◌+◌, ◌≤◌, ◌<◌, ◌≡◌, ◌↔◌, refl, false, Option, none, some, [], ◌∷◌, pos, minus, arith, length,
  leb, le→leb, ◌==◌, if◌then◌else◌,
}
use libfcd.Platform.{Platform, Errno, Sys, ok}
use libfcd.Command.{ValueId, value_id, cmd_set_value_offset, cmd_get_value_offset}
use libfcd.Device.{Fcd, Buf, result_only}
use libfcd.Device.Transact.{ReadsCounted, transact}
use libfcd.Device.GetSet.{fcd_set-transact, fcd_get-transact}
use libfcd.Application.{
  BytePointer, fcd_set_value, fcd_get_value, fcd_set_bias_tee, fcd_get_bias_tee,
}

in_range : (id : ℕ) → id < 17 → leb 17 id ≡ false
in_range id h = ground arith

module _ (p : Platform) (c : ReadsCounted p) (dev : Fcd) where
  -- For an identifier below `FCD_VALUE_UNDEFINED`, `fcd_set_value` sends the byte with the command
  -- 110 + id.
  pub fcd_set_value-wire :
      (id value : ℕ) (s : Sys p)
      → id < value_id ValueId.undefined
      → fcd_set_value p (some dev) id value s
        ≡ result_only p (transact p dev.path (110 + id) 0 (value ∷ []) none 0) s
  unfolding fcd_set_value
  fcd_set_value-wire id value s h =
      rw
        (
          in_range id h,
          fcd_set-transact p c dev (cmd_set_value_offset + id) (value ∷ []) 1 s refl (omega arith),
        )
        refl

  -- If `hid_read` counts what it reads, then `fcd_set_bias_tee` on an open device sends 0 for the
  -- state 0 and 1 for any other, with the command 126.
  pub fcd_set_bias_tee-wire :
      (state : ℕ) (s : Sys p)
      → (bit : ℕ) × ((bit ≡ 0) ↔ (state ≡ 0))
        × (bit ≤ 1)
        × (fcd_set_bias_tee p (some dev) state s
            ≡ result_only p (transact p dev.path 126 0 (bit ∷ []) none 0) s)
  unfolding fcd_set_bias_tee
  fcd_set_bias_tee-wire state s = (
    (if state == 0 then 0 else 1),
    ground arith,
    ground arith,
    fcd_set_value-wire 16 _ s (omega arith),
  )

  -- If `hid_read` counts what it reads, then for an identifier in range and a pointer of at least
  -- one byte, if the device answers, `fcd_get_value` returns 0 as for success, and the byte that
  -- the caller's pointer points to is what it was before.
  pub fcd_get_value_lost :
      (id : ℕ) (value : BytePointer) (answer : Buf) (s s' : Sys p)
      → id < value_id ValueId.undefined
      → 1 ≤ length value.address
      → transact p dev.path (150 + id) 0 [] (some value.address) 1 s ≡ ok (pos 0, answer) s'
      → fcd_get_value p (some dev) id value s ≡ ok (pos 0, value.target) s'
  unfolding fcd_get_value
  fcd_get_value_lost id value answer s s' h room e =
      rw
        (
          in_range id h,
          fcd_get-transact p c dev (cmd_get_value_offset + id) value.address 1 s room (omega arith),
          e,
        )
        refl

  -- So `fcd_get_bias_tee` reports success and never tells the state.
  pub fcd_get_bias_tee_lost :
      (state : BytePointer) (answer : Buf) (s s' : Sys p)
      → 1 ≤ length state.address
      → transact p dev.path 166 0 [] (some state.address) 1 s ≡ ok (pos 0, answer) s'
      → fcd_get_bias_tee p (some dev) state s ≡ ok (pos 0, state.target) s'
  unfolding fcd_get_bias_tee
  fcd_get_bias_tee_lost state answer s s' room e =
      fcd_get_value_lost 16 state answer s s' (omega arith) room e

-- An identifier of `FCD_VALUE_UNDEFINED` or more is refused by `fcd_set_value` and
-- `fcd_get_value`, which return -1 with EINVAL, and nothing is sent.
pub value_id_refused :
    (p : Platform) (dev : Option Fcd) (id value : ℕ) (pointer : BytePointer) (s : Sys p)
    → value_id ValueId.undefined ≤ id
    → (fcd_set_value p dev id value s ≡ ok (minus 1) (record s { errno = Errno.einval }))
      × (fcd_get_value p dev id pointer s
          ≡ ok (minus 1, pointer.target) (record s { errno = Errno.einval }))
unfolding fcd_set_value fcd_get_value
value_id_refused p dev id value pointer s h = (rw (le→leb 17 id h), rw (le→leb 17 id h))
