-- ===== src/Application.antt =====
-- The application interface, lib/fcd_application.c.
pub mod Corrections
pub mod Values
pub mod Frequency
pub mod Calls
pub mod Register
pub mod Settings
use libfcd.Base.{
  ℕ, ◌+◌, ◌%◌, ◌^◌, Bool, ◌||◌, not, Option, none, some, List, [], ◌∷◌, ◌++◌, ℤ, pos, minus, eq_ℤ,
  is_nonzero, leb, ◌==◌, if◌then◌else◌, take, drop, get_or,
}
use libfcd.Word.{
  Endian, u32, convert_le_u16, convert_le_u32, store_u16, store_u32, load_u16, load_u32, to_i16,
  of_i16, u16,
}
use libfcd.Platform.{Platform, Errno, Cmd, pure, ◌>>=◌, ◌>>◌, or_fault, set_errno, uninit}
use libfcd.Command.{
  ValueId, value_id, cmd_set_dc_corr, cmd_get_dc_corr, cmd_set_iq_corr, cmd_get_iq_corr,
  cmd_set_frequency_hz, cmd_get_frequency_hz, cmd_set_value_offset, cmd_get_value_offset,
}
use libfcd.Device.{Fcd, Buf, bytes_of, fcd_get, fcd_set, result_only}

-- `if (NULL != q) *q = v`: `none` is NULL, `some` the value that `q` points to.
abbrev pub assign : {A : Type 0} → Option A → A → Option A
assign none v = none
assign (some old) v = some v

-- `*q = v`, which needs a `q` that is not NULL.
abbrev pub store : {A : Type 0} → Option A → A → Option (Option A)
store none v = none
store (some old) v = some (some v)

-- `unsigned char *value`: the bytes of the address, and the byte there, if it is not NULL.
pub record BytePointer : Type 0 where
  pub address : List ℕ
  pub target : Option ℕ

module _ (p : Platform) where
  abbrev pub overflow : Cmd p ℤ
  overflow = do set_errno Errno.eoverflow; pure (minus 1)

  pub fcd_set_dc_correction : Option Fcd → ℤ → ℤ → Cmd p ℤ
  fcd_set_dc_correction dev i q =
      let c0 = to_i16 i in
      let c1 = to_i16 q in
      if not (eq_ℤ i (of_i16 c0)) || not (eq_ℤ q (of_i16 c1))
      then overflow
      else result_only p (
          fcd_set p dev cmd_set_dc_corr
            (some (
              store_u16 p.endian (convert_le_u16 p.endian c0)
              ++ store_u16 p.endian (convert_le_u16 p.endian c1)))
            4)

  pub fcd_get_dc_correction : Option Fcd → Option ℤ → Option ℤ → Cmd p (ℤ × Option ℤ × Option ℤ)
  fcd_get_dc_correction dev i q = do
    (result, correction) ← fcd_get p dev cmd_get_dc_corr (some (uninit p 4)) 4
    if is_nonzero result then pure (result, i, q) else (do
      let c0 = convert_le_u16 p.endian (load_u16 p.endian (take 2 (bytes_of correction)))
      let c1 = convert_le_u16 p.endian (load_u16 p.endian (drop 2 (bytes_of correction)))
      pure (pos 0, assign i (of_i16 c0), assign q (of_i16 c1)))

  pub fcd_set_iq_correction : Option Fcd → ℤ → ℕ → Cmd p ℤ
  fcd_set_iq_correction dev phase gain =
      let c0 = to_i16 phase in
      let c1 = u16 gain in
      if not (eq_ℤ phase (of_i16 c0)) || not (gain == c1)
      then overflow
      else result_only p (
          fcd_set p dev cmd_set_iq_corr
            (some (
              store_u16 p.endian (convert_le_u16 p.endian c0)
              ++ store_u16 p.endian (convert_le_u16 p.endian c1)))
            4)

  pub fcd_get_iq_correction : Option Fcd → Option ℤ → Option ℕ → Cmd p (ℤ × Option ℤ × Option ℕ)
  fcd_get_iq_correction dev phase gain = do
    (result, correction) ← fcd_get p dev cmd_get_iq_corr (some (uninit p 4)) 4
    if is_nonzero result then pure (result, phase, gain) else (do
      let c0 = convert_le_u16 p.endian (load_u16 p.endian (take 2 (bytes_of correction)))
      let c1 = convert_le_u16 p.endian (load_u16 p.endian (drop 2 (bytes_of correction)))
      pure (pos 0, assign phase (of_i16 c0), assign gain c1))

  pub fcd_set_frequency_hz : Option Fcd → ℕ → Cmd p ℤ
  fcd_set_frequency_hz dev freq =
      let fhz = convert_le_u32 p.endian freq in
      result_only p (fcd_set p dev cmd_set_frequency_hz (some (store_u32 p.endian fhz)) 4)

  pub fcd_get_frequency_hz : Option Fcd → Option ℕ → Cmd p (ℤ × Option ℕ)
  fcd_get_frequency_hz dev freq = do
    (result, fhz) ← fcd_get p dev cmd_get_frequency_hz (some (uninit p 4)) 4
    if is_nonzero result then pure (result, freq) else (do
      freq' ← or_fault (store freq (convert_le_u32 p.endian (load_u32 p.endian (bytes_of fhz))))
      pure (pos 0, freq'))

  abbrev pub invalid : Cmd p ℤ
  invalid = do set_errno Errno.einval; pure (minus 1)

  pub fcd_set_value : Option Fcd → ℕ → ℕ → Cmd p ℤ
  fcd_set_value dev id value =
      if leb (value_id ValueId.undefined) id
      then invalid
      else result_only p (fcd_set p dev (cmd_set_value_offset + id) (some (value ∷ [])) 1)

  -- The call passes `&value`, the address of the parameter itself, so that the answer goes into the
  -- bytes of the local pointer; the byte that it points to comes back beside the result.
  pub fcd_get_value : Option Fcd → ℕ → BytePointer → Cmd p (ℤ × Option ℕ)
  fcd_get_value dev id value =
      if leb (value_id ValueId.undefined) id
      then (do result ← invalid; pure (result, value.target))
      else (do
        (result, value') ← fcd_get p dev (cmd_get_value_offset + id) (some value.address) 1
        pure (result, value.target))

  pub fcd_set_bias_tee : Option Fcd → ℕ → Cmd p ℤ
  fcd_set_bias_tee dev state =
      let bias : ℕ = if state == 0 then 0 else 1 in
      fcd_set_value dev (value_id ValueId.bias_tee) bias

  pub fcd_get_bias_tee : Option Fcd → BytePointer → Cmd p (ℤ × Option ℕ)
  fcd_get_bias_tee dev state = fcd_get_value dev (value_id ValueId.bias_tee) state
