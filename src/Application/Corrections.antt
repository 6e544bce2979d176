-- ===== src/Application/Corrections.antt =====
-- The corrections: what is sent, what is refused, and that what is read is what was sent.
use libfcd.Base.{
  ℕ, ◌^◌, ◌≤◌, ◌<◌, ◌≡◌, refl, sym, ap, ◌∙◌, true, false, Option, none, some, [], ◌++◌, ℤ, pos,
  minus, eq_ℤ, eq_ℤ_iff, ◌==◌, arith, Bool-cases, ◌⊎◌, inl, inr, ◌%◌, ◌/◌,
}
use libfcd.Word.{Endian, convert_le_u16, load_u16, to_i16, of_i16}
use libfcd.Word.Wire.{le16, store-convert_u16, convert-load_u16, of_le16-le16}
use libfcd.Word.Signed.{FitsI16, to_i16-lt, of_i16-to_i16_iff}
use libfcd.Platform.{Platform, Errno, Sys, ok, uninit}
use libfcd.Command.{cmd_set_dc_corr, cmd_get_dc_corr, cmd_set_iq_corr, cmd_get_iq_corr}
use libfcd.Device.{Fcd, result_only}
use libfcd.Device.Transact.{ReadsCounted, transact}
use libfcd.Device.GetSet.{fcd_set-transact, fcd_get-transact}
use libfcd.Application.{
  fcd_set_dc_correction, fcd_get_dc_correction, fcd_set_iq_correction, fcd_get_iq_correction,
}

fits_true : (i : ℤ) → FitsI16 i → eq_ℤ i (of_i16 (to_i16 i)) ≡ true
fits_true i h = (of_i16-to_i16_iff i).1 h

convert-le16 : (e : Endian) (w : ℕ) → w < 2 ^ 16 → convert_le_u16 e (load_u16 e (le16 w)) ≡ w
convert-le16 e w h =
    convert-load_u16 e (w % 256) (w / 256 % 256) (omega arith) (omega arith) ∙ of_le16-le16 w h

decodes :
    (e : Endian) (i : ℤ) → FitsI16 i → of_i16 (convert_le_u16 e (load_u16 e (le16 (to_i16 i)))) ≡ i
decodes e i h =
    ap of_i16 (convert-le16 e (to_i16 i) (to_i16-lt i))
    ∙ sym ((eq_ℤ_iff i (of_i16 (to_i16 i))).0 (fits_true i h))

module _ (p : Platform) (c : ReadsCounted p) (dev : Fcd) where
  -- If `hid_read` counts what it reads, then for values in -32768..32767, `fcd_set_dc_correction`
  -- on an open device sends the I and the Q value, each as two bytes, low byte first, on either
  -- kind of host.
  pub fcd_set_dc_correction-wire :
      (i q : ℤ) (s : Sys p)
      → FitsI16 i
      → FitsI16 q
      → fcd_set_dc_correction p (some dev) i q s
        ≡ result_only p
            (transact p dev.path cmd_set_dc_corr 0 (le16 (to_i16 i) ++ le16 (to_i16 q)) none 0)
            s
  unfolding fcd_set_dc_correction
  fcd_set_dc_correction-wire i q s hi hq =
      rw
        (
          fits_true i hi,
          fits_true q hq,
          store-convert_u16 p.endian (to_i16 i) (to_i16-lt i),
          store-convert_u16 p.endian (to_i16 q) (to_i16-lt q),
          fcd_set-transact p c dev cmd_set_dc_corr (le16 (to_i16 i) ++ le16 (to_i16 q)) 4 s refl
              (omega arith),
        )
        refl

  -- If `hid_read` counts what it reads, then for a phase in -32768..32767 and a gain below 65536,
  -- `fcd_set_iq_correction` on an open device sends the phase and the gain, each as two bytes,
  -- low byte first, on either kind of host.
  pub fcd_set_iq_correction-wire :
      (phase : ℤ) (gain : ℕ) (s : Sys p)
      → FitsI16 phase
      → gain < 2 ^ 16
      → fcd_set_iq_correction p (some dev) phase gain s
        ≡ result_only p
            (transact p dev.path cmd_set_iq_corr 0 (le16 (to_i16 phase) ++ le16 gain) none 0)
            s
  unfolding fcd_set_iq_correction
  fcd_set_iq_correction-wire phase gain s hp hg =
      rw
        (
          fits_true phase hp,
          gain_same,
          gain_fits,
          store-convert_u16 p.endian (to_i16 phase) (to_i16-lt phase),
          store-convert_u16 p.endian gain hg,
          fcd_set-transact p c dev cmd_set_iq_corr (le16 (to_i16 phase) ++ le16 gain) 4 s refl
              (omega arith),
        )
        refl
    where
      gain_same : gain % 2 ^ 16 ≡ gain
      gain_same = omega arith

      gain_fits : (gain == gain) ≡ true
      gain_fits = ground arith

  -- If `hid_read` counts what it reads, and the device answers with the bytes that encode an I
  -- and a Q in -32768..32767, then `fcd_get_dc_correction` with two pointers that are not NULL
  -- stores these and returns 0.
  pub fcd_get_dc_correction_decodes :
      (i q x y : ℤ) (s s' : Sys p)
      → FitsI16 i
      → FitsI16 q
      → transact p dev.path cmd_get_dc_corr 0 [] (some (uninit p 4)) 4 s
        ≡ ok (pos 0, some (le16 (to_i16 i) ++ le16 (to_i16 q))) s'
      → fcd_get_dc_correction p (some dev) (some x) (some y) s ≡ ok (pos 0, some i, some q) s'
  unfolding fcd_get_dc_correction
  fcd_get_dc_correction_decodes i q x y s s' hi hq answer =
      rw
        (
          fcd_get-transact p c dev cmd_get_dc_corr (uninit p 4) 4 s (omega arith) (omega arith),
          answer,
          decodes p.endian i hi,
          decodes p.endian q hq,
        )
        refl

  -- If `hid_read` counts what it reads, and the device answers with the bytes that encode a phase
  -- in -32768..32767 and a gain below 65536, then `fcd_get_iq_correction` with two pointers that
  -- are not NULL stores these and returns 0.
  pub fcd_get_iq_correction_decodes :
      (phase x : ℤ) (gain y : ℕ) (s s' : Sys p)
      → FitsI16 phase
      → gain < 2 ^ 16
      → transact p dev.path cmd_get_iq_corr 0 [] (some (uninit p 4)) 4 s
        ≡ ok (pos 0, some (le16 (to_i16 phase) ++ le16 gain)) s'
      → fcd_get_iq_correction p (some dev) (some x) (some y) s
        ≡ ok (pos 0, some phase, some gain) s'
  unfolding fcd_get_iq_correction
  fcd_get_iq_correction_decodes phase x gain y s s' hp hg answer =
      rw
        (
          fcd_get-transact p c dev cmd_get_iq_corr (uninit p 4) 4 s (omega arith) (omega arith),
          answer,
          decodes p.endian phase hp,
          convert-le16 p.endian gain hg,
        )
        refl

-- What the narrowing test says of a value out of range.
not_fits : (i : ℤ) → ¬ (FitsI16 i) → eq_ℤ i (of_i16 (to_i16 i)) ≡ false
not_fits i h = elim (Bool-cases (eq_ℤ i (of_i16 (to_i16 i)))) [
  | inl same ↦ absurd (h ((of_i16-to_i16_iff i).0 same))
  | inr differs ↦ differs
]

-- If I or Q is outside -32768..32767, `fcd_set_dc_correction` returns -1 with EOVERFLOW and sends nothing.
pub fcd_set_dc_correction_overflow :
    (p : Platform) (dev : Option Fcd) (i q : ℤ) (s : Sys p)
    → ¬ (FitsI16 i) ⊎ ¬ (FitsI16 q)
    → fcd_set_dc_correction p dev i q s ≡ ok (minus 1) (record s { errno = Errno.eoverflow })
unfolding fcd_set_dc_correction
fcd_set_dc_correction_overflow p dev i q s (inl h) = rw (not_fits i h)
fcd_set_dc_correction_overflow p dev i q s (inr h) = ground (arith, not_fits q h)

-- If the phase is outside -32768..32767 or the gain is 65536 or more, `fcd_set_iq_correction`
-- returns -1 with EOVERFLOW and sends nothing.
pub fcd_set_iq_correction_overflow :
    (p : Platform) (dev : Option Fcd) (phase : ℤ) (gain : ℕ) (s : Sys p)
    → ¬ (FitsI16 phase) ⊎ (2 ^ 16 ≤ gain)
    → fcd_set_iq_correction p dev phase gain s ≡ ok (minus 1) (record s { errno = Errno.eoverflow })
unfolding fcd_set_iq_correction
fcd_set_iq_correction_overflow p dev phase gain s (inl h) = rw (not_fits phase h)
fcd_set_iq_correction_overflow p dev phase gain s (inr h) = ground arith
