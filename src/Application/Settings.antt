-- ===== src/Application/Settings.antt =====
-- The settings of lib/fcd_application.c on a dongle that keeps them.
pub mod Dc
pub mod Iq
pub mod Frequency
use libfcd.Base.{
  ℕ, ◌^◌, ◌<◌, ◌≤◌, ◌≡◌, refl, ap, ◌∙◌, ◌↔◌, ◌⊎◌, inl, inr, Bool, true, false, ◌&&◌, Bool-cases,
  Option, none, some, List, [], ◌∷◌, ◌++◌, String, ℤ, pos, negsuc, minus, leb, ltb, length, arith,
}
use libfcd.Word.{to_i16}
use libfcd.Word.Wire.{le16, le32}
use libfcd.Word.Signed.{FitsI16}
use libfcd.Platform.{Platform, Errno, Sys, ok, Cmd, pure, ◌>>=◌, or_fault, uninit}
use libfcd.Platform.Returns.{Returns}
use libfcd.Command.{
  cmd_set_dc_corr, cmd_get_dc_corr, cmd_set_iq_corr, cmd_get_iq_corr, cmd_set_frequency_hz,
  cmd_get_frequency_hz,
}
use libfcd.Device.{Fcd}
use libfcd.Device.Transact.{ReadsCounted, request, transact}
use libfcd.Device.Answers.{Answers, transact-Answers}
use libfcd.Application.{
  fcd_set_dc_correction, fcd_get_dc_correction, fcd_set_iq_correction, fcd_get_iq_correction,
  fcd_set_frequency_hz, fcd_get_frequency_hz,
}
use libfcd.Application.Corrections.{
  fcd_set_dc_correction-wire, fcd_get_dc_correction_decodes, fcd_set_dc_correction_overflow,
  fcd_set_iq_correction-wire, fcd_get_iq_correction_decodes, fcd_set_iq_correction_overflow,
}
use libfcd.Application.Frequency.{fcd_set_frequency_hz-wire, fcd_get_frequency_hz_decodes}
use libfcd.Application.Register.{Call, Typed, replies, serve, Typed-any, IsRegister, serve-replies}

-- A dongle behind a path that keeps the bytes of a setting, as it makes them of those that one
-- command sends; the other command gets what is kept. `ready` holds of the worlds in which it is
-- there.
pub record Setting (p : Platform) (path : Option String) (set_cmd get_cmd size : ℕ)
    (actual : List ℕ → List ℕ) : Type 1 where
  pub ready : p.World → Type 0
  pub held : p.World → List ℕ
  pub sets :
      (w : p.World) (bytes : List ℕ)
      → ready w
      → length bytes ≡ size
      → (w' : p.World) × Answers p path w (request set_cmd 0 bytes) 0 (set_cmd ∷ 1 ∷ []) w'
        × ready w'
        × (held w' ≡ actual bytes)
  pub gets :
      (w : p.World)
      → ready w
      → (w' : p.World) × Answers p path w (request get_cmd 0 []) size (get_cmd ∷ 1 ∷ held w) w'
        × ready w'
        × (held w' ≡ held w)

-- The range -32768..32767, as a test.
abbrev pub fits_i16 : ℤ → Bool
fits_i16 (pos n) = leb n 32767
fits_i16 (negsuc n) = leb n 32767

pub fits_i16_iff : (i : ℤ) → (fits_i16 i ≡ true) ↔ FitsI16 i
fits_i16_iff (pos n) = ground arith
fits_i16_iff (negsuc n) = ground arith

fits_i16_not : (i : ℤ) → fits_i16 i ≡ false → ¬ (FitsI16 i)
fits_i16_not i e h = ground (arith, e, (fits_i16_iff i).1 h)

abbrev pub dc_fits : ℤ × ℤ → Bool
dc_fits (i, q) = fits_i16 i && fits_i16 q

abbrev pub iq_fits : ℤ × ℕ → Bool
iq_fits (phase, gain) = fits_i16 phase && ltb gain (2 ^ 16)

pub dc_unfit : (i q : ℤ) → dc_fits (i, q) ≡ false → ¬ (FitsI16 i) ⊎ ¬ (FitsI16 q)
dc_unfit i q bad = elim (Bool-cases (fits_i16 i)) [
  | inl good ↦ inr (fits_i16_not q (ground (arith, bad, good)))
  | inr wrong ↦ inl (fits_i16_not i wrong)
]

pub iq_unfit :
    (phase : ℤ) (gain : ℕ) → iq_fits (phase, gain) ≡ false → ¬ (FitsI16 phase) ⊎ (2 ^ 16 ≤ gain)
iq_unfit phase gain bad = elim (Bool-cases (fits_i16 phase)) [
  | inl good ↦ inr (ground (arith, bad, good))
  | inr wrong ↦ inl (fits_i16_not phase wrong)
]

-- What two variables hold that calls have stored into.
abbrev pub both_of : {A B : Type 0} → Option A → Option B → Option (A × B)
both_of none y = none
both_of (some a) none = none
both_of (some a) (some b) = some (a, b)
