-- ===== src/Application/Settings/Iq.antt =====
-- The IQ correction as a register.
use libfcd.Base.{ℕ, ◌^◌, ◌<◌, ◌≡◌, refl, ◌∙◌, none, some, List, [], ◌++◌, ℤ, pos, arith}
use libfcd.Word.{to_i16}
use libfcd.Word.Wire.{le16}
use libfcd.Word.Signed.{FitsI16}
use libfcd.Platform.{Platform, Sys, Cmd, pure, ◌>>=◌, or_fault, uninit}
use libfcd.Platform.Returns.{Returns}
use libfcd.Command.{cmd_set_iq_corr, cmd_get_iq_corr}
use libfcd.Device.{Fcd}
use libfcd.Device.Transact.{ReadsCounted}
use libfcd.Device.Answers.{transact-Answers}
use libfcd.Application.{fcd_set_iq_correction, fcd_get_iq_correction}
use libfcd.Application.Corrections.{
  fcd_set_iq_correction-wire, fcd_get_iq_correction_decodes, fcd_set_iq_correction_overflow,
}
use libfcd.Application.Register.{Call, replies, serve, Typed-any, IsRegister, serve-replies}
use libfcd.Application.Settings.{Setting, fits_i16_iff, iq_fits, iq_unfit, both_of}

module _ (p : Platform) (dev : Fcd) where
  abbrev pub put_iq : ℤ × ℕ → Cmd p ℤ
  put_iq (phase, gain) = fcd_set_iq_correction p (some dev) phase gain

  abbrev pub fetch_iq : Cmd p (ℤ × (ℤ × ℕ))
  fetch_iq = do
    (r, phase, gain) ← fcd_get_iq_correction p (some dev) (some (pos 0)) (some 0)
    v ← or_fault (both_of phase gain)
    pure (r, v)

module _ (p : Platform) (c : ReadsCounted p) (dev : Fcd) where
  abbrev pub HoldsIq :
      Setting p dev.path cmd_set_iq_corr cmd_get_iq_corr 4 (λ bytes. bytes) → ℤ × ℕ → Sys p → Type 0
  HoldsIq setting (phase, gain) s =
      setting.ready s.world
      × (setting.held s.world ≡ le16 (to_i16 phase) ++ le16 gain)
      × FitsI16 phase
      × (gain < 2 ^ 16)

  iq-IsRegister :
      (setting : Setting p dev.path cmd_set_iq_corr cmd_get_iq_corr 4 (λ bytes. bytes))
      → IsRegister p
          (put_iq p dev)
          (fetch_iq p dev)
          (λ v. v)
          iq_fits
          (λ _. Unit {0})
          (HoldsIq setting)
  iq-IsRegister setting = record {
    puts = λ (phase, gain) held s typed good (r, _, _, _).
        let fp = (fits_i16_iff phase).0 (ground (arith, good)) in
        let fg : gain < 2 ^ 16 = ground (arith, good) in
        let (w', a, r', h) = setting.sets s.world (le16 (to_i16 phase) ++ le16 gain) r refl in
        rw
          (
            fcd_set_iq_correction-wire p c dev phase gain s fp fg,
            transact-Answers p dev.path cmd_set_iq_corr 0 (le16 (to_i16 phase) ++ le16 gain) none 0
                s [] w' a,
          )
          (refl, (r', h, fp, fg));
    refuses = λ (phase, gain) held s typed bad h.
        rw (fcd_set_iq_correction_overflow p (some dev) phase gain s (iq_unfit phase gain bad))
          (refl, h);
    fetches = λ (phase, gain) s (r, held, fp, fg).
        let (w', a, r', h) = setting.gets s.world r in
        rw
          (fcd_get_iq_correction_decodes p c dev phase (pos 0) gain 0 s (record s { world = w' }) fp
            fg
            (transact-Answers p dev.path cmd_get_iq_corr 0 [] (some (uninit p 4)) 4 s
              (le16 (to_i16 phase) ++ le16 gain) w' (rw held at a)))
          (refl, refl, (r', h ∙ held, fp, fg));
  }

  -- If `hid_read` counts what it reads, and the dongle keeps what is set as `Setting` says, then any
  -- sequence of `fcd_set_iq_correction` and `fcd_get_iq_correction` calls returns, with the replies
  -- of a register: setting a phase outside -32768..32767 or a gain of 65536 or more returns -1 and
  -- changes nothing, any other set returns 0, and a get returns 0 with the phase and gain that were
  -- set last.
  pub iq_correction-replies :
      (setting : Setting p dev.path cmd_set_iq_corr cmd_get_iq_corr 4 (λ bytes. bytes))
      (calls : List (Call (ℤ × ℕ))) (phase : ℤ) (gain : ℕ) (s : Sys p)
      → HoldsIq setting (phase, gain) s
      → Returns
          (λ answers t. answers ≡ replies iq_fits calls (phase, gain))
          (serve p (put_iq p dev) (fetch_iq p dev) calls s)
  iq_correction-replies setting calls phase gain s h =
      serve-replies p (put_iq p dev) (fetch_iq p dev) (λ v. v) iq_fits (λ _. Unit {0})
        (HoldsIq setting) (iq-IsRegister setting) calls (phase, gain) s (Typed-any calls) h
