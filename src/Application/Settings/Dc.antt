-- ===== src/Application/Settings/Dc.antt =====
-- The DC correction as a register.
use libfcd.Base.{◌≡◌, refl, ◌∙◌, none, some, List, [], ◌++◌, ℤ, pos, arith}
use libfcd.Word.{to_i16}
use libfcd.Word.Wire.{le16}
use libfcd.Word.Signed.{FitsI16}
use libfcd.Platform.{Platform, Sys, Cmd, pure, ◌>>=◌, or_fault, uninit}
use libfcd.Platform.Returns.{Returns}
use libfcd.Command.{cmd_set_dc_corr, cmd_get_dc_corr}
use libfcd.Device.{Fcd}
use libfcd.Device.Transact.{ReadsCounted}
use libfcd.Device.Answers.{transact-Answers}
use libfcd.Application.{fcd_set_dc_correction, fcd_get_dc_correction}
use libfcd.Application.Corrections.{
  fcd_set_dc_correction-wire, fcd_get_dc_correction_decodes, fcd_set_dc_correction_overflow,
}
use libfcd.Application.Register.{Call, replies, serve, Typed-any, IsRegister, serve-replies}
use libfcd.Application.Settings.{Setting, fits_i16_iff, dc_fits, dc_unfit, both_of}

module _ (p : Platform) (dev : Fcd) where
  abbrev pub put_dc : ℤ × ℤ → Cmd p ℤ
  put_dc (i, q) = fcd_set_dc_correction p (some dev) i q

  abbrev pub fetch_dc : Cmd p (ℤ × (ℤ × ℤ))
  fetch_dc = do
    (r, i, q) ← fcd_get_dc_correction p (some dev) (some (pos 0)) (some (pos 0))
    v ← or_fault (both_of i q)
    pure (r, v)

module _ (p : Platform) (c : ReadsCounted p) (dev : Fcd) where
  abbrev pub HoldsDc :
      Setting p dev.path cmd_set_dc_corr cmd_get_dc_corr 4 (λ bytes. bytes) → ℤ × ℤ → Sys p → Type 0
  HoldsDc setting (i, q) s =
      setting.ready s.world
      × (setting.held s.world ≡ le16 (to_i16 i) ++ le16 (to_i16 q))
      × FitsI16 i
      × FitsI16 q

  dc-IsRegister :
      (setting : Setting p dev.path cmd_set_dc_corr cmd_get_dc_corr 4 (λ bytes. bytes))
      → IsRegister p
          (put_dc p dev)
          (fetch_dc p dev)
          (λ v. v)
          dc_fits
          (λ _. Unit {0})
          (HoldsDc setting)
  dc-IsRegister setting = record {
    puts = λ (i, q) held s typed good (r, _, _, _).
        let fi = (fits_i16_iff i).0 (ground (arith, good)) in
        let fq = (fits_i16_iff q).0 (ground (arith, good)) in
        let (w', a, r', h) = setting.sets s.world (le16 (to_i16 i) ++ le16 (to_i16 q)) r refl in
        rw
          (
            fcd_set_dc_correction-wire p c dev i q s fi fq,
            transact-Answers p dev.path cmd_set_dc_corr 0 (le16 (to_i16 i) ++ le16 (to_i16 q)) none
                0 s [] w' a,
          )
          (refl, (r', h, fi, fq));
    refuses = λ (i, q) held s typed bad h.
        rw (fcd_set_dc_correction_overflow p (some dev) i q s (dc_unfit i q bad)) (refl, h);
    fetches = λ (i, q) s (r, held, fi, fq).
        let (w', a, r', h) = setting.gets s.world r in
        rw
          (fcd_get_dc_correction_decodes p c dev i q (pos 0) (pos 0) s (record s { world = w' }) fi
            fq
            (transact-Answers p dev.path cmd_get_dc_corr 0 [] (some (uninit p 4)) 4 s
              (le16 (to_i16 i) ++ le16 (to_i16 q)) w' (rw held at a)))
          (refl, refl, (r', h ∙ held, fi, fq));
  }

  -- If `hid_read` counts what it reads, and the dongle keeps what is set as `Setting` says, then any
  -- sequence of `fcd_set_dc_correction` and `fcd_get_dc_correction` calls returns, with the replies
  -- of a register: setting an I or Q outside -32768..32767 returns -1 and changes nothing, any other
  -- set returns 0, and a get returns 0 with the I and Q that were set last.
  pub dc_correction-replies :
      (setting : Setting p dev.path cmd_set_dc_corr cmd_get_dc_corr 4 (λ bytes. bytes))
      (calls : List (Call (ℤ × ℤ))) (i q : ℤ) (s : Sys p)
      → HoldsDc setting (i, q) s
      → Returns
          (λ answers t. answers ≡ replies dc_fits calls (i, q))
          (serve p (put_dc p dev) (fetch_dc p dev) calls s)
  dc_correction-replies setting calls i q s h =
      serve-replies p (put_dc p dev) (fetch_dc p dev) (λ v. v) dc_fits (λ _. Unit {0})
        (HoldsDc setting) (dc-IsRegister setting) calls (i, q) s (Typed-any calls) h
