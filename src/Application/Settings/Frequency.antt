-- ===== src/Application/Settings/Frequency.antt =====
-- The frequency in Hz as a register.
use libfcd.Base.{ℕ, ◌^◌, ◌<◌, ◌≡◌, refl, ap, ◌∙◌, true, none, some, List, [], ℤ}
use libfcd.Word.Wire.{le32, of_le32, of_le32-le32}
use libfcd.Platform.{Platform, Sys, Cmd, pure, ◌>>=◌, or_fault, uninit}
use libfcd.Platform.Returns.{Returns}
use libfcd.Command.{cmd_set_frequency_hz, cmd_get_frequency_hz}
use libfcd.Device.{Fcd}
use libfcd.Device.Transact.{ReadsCounted}
use libfcd.Device.Answers.{transact-Answers}
use libfcd.Application.{fcd_set_frequency_hz, fcd_get_frequency_hz}
use libfcd.Application.Frequency.{fcd_set_frequency_hz-wire, fcd_get_frequency_hz_decodes}
use libfcd.Application.Register.{Call, Typed, replies_kept, serve, IsRegister, serve-replies}
use libfcd.Application.Settings.{Setting}

module _ (p : Platform) (dev : Fcd) where
  abbrev pub fetch_frequency : Cmd p (ℤ × ℕ)
  fetch_frequency = do
    (r, freq) ← fcd_get_frequency_hz p (some dev) (some 0)
    v ← or_fault freq
    pure (r, v)

-- The bytes of the frequency that the dongle tunes to, of the bytes of the one that is set.
abbrev pub tuned : (ℕ → ℕ) → List ℕ → List ℕ
tuned tune bytes = le32 (tune (of_le32 bytes))

module _ (p : Platform) (c : ReadsCounted p) (dev : Fcd) (tune : ℕ → ℕ) where
  abbrev pub HoldsFrequency :
      Setting p dev.path cmd_set_frequency_hz cmd_get_frequency_hz 4 (tuned tune)
      → ℕ
      → Sys p
      → Type 0
  HoldsFrequency setting freq s =
      setting.ready s.world × (setting.held s.world ≡ le32 freq) × (freq < 2 ^ 32)

  frequency-IsRegister :
      (setting : Setting p dev.path cmd_set_frequency_hz cmd_get_frequency_hz 4 (tuned tune))
      → ((f : ℕ) → f < 2 ^ 32 → tune f < 2 ^ 32)
      → IsRegister p
          (fcd_set_frequency_hz p (some dev))
          (fetch_frequency p dev)
          tune
          (λ _. true)
          (λ freq. freq < 2 ^ 32)
          (HoldsFrequency setting)
  frequency-IsRegister setting narrow = record {
    puts = λ freq held s typed good (r, _, _).
        let (w', a, r', h) = setting.sets s.world (le32 freq) r refl in
        rw
          (
            fcd_set_frequency_hz-wire p c dev freq s typed,
            transact-Answers p dev.path cmd_set_frequency_hz 0 (le32 freq) none 0 s [] w' a,
          )
          (refl, (r', h ∙ ap (λ f. le32 (tune f)) (of_le32-le32 freq typed), narrow freq typed));
    refuses = λ freq held s typed bad h. cc;
    fetches = λ freq s (r, held, small).
        let (w', a, r', h) = setting.gets s.world r in
        rw
          (fcd_get_frequency_hz_decodes p c dev freq 0 s (record s { world = w' }) small
            (transact-Answers p dev.path cmd_get_frequency_hz 0 [] (some (uninit p 4)) 4 s
              (le32 freq) w' (rw held at a)))
          (refl, refl, (r', h ∙ held, small));
  }

  -- If `hid_read` counts what it reads, and the dongle keeps of each frequency that is set the actual
  -- one that it tunes to, a function of the first and below 2^32, then any sequence of
  -- `fcd_set_frequency_hz` calls with frequencies below 2^32 and `fcd_get_frequency_hz` calls returns,
  -- with the replies of a register that keeps actual frequencies: each set returns 0, and each get
  -- returns 0 with the actual frequency of the one that was set last.
  pub frequency_hz-replies :
      (setting : Setting p dev.path cmd_set_frequency_hz cmd_get_frequency_hz 4 (tuned tune))
      (calls : List (Call ℕ)) (freq : ℕ) (s : Sys p)
      → ((f : ℕ) → f < 2 ^ 32 → tune f < 2 ^ 32)
      → Typed (λ f. f < 2 ^ 32) calls
      → HoldsFrequency setting freq s
      → Returns
          (λ answers t. answers ≡ replies_kept tune (λ _. true) calls freq)
          (serve p (fcd_set_frequency_hz p (some dev)) (fetch_frequency p dev) calls s)
  frequency_hz-replies setting calls freq s narrow typed h =
      serve-replies p (fcd_set_frequency_hz p (some dev)) (fetch_frequency p dev) tune (λ _. true)
        (λ f. f < 2 ^ 32) (HoldsFrequency setting) (frequency-IsRegister setting narrow) calls freq
        s typed h
