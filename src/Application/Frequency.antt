-- ===== src/Application/Frequency.antt =====
-- The tuner frequency: four bytes, low byte first, on either kind of host.
use libfcd.Base.{ℕ, ◌/◌, ◌%◌, ◌^◌, ◌<◌, ◌≡◌, refl, ◌∙◌, none, some, [], pos, arith}
use libfcd.Word.{Endian, convert_le_u32, load_u32}
use libfcd.Word.Wire.{le32, store-convert_u32, convert-load_u32, of_le32-le32}
use libfcd.Platform.{Platform, Sys, ok, uninit}
use libfcd.Command.{cmd_set_frequency_hz, cmd_get_frequency_hz}
use libfcd.Device.{Fcd, result_only}
use libfcd.Device.Transact.{ReadsCounted, transact}
use libfcd.Device.GetSet.{fcd_set-transact, fcd_get-transact}
use libfcd.Application.{fcd_set_frequency_hz, fcd_get_frequency_hz}

pub convert-le32 : (e : Endian) (w : ℕ) → w < 2 ^ 32 → convert_le_u32 e (load_u32 e (le32 w)) ≡ w
convert-le32 e w h =
    convert-load_u32 e (w % 256) (w / 256 % 256) (w / 65536 % 256) (w / 16777216 % 256)
      (omega arith)
    ∙ of_le32-le32 w h

module _ (p : Platform) (c : ReadsCounted p) (dev : Fcd) where
  -- If `hid_read` counts what it reads, then `fcd_set_frequency_hz` on an open device sends a
  -- frequency below 2 ^ 32 as four bytes, low byte first, on either kind of host.
  pub fcd_set_frequency_hz-wire :
      (freq : ℕ) (s : Sys p)
      → freq < 2 ^ 32
      → fcd_set_frequency_hz p (some dev) freq s
        ≡ result_only p (transact p dev.path cmd_set_frequency_hz 0 (le32 freq) none 0) s
  unfolding fcd_set_frequency_hz
  fcd_set_frequency_hz-wire freq s h =
      rw
        (
          store-convert_u32 p.endian freq h,
          fcd_set-transact p c dev cmd_set_frequency_hz (le32 freq) 4 s refl (omega arith),
        )
        refl

  -- If `hid_read` counts what it reads, and the device answers with the four bytes of a
  -- frequency, low byte first, then `fcd_get_frequency_hz` with a pointer that is not NULL stores
  -- the frequency and returns 0.
  pub fcd_get_frequency_hz_decodes :
      (freq x : ℕ) (s s' : Sys p)
      → freq < 2 ^ 32
      → transact p dev.path cmd_get_frequency_hz 0 [] (some (uninit p 4)) 4 s
        ≡ ok (pos 0, some (le32 freq)) s'
      → fcd_get_frequency_hz p (some dev) (some x) s ≡ ok (pos 0, some freq) s'
  unfolding fcd_get_frequency_hz
  fcd_get_frequency_hz_decodes freq x s s' h answer =
      rw
        (
          fcd_get-transact p c dev cmd_get_frequency_hz (uninit p 4) 4 s (omega arith)
              (omega arith),
          answer,
          convert-le32 p.endian freq h,
        )
        refl
