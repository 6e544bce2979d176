-- ===== src/Bootloader/Range.antt =====
-- Both flash functions are safe and end, whatever range and blocks the device reports.
use libfcd.Base.{ℕ, ◌^◌, ◌≤◌, ◌<◌, ◌≡◌, refl, ◌⊎◌, some, List, pos, minus, length}
use libfcd.Platform.{Platform, Sys}
use libfcd.Platform.Returns.{Returns, Returns-mono}
use libfcd.Device.{Fcd}
use libfcd.Device.Transact.{ReadsCounted}
use libfcd.Device.Outcome.{Ended, Balanced, Balanced-trans}
use libfcd.Device.GetSet.{Settled}
use libfcd.Bootloader.Single.{
  set_address-Settled, write_block-Settled, read_block-Ended, get_address_range-Balanced,
}
use libfcd.Bootloader.Invariant.{
  EarlyCode, VerifyCode, Starts, fcd_bl_flash_write-Inv, fcd_bl_flash_verify-Inv,
}
use libfcd.Bootloader.{fcd_bl_flash_write, fcd_bl_flash_verify}

module _ (p : Platform) (c : ReadsCounted p) (dev : Fcd) where
  -- Nothing but the world and `errno` has changed since `s0`.
  Balanced-Starts : (s0 : Sys p) → Starts p dev (Balanced s0)
  Balanced-Starts s0 = record {
    ranges = λ start end s b.
        Returns-mono _ _ _ (get_address_range-Balanced p c dev start end s)
          (λ _ s' b'. Balanced-trans b b');
    addresses = λ addr s b.
        Returns-mono (Settled s) _ _ (set_address-Settled p c dev addr s)
          (λ _ s' w. Balanced-trans b w.0);
  }

  -- If `hid_read` counts what it reads, then for an image at least as long as the size given, a
  -- 32-bit number, `fcd_bl_flash_write` on an open device always returns, whatever range the
  -- device reports: no block is taken from outside the image, the loop ends, no handle stays
  -- open, and the result is 0 or one of -1 to -5.
  pub fcd_bl_flash_write-Returns :
      (image : List ℕ) (size : ℕ) (s : Sys p)
      → size < 2 ^ 32
      → size ≤ length image
      → Returns
          (λ code s'. Balanced s s' × ((code ≡ pos 0) ⊎ EarlyCode code ⊎ (code ≡ minus 5)))
          (fcd_bl_flash_write p (some dev) image size s)
  fcd_bl_flash_write-Returns image size s small inside =
      fcd_bl_flash_write-Inv p dev (Balanced s) (Balanced-Starts s)
        (λ bs s1 room b.
          Returns-mono (Settled s1) _ _ (write_block-Settled p c dev bs s1 room)
            (λ _ s' w. Balanced-trans b w.0))
        image size s small inside
        (record { same_handles = refl; same_blocks = refl; same_printed = refl })

  -- If `hid_read` counts what it reads, then for an image at least as long as the size given, a
  -- 32-bit number, `fcd_bl_flash_verify` on an open device always returns, whatever range the
  -- device reports: no block is compared outside the image, the loop ends, no handle stays open,
  -- and the result is 0, 1 or one of -1 to -4 and -6.
  pub fcd_bl_flash_verify-Returns :
      (image : List ℕ) (size : ℕ) (s : Sys p)
      → size < 2 ^ 32
      → size ≤ length image
      → Returns
          (λ code s'. Balanced s s' × (VerifyCode code ⊎ EarlyCode code))
          (fcd_bl_flash_verify p (some dev) image size s)
  fcd_bl_flash_verify-Returns image size s small inside =
      fcd_bl_flash_verify-Inv p dev (Balanced s) (Balanced-Starts s)
        (λ room s1 fits b.
          Returns-mono (Ended s1 (some room)) _ _ (read_block-Ended p c dev room s1 fits)
            (λ _ s' w. Balanced-trans b w.0))
        image size s small inside
        (record { same_handles = refl; same_blocks = refl; same_printed = refl })
