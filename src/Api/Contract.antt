-- ===== src/Api/Contract.antt =====
-- What include/fcd.h and lib/fcd_common.h promise of every function on an open device, and that the library keeps it.
use libfcd.Base.{
  ℕ, ◌≤◌, ◌<◌, ◌^◌, ◌≡◌, ◌⊎◌, Option, none, some, List, String, ℤ, pos, minus, length,
}
use libfcd.Platform.{Platform, Sys, Run}
use libfcd.Platform.Returns.{Returns, Returns-mono}
use libfcd.Device.{Fcd, Buf}
use libfcd.Device.Transact.{ReadsCounted, Holds}
use libfcd.Device.Outcome.{Balanced, Ended, fcd_io-Ended}
use libfcd.Bootloader.Single.{
  erase_application-Settled, set_address-Settled, write_block-Settled, read_block-Ended,
  get_address_range-Balanced,
}
use libfcd.Bootloader.Invariant.{EarlyCode, VerifyCode}
use libfcd.Bootloader.Range.{fcd_bl_flash_write-Returns, fcd_bl_flash_verify-Returns}
use libfcd.Application.{BytePointer}
use libfcd.Application.Calls.{
  Code, set_dc_correction-Settled, get_dc_correction-Coded, set_iq_correction-Settled,
  get_iq_correction-Coded, set_bias_tee-Settled, get_bias_tee-Coded, set_frequency_hz-Settled,
  get_frequency_hz-Coded, set_value-Settled, get_value-Coded,
}
use libfcd.Device.GetSet.{fcd_get-Ended, fcd_set-Ended}
use libfcd.Sleep.Naps.{ms_sleep-Balanced}
use libfcd.Discovery.Reset.{fcd_reset-Balanced}
use libfcd.Api.{
  TransportApi, transport_api, BootloaderApi, bootloader_api, ApplicationApi, application_api,
}

module _ {p : Platform} where
  -- The run returns, and leaves handles, blocks and output as they were.
  abbrev pub Clean : {A : Type 0} → Sys p → Run p A → Type 0
  Clean s r = Returns (λ _ t. Balanced s t) r

  -- Each function of the bootloader, with buffers as large as the header asks for.
  pub record BootloaderContract (api : BootloaderApi p) : Type 0 where
    pub erases : (dev : Fcd) (s : Sys p) → Clean s (api.erase_application (some dev) s)
    pub addresses : (dev : Fcd) (addr : ℕ) (s : Sys p) → Clean s (api.set_address (some dev) addr s)
    pub ranges :
        (dev : Fcd) (start end : Option ℕ) (s : Sys p)
        → Clean s (api.get_address_range (some dev) start end s)
    pub reads :
        (dev : Fcd) (block : List ℕ) (s : Sys p)
        → 48 ≤ length block
        → Clean s (api.read_block (some dev) (some block) s)
    pub writes :
        (dev : Fcd) (block : List ℕ) (s : Sys p)
        → 48 ≤ length block
        → Clean s (api.write_block (some dev) (some block) s)
    pub flashes :
        (dev : Fcd) (image : List ℕ) (size : ℕ) (s : Sys p)
        → size < 2 ^ 32
        → size ≤ length image
        → Clean s (api.flash_write (some dev) image size s)
    pub verifies :
        (dev : Fcd) (image : List ℕ) (size : ℕ) (s : Sys p)
        → size < 2 ^ 32
        → size ≤ length image
        → Clean s (api.flash_verify (some dev) image size s)

clean :
    {p : Platform} {A : Type 0} (R : A → Type 0) (s : Sys p) (r : Run p A)
    → Returns (λ a t. Balanced s t × R a) r
    → Clean s r
clean R s r h = Returns-mono (λ a t. Balanced s t × R a) (λ _ t. Balanced s t) r h (λ a t e. e.0)

-- If `hid_read` counts what it reads, every function of the bootloader interface returns on an open
-- device, with buffers as large as the header asks for, and leaves the open handles, the
-- allocated blocks and the output as they were.
pub bootloader_api-BootloaderContract :
    (p : Platform) → ReadsCounted p → BootloaderContract (bootloader_api p)
bootloader_api-BootloaderContract p c = record {
  erases = λ dev s. clean Code s _ (erase_application-Settled p c dev s);
  addresses = λ dev addr s. clean Code s _ (set_address-Settled p c dev addr s);
  ranges = λ dev start end s. get_address_range-Balanced p c dev start end s;
  reads = λ dev block s h.
      Returns-mono (Ended s (some block)) (λ _ t. Balanced s t) _
        (read_block-Ended p c dev block s h) (λ (r, out) t e. e.0);
  writes = λ dev block s h. clean Code s _ (write_block-Settled p c dev block s h);
  flashes = λ dev image size s small inside.
      clean (λ code. (code ≡ pos 0) ⊎ EarlyCode code ⊎ (code ≡ minus 5)) s _
        (fcd_bl_flash_write-Returns p c dev image size s small inside);
  verifies = λ dev image size s small inside.
      clean (λ code. VerifyCode code ⊎ EarlyCode code) s _
        (fcd_bl_flash_verify-Returns p c dev image size s small inside);
}

-- The calls between the files of the library, with buffers of the lengths given: 0 is returned, or
-- -1 and the buffer kept; a sleep changes nothing but the world, and a reset lets
-- the walk go on.
pub record TransportContract {p : Platform} (api : TransportApi p) : Type 0 where
  pub sleeps : (ms : ℕ) (s : Sys p) → Clean s (api.sleep ms s)
  pub exchanges :
      (dev : Fcd) (cmd iskip : ℕ) (idata : Buf) (ilen : ℕ) (odata : Buf) (olen : ℕ) (s : Sys p)
      → iskip ≤ 63
      → Holds idata ilen
      → Holds odata olen
      → Returns (Ended s odata) (api.io (some dev) cmd iskip idata ilen odata olen s)
  pub gets :
      (dev : Fcd) (cmd : ℕ) (room : Buf) (n : ℕ) (s : Sys p)
      → Holds room n
      → Returns (Ended s room) (api.get (some dev) cmd room n s)
  pub sets :
      (dev : Fcd) (cmd : ℕ) (bytes : Buf) (n : ℕ) (s : Sys p)
      → Holds bytes n
      → Returns (Ended s none) (api.set (some dev) cmd bytes n s)
  pub resets :
      (path : String) (cmd : ℕ) (s : Sys p)
      → Returns
          (λ (result, context) t. (result ≡ pos 0) × (context ≡ cmd) × Balanced s t)
          (api.reset path cmd s)

pub transport_api-TransportContract :
    (p : Platform) → ReadsCounted p → TransportContract (transport_api p)
transport_api-TransportContract p c = record {
  sleeps = λ ms s. ms_sleep-Balanced p ms s;
  exchanges = λ dev cmd iskip idata ilen odata olen s skipped supply room.
      fcd_io-Ended p c dev cmd iskip idata ilen odata olen s skipped supply room;
  gets = λ dev cmd room n s h. fcd_get-Ended p c dev cmd room n s h;
  sets = λ dev cmd bytes n s h. fcd_set-Ended p c dev cmd bytes n s h;
  resets = λ path cmd s. fcd_reset-Balanced p c path cmd s;
}

-- Each function of the application interface. A get stores through a pointer that is there.
module _ {p : Platform} where
  pub record ApplicationContract (api : ApplicationApi p) : Type 0 where
    pub sets_dc :
        (dev : Fcd) (i q : ℤ) (s : Sys p) → Clean s (api.set_dc_correction (some dev) i q s)
    pub gets_dc :
        (dev : Fcd) (i q : Option ℤ) (s : Sys p) → Clean s (api.get_dc_correction (some dev) i q s)
    pub sets_iq :
        (dev : Fcd) (phase : ℤ) (gain : ℕ) (s : Sys p)
        → Clean s (api.set_iq_correction (some dev) phase gain s)
    pub gets_iq :
        (dev : Fcd) (phase : Option ℤ) (gain : Option ℕ) (s : Sys p)
        → Clean s (api.get_iq_correction (some dev) phase gain s)
    pub sets_bias :
        (dev : Fcd) (state : ℕ) (s : Sys p) → Clean s (api.set_bias_tee (some dev) state s)
    pub gets_bias :
        (dev : Fcd) (state : BytePointer) (s : Sys p)
        → 1 ≤ length state.address
        → Clean s (api.get_bias_tee (some dev) state s)
    pub sets_frequency :
        (dev : Fcd) (freq : ℕ) (s : Sys p) → Clean s (api.set_frequency_hz (some dev) freq s)
    pub gets_frequency :
        (dev : Fcd) (freq : ℕ) (s : Sys p) → Clean s (api.get_frequency_hz (some dev) (some freq) s)
    pub sets_value :
        (dev : Fcd) (id value : ℕ) (s : Sys p) → Clean s (api.set_value (some dev) id value s)
    pub gets_value :
        (dev : Fcd) (id : ℕ) (value : BytePointer) (s : Sys p)
        → 1 ≤ length value.address
        → Clean s (api.get_value (some dev) id value s)

-- If `hid_read` counts what it reads, every function of the application interface returns on an open
-- device, whatever its arguments are (but a frequency is not read into NULL), and leaves the open
-- handles, the allocated blocks and the output as they were.
pub application_api-ApplicationContract :
    (p : Platform) → ReadsCounted p → ApplicationContract (application_api p)
application_api-ApplicationContract p c = record {
  sets_dc = λ dev i q s. clean Code s _ (set_dc_correction-Settled p c dev i q s);
  gets_dc = λ dev i q s. clean (λ (r, x, y). Code r) s _ (get_dc_correction-Coded p c dev i q s);
  sets_iq = λ dev phase gain s. clean Code s _ (set_iq_correction-Settled p c dev phase gain s);
  gets_iq = λ dev phase gain s.
      clean (λ (r, x, y). Code r) s _ (get_iq_correction-Coded p c dev phase gain s);
  sets_bias = λ dev state s. clean Code s _ (set_bias_tee-Settled p c dev state s);
  gets_bias =
      λ dev state s h. clean (λ (r, out). Code r) s _ (get_bias_tee-Coded p c dev state s h);
  sets_frequency = λ dev freq s. clean Code s _ (set_frequency_hz-Settled p c dev freq s);
  gets_frequency =
      λ dev freq s. clean (λ (r, out). Code r) s _ (get_frequency_hz-Coded p c dev freq s);
  sets_value = λ dev id value s. clean Code s _ (set_value-Settled p c dev id value s);
  gets_value =
      λ dev id value s h. clean (λ (r, out). Code r) s _ (get_value-Coded p c dev id value s h);
}
