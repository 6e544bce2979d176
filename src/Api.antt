-- ===== src/Api.antt =====
-- include/fcd.h and lib/fcd_common.h as interfaces: records of the operations that they declare,
-- and the library that fills them.
pub mod Contract
use libfcd.Base.{ℕ, Bool, Option, List, String, ℤ}
use libfcd.Platform.{Platform, Cmd}
use libfcd.Device.{Fcd, Buf, fcd_io, fcd_get, fcd_set}
use libfcd.Sleep.{ms_sleep}
use libfcd.Discovery.{
  PathCallback, fcd_for_each, fcd_open, fcd_close, fcd_query, fcd_reset, fcd_reset_bootloader,
  fcd_reset_application,
}
use libfcd.Application.{
  BytePointer, fcd_set_dc_correction, fcd_get_dc_correction, fcd_set_iq_correction,
  fcd_get_iq_correction, fcd_set_bias_tee, fcd_get_bias_tee, fcd_set_frequency_hz,
  fcd_get_frequency_hz, fcd_set_value, fcd_get_value,
}
use libfcd.Bootloader.{
  fcd_bl_erase_application, fcd_bl_set_address, fcd_bl_get_address_range, fcd_bl_read_block,
  fcd_bl_write_block, fcd_bl_flash_write, fcd_bl_flash_verify,
}

-- What lib/fcd_common.h declares, for the files of the library among themselves.
pub record TransportApi (p : Platform) : Type 0 where
  pub sleep : ℕ → Cmd p (Unit {0})
  pub io : Option Fcd → ℕ → ℕ → Buf → ℕ → Buf → ℕ → Cmd p (ℤ × Buf)
  pub get : Option Fcd → ℕ → Buf → ℕ → Cmd p (ℤ × Buf)
  pub set : Option Fcd → ℕ → Buf → ℕ → Cmd p (ℤ × Buf)
  pub reset : PathCallback p ℕ

-- Outputs come back beside the result.
pub record DeviceApi (p : Platform) : Type 1 where
  pub for_each : {C : Type 0} → PathCallback p C → C → Cmd p (ℤ × C)
  pub open_path : Option String → Cmd p (Option Fcd)
  pub close : Option Fcd → Cmd p (Unit {0})
  pub query : Option Fcd → Buf → ℤ → Cmd p (Bool × Buf)

pub record ResetApi (p : Platform) : Type 0 where
  pub reset_bootloader : ℕ → Cmd p (Unit {0})
  pub reset_application : ℕ → Cmd p (Unit {0})

pub record BootloaderApi (p : Platform) : Type 0 where
  pub erase_application : Option Fcd → Cmd p ℤ
  pub set_address : Option Fcd → ℕ → Cmd p ℤ
  pub get_address_range : Option Fcd → Option ℕ → Option ℕ → Cmd p (ℤ × Option ℕ × Option ℕ)
  pub read_block : Option Fcd → Buf → Cmd p (ℤ × Buf)
  pub write_block : Option Fcd → Buf → Cmd p ℤ
  pub flash_write : Option Fcd → List ℕ → ℕ → Cmd p ℤ
  pub flash_verify : Option Fcd → List ℕ → ℕ → Cmd p ℤ

pub record ApplicationApi (p : Platform) : Type 0 where
  pub set_dc_correction : Option Fcd → ℤ → ℤ → Cmd p ℤ
  pub get_dc_correction : Option Fcd → Option ℤ → Option ℤ → Cmd p (ℤ × Option ℤ × Option ℤ)
  pub set_iq_correction : Option Fcd → ℤ → ℕ → Cmd p ℤ
  pub get_iq_correction : Option Fcd → Option ℤ → Option ℕ → Cmd p (ℤ × Option ℤ × Option ℕ)
  pub set_bias_tee : Option Fcd → ℕ → Cmd p ℤ
  pub get_bias_tee : Option Fcd → BytePointer → Cmd p (ℤ × Option ℕ)
  pub set_frequency_hz : Option Fcd → ℕ → Cmd p ℤ
  pub get_frequency_hz : Option Fcd → Option ℕ → Cmd p (ℤ × Option ℕ)
  pub set_value : Option Fcd → ℕ → ℕ → Cmd p ℤ
  pub get_value : Option Fcd → ℕ → BytePointer → Cmd p (ℤ × Option ℕ)

module _ (p : Platform) where
  abbrev pub transport_api : TransportApi p
  transport_api = record {
    sleep = ms_sleep p;
    io = fcd_io p;
    get = fcd_get p;
    set = fcd_set p;
    reset = fcd_reset p;
  }

  abbrev pub device_api : DeviceApi p
  device_api = record {
    for_each = fcd_for_each p;
    open_path = fcd_open p;
    close = fcd_close p;
    query = fcd_query p;
  }

  abbrev pub reset_api : ResetApi p
  reset_api = record {
    reset_bootloader = fcd_reset_bootloader p;
    reset_application = fcd_reset_application p;
  }

  abbrev pub bootloader_api : BootloaderApi p
  bootloader_api = record {
    erase_application = fcd_bl_erase_application p;
    set_address = fcd_bl_set_address p;
    get_address_range = fcd_bl_get_address_range p;
    read_block = fcd_bl_read_block p;
    write_block = fcd_bl_write_block p;
    flash_write = fcd_bl_flash_write p;
    flash_verify = fcd_bl_flash_verify p;
  }

  abbrev pub application_api : ApplicationApi p
  application_api = record {
    set_dc_correction = fcd_set_dc_correction p;
    get_dc_correction = fcd_get_dc_correction p;
    set_iq_correction = fcd_set_iq_correction p;
    get_iq_correction = fcd_get_iq_correction p;
    set_bias_tee = fcd_set_bias_tee p;
    get_bias_tee = fcd_get_bias_tee p;
    set_frequency_hz = fcd_set_frequency_hz p;
    get_frequency_hz = fcd_get_frequency_hz p;
    set_value = fcd_set_value p;
    get_value = fcd_get_value p;
  }
