-- ===== src/Discovery.antt =====
-- The devices that are present and the handles to them: `fcd_open`, `fcd_close`, `fcd_query`,
-- `fcd_for_each` and the resets of lib/fcd_common.c.
pub mod Handle
pub mod Walk
pub mod Query
pub mod Reset
use libfcd.Base.{
  ℕ, zero, suc, ◌-◌, ◌%◌, Bool, true, false, Option, none, some, List, [], ◌∷◌, String, ℤ, pos,
  negsuc, minus, is_nonzero, if◌then◌else◌, poke,
}
use libfcd.Platform.{
  Platform, Cmd, pure, ◌>>=◌, ◌>>◌, or_fault, skip, DeviceInfo, hid_enumerate, hid_free_enumeration,
  hid_open_path, hid_close, malloc, free, strdup,
}
use libfcd.Command.{usb_vid, usb_pid, cmd_query, cmd_reset_bootloader, cmd_reset_application}
use libfcd.Device.{Fcd, Buf, fcd_get, fcd_set}
use libfcd.Sleep.{ms_sleep}

-- `len` as the `unsigned char` that `fcd_get` takes.
abbrev pub uchar_of : ℤ → ℕ
uchar_of (pos n) = n % 256
uchar_of (negsuc n) = 255 - n % 256

-- `str[len-1] = 0`.
abbrev pub terminate : Buf → ℤ → Option Buf
terminate none len = none
terminate (some bs) (pos zero) = none
terminate (some bs) (pos (suc n)) = elim (poke bs n (0 ∷ [])) [
  | none ↦ none
  | some b ↦ some (some b)
]
terminate (some bs) (negsuc n) = none

-- `sizeof(FCD)`: a pointer.
abbrev pub sizeof_fcd : ℕ
sizeof_fcd = 8

module _ (p : Platform) where
  unfoldable pub fcd_close : Option Fcd → Cmd p (Unit {0})
  fcd_close none = skip
  fcd_close (some dev) = do elim dev.path [ none ↦ skip | some path ↦ free p ]; free p

  -- The `path` of the first enumerated device.
  first_path : List DeviceInfo → Cmd p (Option String)
  first_path [] = pure none
  first_path (info ∷ infos) = elim info.path [ none ↦ pure none | some path ↦ strdup p path ]

  -- What is stored in `dev->path`.
  find_path : Option String → Cmd p (Option String)
  unfolding first_path
  find_path none = do
    devs ← hid_enumerate p usb_vid usb_pid
    path ← first_path devs
    hid_free_enumeration p devs
    pure path
  find_path (some path) = do
    hid_dev ← hid_open_path p (some path)
    copy ← elim hid_dev [ none ↦ pure none | some h ↦ strdup p path ]
    hid_close p hid_dev
    pure copy

  -- Whether the path is there decides whether the new device is returned.
  keep : Option String → Cmd p (Option Fcd)
  unfolding fcd_close
  keep none = do fcd_close (some (record { path = none })); pure none
  keep (some path) = pure (some (record { path = some path }))

  pub fcd_open : Option String → Cmd p (Option Fcd)
  unfolding find_path keep
  fcd_open path = do
    allocated ← malloc p sizeof_fcd
    if allocated then find_path path >>= keep else pure none

  -- Whether `str` is returned, rather than NULL, and the buffer afterwards.
  pub fcd_query : Option Fcd → Buf → ℤ → Cmd p (Bool × Buf)
  fcd_query dev str len = do
    (result, filled) ← fcd_get p dev cmd_query str (uchar_of len)
    if is_nonzero result
        then pure (false, filled)
        else (do ended ← or_fault (terminate filled len); pure (true, ended))

  -- A callback gets a path and the context, and returns a result and the context afterwards.
  abbrev pub PathCallback : Type 0 → Type 0
  PathCallback C = String → C → Cmd p (ℤ × C)

  pub walk : {C : Type 0} → PathCallback C → List DeviceInfo → C → Cmd p (ℤ × C)
  walk fn [] context = pure (pos 0, context)
  walk fn (current ∷ next) context = elim current.path [
    | none ↦ walk fn next context
    | some path ↦ do
      (result, context') ← fn path context
      if is_nonzero result then pure (result, context') else walk fn next context'
  ]

  pub fcd_for_each : {C : Type 0} → PathCallback C → C → Cmd p (ℤ × C)
  fcd_for_each fn context = do
    devs ← hid_enumerate p usb_vid usb_pid
    outcome ← walk fn devs context
    hid_free_enumeration p devs
    pure outcome

  -- The context is the reset command.
  pub fcd_reset : PathCallback ℕ
  fcd_reset path cmd = do
    dev ← fcd_open (some path)
    elim dev [ none ↦ skip | some d ↦ do fcd_set p (some d) cmd none 0; fcd_close (some d) ]
    pure (pos 0, cmd)

  pub fcd_reset_bootloader : ℕ → Cmd p (Unit {0})
  fcd_reset_bootloader delay_ms = do
    fcd_for_each fcd_reset cmd_reset_bootloader
    ms_sleep p delay_ms

  pub fcd_reset_application : ℕ → Cmd p (Unit {0})
  fcd_reset_application delay_ms = do
    fcd_for_each fcd_reset cmd_reset_application
    ms_sleep p delay_ms
