-- ===== src/FlashTool/Upgrade/Reboot.antt =====
-- `fcd_reset_bootloader` on dongles that are in application mode and answer.
use libfcd.Base.{ℕ, ◌≡◌, ◌≢◌, refl, sym, false, List, [], ◌∷◌, some, String, ℤ, pos, arith}
use libfcd.Platform.{Platform, Sleeper, Sys, DeviceInfo, pure, ◌>>◌, hid_free_enumeration}
use libfcd.Platform.Returns.{Returns, Returns-and_then, Returns-mono}
use libfcd.Command.{usb_vid, usb_pid, cmd_reset_bootloader}
use libfcd.Device.Answers.{Sent}
use libfcd.Device.Transact.{ReadsCounted, request}
use libfcd.Sleep.Naps.{Sleeps, ms_sleep-Sleeps}
use libfcd.Discovery.{fcd_reset, fcd_reset_bootloader, sizeof_fcd}
use libfcd.Discovery.Handle.{fcd_open-opens}
use libfcd.Discovery.Reset.{fcd_reset-Sent, fcd_reset_bootloader-Returns}
use libfcd.Discovery.Walk.{paths, visit, unless_failed, fcd_for_each-visit}
use libfcd.FlashTool.Fleet.{Fleet}
use libfcd.FlashTool.Upgrade.Every.{Each, Each-mono, listed, str_eq-false}

-- What stays as it is, for dongles that wait in application mode and for ones that restart.
abbrev pub Calm : {W : Type 0} → (String → W → Type 0) → (String → W → Type 0) → W → W → Type 0
Calm Waits Boots w w' =
    (path : String) → (Waits path w → Waits path w') × (Boots path w → Boots path w')

-- The same, for the dongles at other paths.
abbrev pub CalmBeside :
    {W : Type 0} → (String → W → Type 0) → (String → W → Type 0) → String → W → W → Type 0
CalmBeside Waits Boots path w w' =
    (other : String)
    → path ≢ other
    → (Waits other w → Waits other w') × (Boots other w → Boots other w')

-- Dongles that can be told to restart: one that waits in application mode boots when the reset
-- command has been sent to it. It reconnects, and `ms` milliseconds later it is ready for the
-- bootloader commands, at a path that may be another one: `again` gives the new path by the old.
pub record Reboots (p : Platform) (fleet : Fleet p) (ms : ℕ) : Type 1 where
  pub Waits : String → p.World → Type 0
  pub Boots : String → p.World → Type 0
  pub again : String → String
  pub allocates : (n : ℕ) (w : p.World) → Calm Waits Boots w (p.malloc n w).1
  pub enumerates : (w : p.World) → Calm Waits Boots w (p.hid_enumerate usb_vid usb_pid w).1
  pub frees :
      (devs : List DeviceInfo) (w : p.World) → Calm Waits Boots w (p.hid_free_enumeration devs w)
  pub opens :
      (path : String) (w : p.World)
      → Waits path w
      → (h : p.Handle) × ((p.hid_open_path (some path) w).0 ≡ some h)
        × Calm Waits Boots w
            (p.hid_close (some h) (p.strdup path (p.hid_open_path (some path) w).1).1)
  pub resets :
      (path : String) (w : p.World)
      → Waits path w
      → (w' : p.World) × Sent p (some path) w (request cmd_reset_bootloader 0 []) 0 w'
        × Boots path w'
        × CalmBeside Waits Boots path w w'
  pub wakes :
      (path : String) (w : p.World)
      → Boots path w
      → Sleeps p p.sleeper ms (λ w'. (fleet.chip (again path)).ready w') w

-- No path is there twice.
abbrev pub Distinct : List String → Type 0
Distinct [] = Unit {0}
Distinct (x ∷ xs) = (listed x xs ≡ false) × Distinct xs

-- The paths at which the dongles come back.
abbrev pub returned : (String → String) → List String → List String
returned again [] = []
returned again (x ∷ xs) = again x ∷ returned again xs

pub Each-returned :
    (P : String → Type 0) (again : String → String) (xs : List String)
    → Each (λ x. P (again x)) xs
    → Each P (returned again xs)
Each-returned P again [] h = tt
Each-returned P again (x ∷ xs) (h, rest) = (h, Each-returned P again xs rest)

Sleeps-unit :
    (p : Platform) (by : Sleeper) (ms : ℕ) (w : p.World) → Sleeps p by ms (λ _. Unit {0}) w
Sleeps-unit p Sleeper.by_usleep ms w = λ ns e. tt
Sleeps-unit p Sleeper.by_nap ms w = tt
Sleeps-unit p Sleeper.unavailable ms w = tt

Sleeps-both :
    (p : Platform) (by : Sleeper) (ms : ℕ) (P Q : p.World → Type 0) (w : p.World)
    → Sleeps p by ms P w
    → Sleeps p by ms Q w
    → Sleeps p by ms (λ v. P v × Q v) w
Sleeps-both p Sleeper.by_usleep ms P Q w f g = λ ns e. (f ns e, g ns e)
Sleeps-both p Sleeper.by_nap ms P Q w f g = (f, g)
Sleeps-both p Sleeper.unavailable ms P Q w f g = (f, g)

module _ (p : Platform) (c : ReadsCounted p) (fleet : Fleet p) (ms : ℕ)
    (reboots : Reboots p fleet ms) where
  open reboots use {Waits, Boots, again}

  reset-Boots :
      (path : String) (s : Sys p)
      → Waits path s.world
      → Returns
          (λ (r, cmd) t.
            (r ≡ pos 0)
            × (cmd ≡ cmd_reset_bootloader)
            × Boots path t.world
            × CalmBeside Waits Boots path s.world t.world)
          (fcd_reset p path cmd_reset_bootloader s)
  reset-Boots path s waits =
      let w1 = (p.malloc sizeof_fcd s.world).1 in
      let calm = reboots.allocates sizeof_fcd s.world in
      let waits1 = (calm path).0 waits in
      let (h, opened, calm') = reboots.opens path w1 waits1 in
      let w2 = p.hid_close (some h) (p.strdup path (p.hid_open_path (some path) w1).1).1 in
      let (w3, sent, boots, beside) = reboots.resets path w2 ((calm' path).0 waits1) in
      Returns-mono _ _ (fcd_reset p path cmd_reset_bootloader s)
        (fcd_reset-Sent p c path cmd_reset_bootloader s w2 w3
          (fcd_open-opens p path h s (fleet.allocates sizeof_fcd s.world).0 opened
            (fleet.copies path (p.hid_open_path (some path) w1).1).0)
          sent)
        (λ (r, cmd) t (good, same, world). (
          good,
          same,
          rw world boots,
          rw world (λ other ne. (
            λ x. (beside other ne).0 ((calm' other).0 ((calm other).0 x)),
            λ x. (beside other ne).1 ((calm' other).1 ((calm other).1 x)),
          )),
        ))

  abbrev AllBoot : List String → p.World → ℤ × ℕ → Sys p → Type 0
  AllBoot xs w (r, cmd) t =
      (r ≡ pos 0)
      × (cmd ≡ cmd_reset_bootloader)
      × Each (λ path. Boots path t.world) xs
      × ((other : String) → listed other xs ≡ false → Boots other w → Boots other t.world)

  Each-others :
      (path : String) (w w' : p.World) (xs : List String)
      → CalmBeside Waits Boots path w w'
      → listed path xs ≡ false
      → Each (λ x. Waits x w) xs
      → Each (λ x. Waits x w') xs
  Each-others path w w' [] beside once h = tt
  Each-others path w w' (x ∷ xs) beside once (h, rest) = (
    (beside x (λ e. str_eq-false x path (ground (arith, once)) (sym e))).0 h,
    Each-others path w w' xs beside (ground (arith, once)) rest,
  )

  visit-AllBoot :
      (xs : List String) (s : Sys p)
      → Distinct xs
      → Each (λ path. Waits path s.world) xs
      → Returns (AllBoot xs s.world) (visit p (fcd_reset p) xs cmd_reset_bootloader s)
  unfolding visit
  visit-AllBoot [] s distinct h = (refl, refl, tt, λ other away x. x)
  visit-AllBoot (path ∷ xs) s (once, distinct) (waits, rest) =
      Returns-and_then _ (AllBoot (path ∷ xs) s.world) (fcd_reset p path cmd_reset_bootloader s)
        (unless_failed p (fcd_reset p) (visit p (fcd_reset p) xs)) (reset-Boots path s waits)
        (λ (z, cmd) t (good, same, boots, beside).
          rw (good, same)
            (Returns-mono (AllBoot xs t.world) (AllBoot (path ∷ xs) s.world)
              (visit p (fcd_reset p) xs cmd_reset_bootloader t)
              (visit-AllBoot xs t distinct (Each-others path s.world t.world xs beside once rest))
              (λ (z', cmd') u (good', same', each, kept). (
                good',
                same',
                (kept path once boots, each),
                λ other away x.
                    kept other (ground (arith, away))
                      ((beside other (str_eq-false path other (ground (arith, away)))).1 x),
              ))))

  Sleeps-Each :
      (xs : List String) (w : p.World)
      → Each (λ path. Boots path w) xs
      → Sleeps p p.sleeper ms (λ w'. Each (λ path. (fleet.chip (again path)).ready w') xs) w
  Sleeps-Each [] w h = Sleeps-unit p p.sleeper ms w
  Sleeps-Each (x ∷ xs) w (boots, rest) =
      Sleeps-both p p.sleeper ms (λ w'. (fleet.chip (again x)).ready w')
        (λ w'. Each (λ path. (fleet.chip (again path)).ready w') xs) w (reboots.wakes x w boots)
        (Sleeps-Each xs w rest)

  -- The devices that wait are told to restart, one after another, and are ready after the sleep, each
  -- at its new path.
  pub fcd_reset_bootloader-ready :
      (waiting : List String) (s : Sys p)
      → paths (p.hid_enumerate usb_vid usb_pid s.world).0 ≡ waiting
      → Distinct waiting
      → Each (λ path. Waits path s.world) waiting
      → Returns
          (λ _ t. Each (λ path. (fleet.chip (again path)).ready t.world) waiting)
          (fcd_reset_bootloader p ms s)
  fcd_reset_bootloader-ready waiting s found distinct h =
      let (devs, w) = p.hid_enumerate usb_vid usb_pid s.world in
      let calm = reboots.enumerates s.world in
      fcd_reset_bootloader-Returns p c ms s (λ t. Each (λ path. Boots path t.world) waiting)
        (λ t. Each (λ path. (fleet.chip (again path)).ready t.world) waiting)
        (rw (fcd_for_each-visit p (fcd_reset p) cmd_reset_bootloader s, found)
          (Returns-and_then (AllBoot waiting w) (λ _ t. Each (λ path. Boots path t.world) waiting)
            (visit p (fcd_reset p) waiting cmd_reset_bootloader (record s { world = w }))
            (λ outcome. hid_free_enumeration p devs >> pure outcome)
            (visit-AllBoot waiting (record s { world = w }) distinct
              (Each-mono (λ path. Waits path s.world) (λ path. Waits path w) waiting
                (λ path x. (calm path).0 x) h))
            (λ (z, cmd) t (_, _, each, _).
              Each-mono (λ path. Boots path t.world)
                (λ path. Boots path (p.hid_free_enumeration devs t.world)) waiting
                (λ path x. (reboots.frees devs t.world path).1 x) each)))
        (λ t each.
          ms_sleep-Sleeps p ms (λ w'. Each (λ path. (fleet.chip (again path)).ready w') waiting) t
            (Sleeps-Each waiting t.world each))
