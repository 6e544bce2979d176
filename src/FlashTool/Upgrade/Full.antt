-- ===== src/FlashTool/Upgrade/Full.antt =====
-- The full upgrade of src/flash.c: into the bootloader, the actions, and back.
use libfcd.Base.{
  ℕ, ◌^◌, ◌≤◌, ◌<◌, ◌≡◌, refl, ◌∙◌, true, none, some, List, [], ◌∷◌, String, length, arith,
}
use libfcd.Platform.{Platform, Sys, ok, ◌>>=◌}
use libfcd.Platform.Returns.{Returns, Returns-and_then, Returns-ok}
use libfcd.Command.{usb_vid, usb_pid}
use libfcd.Device.Outcome.{Balanced}
use libfcd.Device.Transact.{ReadsCounted}
use libfcd.Bootloader.Start.{WholeBlocks}
use libfcd.Bootloader.Compare.{Matches}
use libfcd.Discovery.{fcd_for_each, fcd_reset_bootloader, fcd_reset_application}
use libfcd.Discovery.Reset.{fcd_resets-Balanced}
use libfcd.Discovery.Walk.{paths}
use libfcd.FlashOptions.{CommandLine, has, action_reset, action_write}
use libfcd.FlashOptions.Switches.{all_off, switches, names, has-pack, has_reset-pack}
use libfcd.FlashTool.{Host, Context, flash_all, restart, main, funcube_flash}
use libfcd.FlashTool.Parse.Plain.{all_plain, initial, with_switches}
use libfcd.FlashTool.Fleet.{Fleet}
use libfcd.FlashTool.Upgrade.File.{Readable, Steady}
use libfcd.FlashTool.Upgrade.Every.{
  Each, Each-mono, Each-listed, listed, Upgradable, Upgraded, fcd_for_each-AllDone,
}
use libfcd.FlashTool.Upgrade.Reboot.{
  Calm, Reboots, Distinct, returned, Each-returned, fcd_reset_bootloader-ready,
}
use libfcd.FlashTool.Upgrade.Program.{filled, main-flash_all}

Calm-Steady :
    {p : Platform} (fleet : Fleet p) {ms : ℕ} (reboots : Reboots p fleet ms)
    → Steady p (Calm reboots.Waits reboots.Boots)
Calm-Steady fleet reboots = record {
  along = λ w w' w2 f g path. (λ x. (g path).0 ((f path).0 x), λ x. (g path).1 ((f path).1 x));
  allocates = λ n w. ((fleet.allocates n w).0, reboots.allocates n w);
}

Each-both :
    (P Q : String → Type 0) (xs : List String) → Each P xs → Each Q xs → Each (λ x. P x × Q x) xs
Each-both P Q [] h k = tt
Each-both P Q (x ∷ xs) (h, hs) (k, ks) = ((h, k), Each-both P Q xs hs ks)

module _ (p : Platform) (c : ReadsCounted p) (host : Host p) (fleet : Fleet p) (ms : ℕ)
    (reboots : Reboots p fleet ms) where
  open fleet use {chip}
  open reboots use {Waits, again}

  -- The dongle's range is a number of whole blocks that the image reaches to the end of.
  abbrev pub Covered : List ℕ → String → Type 0
  Covered bytes path =
      WholeBlocks (chip path).first (chip path).last × ((chip path).last ≤ length bytes)

  -- What is found: the dongles, while all of them wait, and when all have come back, at the paths
  -- `attached`, in whatever order.
  abbrev pub Finds : List String → List String → Type 0
  Finds waiting attached =
      ((w : p.World)
        → Each (λ path. Waits path w) waiting
        → paths (p.hid_enumerate usb_vid usb_pid w).0 ≡ waiting)
      × ((w : p.World)
          → Each (λ path. (chip (again path)).ready w) waiting
          → paths (p.hid_enumerate usb_vid usb_pid w).0 ≡ attached)
      × Each (λ path. listed (again path) attached ≡ true) waiting
      × Each (λ path. listed path (returned again waiting) ≡ true) attached

  -- There is a moment at which all of the dongles, at their new paths, hold the image, and the restart
  -- into the application that follows leads to the end.
  abbrev pub HeldBeforeRestart : List ℕ → List String → ℕ → Sys p → Type 0
  HeldBeforeRestart bytes waiting delay t =
      (u : Sys p) × (u' : Sys p) × (fcd_reset_application p delay u ≡ ok tt u')
      × (t.world ≡ u'.world)
      × Each
          (λ path.
            let dongle = chip (again path) in
            Matches (dongle.flash u.world) bytes dongle.first dongle.last)
          waiting

  -- The dongles that have come back can be upgraded.
  returned-Upgradable :
      (ctx : Context) (bytes : List ℕ) (waiting attached : List String) (w : p.World)
      → length bytes < 2 ^ 32
      → Finds waiting attached
      → Each (Covered bytes) attached
      → Each (λ path. (chip (again path)).ready w) waiting
      → Each (Upgradable p c fleet (filled ctx bytes) w) attached
  returned-Upgradable ctx bytes waiting attached w small (_, _, _, none_else) covered ready =
      let back = Each-returned (λ path. (chip path).ready w) again waiting ready in
      Each-mono (λ path. (listed path (returned again waiting) ≡ true) × Covered bytes path)
        (Upgradable p c fleet (filled ctx bytes) w) attached
        (λ path (among, (whole, fits)). (
          Each-listed (λ x. (chip x).ready w) path (returned again waiting) back among,
          (whole, omega (arith, fits, small), omega (arith, small)),
        ))
        (Each-both (λ path. listed path (returned again waiting) ≡ true) (Covered bytes) attached
          none_else covered)

  flash_all-Held :
      (ctx : Context) (bytes : List ℕ) (waiting attached : List String) (s : Sys p)
      → has ctx.actions action_reset ≡ true
      → has ctx.actions action_write ≡ true
      → length bytes < 2 ^ 32
      → Finds waiting attached
      → Distinct waiting
      → Each (Covered bytes) attached
      → Each (λ path. Waits path s.world) waiting
      → Returns
          (λ code t. (code ≡ 0) × HeldBeforeRestart bytes waiting ms t)
          (flash_all p host (filled (record ctx { delay = ms }) bytes) s)
  unfolding flash_all
  flash_all-Held ctx bytes waiting attached s resets writes small finds distinct covered waits =
      let loaded = filled (record ctx { delay = ms }) bytes in
      rw resets (
        Returns-and_then _ _ (fcd_reset_bootloader p ms s)
          (λ _. fcd_for_each p (funcube_flash p) loaded >>= restart p host)
          (fcd_reset_bootloader-ready p c fleet ms reboots waiting s (finds.0 s.world waits)
            distinct waits)
          (λ _ t ready.
            Returns-and_then _ _ (fcd_for_each p (funcube_flash p) loaded t) (restart p host)
              (fcd_for_each-AllDone p c fleet loaded t writes (
                rw (finds.1 t.world ready) (
                  returned-Upgradable (record ctx { delay = ms }) bytes waiting attached t.world
                    small finds covered ready)))
              (λ (z, ctx') u (good, same, each, _).
                let (_, u', back, _) =
                  Returns-ok (λ _ v. Balanced u v) (fcd_reset_application p ms u)
                    (fcd_resets-Balanced p c ms u).1 in
                let done = rw (finds.1 t.world ready) at each in
                rw (good, same, resets, back)
                  (
                    refl,
                    (
                      u,
                      u',
                      back,
                      refl,
                      Each-mono (λ path. listed (again path) attached ≡ true) _ waiting
                          (λ path among.
                            (Each-listed (Upgraded p c fleet loaded u.world) (again path) attached
                              done among).1)
                          finds.2,
                    ),
                  ))))

module _ (p : Platform) (c : ReadsCounted p) (host : Host p) (fleet : Fleet p) where
  open fleet use {chip}

  -- If `hid_read` counts what it reads, dongles wait in application mode at different paths, restart
  -- as `Reboots` says, within the 2000 milliseconds that `main` waits, and come back, each at a path
  -- that may be new, where they answer as `Fleet` says; if in all worlds in which all of them wait,
  -- exactly they are found, and in all worlds in which all of them have come back, exactly they are
  -- found at their new paths, in any order; if the image file can be read as `Readable` says and is
  -- shorter than 2^32 bytes; if the command line has no operand, only options that set something, and
  -- leaves the reset and write actions on and a file name; and if the range of each dongle that has
  -- come back is a number of whole blocks that the image reaches to the end of: then `main` returns
  -- 0, and before it restarts the dongles into their application, the flash of each holds the file's
  -- bytes at all addresses of its range. The erase and verify actions may be on or off.
  pub main-HeldBeforeRestart :
      (args : CommandLine) (name : String) (bytes : List ℕ) (waiting attached : List String)
      (s : Sys p) (reboots : Reboots p fleet 2000)
      → Readable host (Calm reboots.Waits reboots.Boots) name bytes
      → args.operands ≡ []
      → all_plain args.options ≡ true
      → (switches args.options all_off).writes ≡ true
      → (switches args.options all_off).resets ≡ true
      → names args.options none ≡ some name
      → length bytes < 2 ^ 32
      → Finds p c host fleet 2000 reboots waiting attached
      → Distinct waiting
      → Each (Covered p c host fleet 2000 reboots bytes) attached
      → Each (λ path. reboots.Waits path s.world) waiting
      → Returns
          (λ code t.
            (code ≡ 0) × HeldBeforeRestart p c host fleet 2000 reboots bytes waiting 2000 t)
          (main p host args s)
  main-HeldBeforeRestart args name bytes waiting attached s reboots image none_left only_sets writes
        resets named small finds distinct covered waits =
      let sw = switches args.options all_off in
      main-flash_all p host (Calm reboots.Waits reboots.Boots) (Calm-Steady fleet reboots) args name
        bytes s _ image none_left only_sets (ground (arith, writes)) named
        (λ u calm.
          flash_all-Held p c host fleet 2000 reboots (with_switches initial sw (some name)) bytes
            waiting attached u (has_reset-pack sw ∙ resets) ((has-pack sw).1 ∙ writes) small finds
            distinct covered
            (Each-mono (λ path. reboots.Waits path s.world) (λ path. reboots.Waits path u.world)
              waiting (λ path x. (calm path).0 x) waits))
