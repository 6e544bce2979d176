-- ===== src/FlashTool/Upgrade/Failure.antt =====
-- `main` of src/flash.c, where one dongle's range does not suit the image.
use libfcd.Base.{◌≡◌, refl, ◌∙◌, true, false, none, some, List, [], ◌∷◌, ◌++◌, ℕ, String, ℤ}
use libfcd.Platform.{Platform, Sys}
use libfcd.Platform.Returns.{Returns, Returns-and_then, Returns-mono}
use libfcd.Command.{usb_vid, usb_pid}
use libfcd.Device.Transact.{ReadsCounted}
use libfcd.Discovery.{fcd_for_each}
use libfcd.Discovery.Walk.{paths}
use libfcd.FlashOptions.{CommandLine, has, action_reset, action_erase, action_write}
use libfcd.FlashOptions.Switches.{all_off, switches, names, has-pack, has_reset-pack}
use libfcd.FlashTool.{Host, Context, flash_all, restart, main, funcube_flash}
use libfcd.FlashTool.Parse.Plain.{all_plain, initial, with_switches}
use libfcd.FlashTool.Fleet.{Fleet, Undisturbed}
use libfcd.FlashTool.Upgrade.File.{Readable}
use libfcd.FlashTool.Upgrade.Every.{Each, Each-mono, Upgradable}
use libfcd.FlashTool.Upgrade.Program.{filled, Undisturbed-Steady, main-flash_all}
use libfcd.FlashTool.Upgrade.Refuse.{RefusalCode-nonzero}
use libfcd.FlashTool.Upgrade.Halt.{Bars, Halted, fcd_for_each-Halted}

module _ (p : Platform) (c : ReadsCounted p) (host : Host p) (fleet : Fleet p) where
  open fleet use {chip}

  abbrev pub Failed : Context → List String → String → p.World → ℕ → Sys p → Type 0
  Failed ctx before path w code t = (code ≡ 1) × ((r : ℤ) × Halted p c fleet ctx before path w r t)

  flash_all-Failed :
      (ctx : Context) (bytes : List ℕ) (before after : List String) (path : String) (s : Sys p)
      → let loaded = filled ctx bytes in
        paths (p.hid_enumerate usb_vid usb_pid s.world).0 ≡ before ++ path ∷ after
        → has ctx.actions action_reset ≡ false
        → has ctx.actions action_erase ≡ false
        → has ctx.actions action_write ≡ true
        → Each (Upgradable p c fleet loaded s.world) before
        → Bars p c fleet loaded s.world path
        → Returns (Failed loaded before path s.world) (flash_all p host loaded s)
  unfolding flash_all
  flash_all-Failed ctx bytes before after path s finds stays no_erase writes ups bars = rw stays (
      Returns-and_then _ _ (fcd_for_each p (funcube_flash p) (filled ctx bytes) s) (restart p host)
        (fcd_for_each-Halted p c fleet (filled ctx bytes) before after path s finds no_erase writes
          ups bars)
        (λ (r, ctx') t (same, halted).
          rw (same, stays, RefusalCode-nonzero p c fleet (filled ctx bytes) path r halted.0)
            (refl, (r, halted))))

  -- If `hid_read` counts what it reads, the dongles answer as `Fleet` says, and the image file can be
  -- read as `Readable` says; if the command line has no operand, only options that set something, and
  -- leaves the write action on, the reset and erase actions off, and a file name; and if, at the paths
  -- of the devices that are found, first come dongles whose ranges the image covers, and then one
  -- whose range starts at a 32-bit address and is empty or no whole number of blocks or goes beyond
  -- the image: then `main` returns 1, the last it prints is the message for that dongle, with its path
  -- and the code -2 or -3 that belongs to its range, the dongles before it hold the image, and the
  -- flash of all others is as it was.
  pub main-Failed :
      (args : CommandLine) (name : String) (bytes : List ℕ) (before after : List String)
      (path : String) (s : Sys p)
      → let sw = switches args.options all_off in
        let ctx = filled initial bytes in
        Readable host (Undisturbed chip) name bytes
        → args.operands ≡ []
        → all_plain args.options ≡ true
        → sw.writes ≡ true
        → sw.erases ≡ false
        → sw.resets ≡ false
        → names args.options none ≡ some name
        → ((w : p.World) → paths (p.hid_enumerate usb_vid usb_pid w).0 ≡ before ++ path ∷ after)
        → Each (Upgradable p c fleet ctx s.world) before
        → Bars p c fleet ctx s.world path
        → Returns (Failed ctx before path s.world) (main p host args s)
  main-Failed args name bytes before after path s image none_left only_sets writes no_erase stays
        named finds ups (ready, small, bad) =
      let sw = switches args.options all_off in
      let ctx = with_switches initial sw (some name) in
      let flags = has-pack sw in
      main-flash_all p host (Undisturbed chip) (Undisturbed-Steady fleet) args name bytes s _ image
        none_left only_sets (rw writes refl) named
        (λ u calm.
          Returns-mono _ _ (flash_all p host (filled ctx bytes) u)
            (flash_all-Failed ctx bytes before after path u (finds u.world)
              (has_reset-pack sw ∙ stays) (flags.0 ∙ no_erase) (flags.1 ∙ writes)
              (Each-mono _ _ before (λ x (ro, co). ((calm x ro).0, co)) ups)
              ((calm path ready).0, small, bad))
            (λ code v (one, (r, (verdict, each, kept, last))). (
              one,
              (
                r,
                (
                  verdict,
                  each,
                  λ other away ro.
                      let (r1, f1) = calm other ro in
                      let (r2, f2) = kept other away r1 in (r2, λ x. f2 x ∙ f1 x),
                  last,
                ),
              ),
            )))
