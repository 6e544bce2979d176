-- ===== src/FlashTool/Upgrade/Program.antt =====
-- `main` of src/flash.c, from the command line to the dongles' flash.
use libfcd.Base.{
  ◌||◌, ℕ, ◌^◌, ◌≤◌, ◌<◌, ◌≡◌, refl, ◌∙◌, inl, inr, true, false, Bool-cases, none, some, List, [],
  String, bit_or, ◌==◌, length, arith,
}
use libfcd.Platform.{Platform, Sys, ok}
use libfcd.Platform.Returns.{Returns, Returns-and_then, Returns-mono}
use libfcd.Command.{usb_vid, usb_pid}
use libfcd.Device.Transact.{ReadsCounted}
use libfcd.Bootloader.Start.{WholeBlocks}
use libfcd.Bootloader.Compare.{Matches}
use libfcd.Discovery.{fcd_for_each}
use libfcd.Discovery.Walk.{paths}
use libfcd.FlashOptions.{CommandLine, has, action_reset, action_write, action_verify}
use libfcd.FlashOptions.Switches.{
  Switches, all_off, switches, names, pack, has-pack, has_reset-pack,
}
use libfcd.FlashTool.{
  Host, Context, check, prepare_image, flash_all, restart, main, read_image, prepare_image,
  funcube_flash,
}
use libfcd.FlashTool.Parse.Plain.{all_plain, initial, with_switches, parse-plain}
use libfcd.FlashTool.Fleet.{Fleet, Undisturbed}
use libfcd.FlashTool.Upgrade.File.{Readable, Steady, read_image-reads}
use libfcd.FlashTool.Upgrade.Every.{
  Each, Each-mono, Upgradable, Upgraded, RestKept, fcd_for_each-AllDone,
}

module _ (p : Platform) (host : Host p) where
  -- With an action and a named image, and no operand, the checks let the work begin.
  check-passes :
      (ctx : Context) (sw : Switches) (name : String) (s : Sys p)
      → ctx.actions ≡ pack sw
      → (sw.writes || sw.verifies) ≡ true
      → ctx.filename ≡ some name
      → check p host [] ctx s ≡ ok tt s
  unfolding check
  check-passes ctx sw name s flags writes named =
      let busy : (ctx.actions == 0) ≡ false = rw flags ((has-pack sw).4 ∙ ground (arith, writes)) in
      elim (Bool-cases (has ctx.actions (bit_or action_write action_verify))) [
        | inl wanted ↦ rw (busy, wanted, named) refl
        | inr unwanted ↦ rw (busy, unwanted) refl
      ]

-- The context with the image in it.
abbrev pub filled : Context → List ℕ → Context
filled ctx bytes = record ctx { data_read = some bytes; size = length bytes }

pub Undisturbed-Steady : {p : Platform} (fleet : Fleet p) → Steady p (Undisturbed fleet.chip)
Undisturbed-Steady fleet = record {
  along = λ w w' w2 f g path r.
      let (r', same) = f path r in let (r2, same') = g path r' in (r2, λ x. same' x ∙ same x);
  allocates = λ n w. fleet.allocates n w;
}

-- `main` up to the walk over the devices: the context has the switches of the command line and the
-- image, and what the file functions keep the same is the same.
module _ (p : Platform) (host : Host p) (Same : p.World → p.World → Type 0)
    (steady : Steady p Same) where
  pub main-flash_all :
      (args : CommandLine) (name : String) (bytes : List ℕ) (s : Sys p) (Q : ℕ → Sys p → Type 0)
      → Readable host Same name bytes
      → args.operands ≡ []
      → all_plain args.options ≡ true
      → ((switches args.options all_off).writes || (switches args.options all_off).verifies) ≡ true
      → names args.options none ≡ some name
      → ((u : Sys p)
          → Same s.world u.world
          → Returns Q (
              flash_all p host
                (filled (with_switches initial (switches args.options all_off) (some name)) bytes)
                u))
      → Returns Q (main p host args s)
  unfolding main prepare_image
  main-flash_all args name bytes s Q image none_left only_sets writes named continues =
      let sw = switches args.options all_off in
      let ctx = with_switches initial sw (some name) in
      let wanted : has (pack sw) (bit_or action_write action_verify) ≡ true =
        (has-pack sw).3 ∙ writes in
      rw
        (
          parse-plain p host args.options initial all_off s refl only_sets,
          named,
          none_left,
          check-passes p host ctx sw name s refl writes refl,
          wanted,
        )
        (Returns-and_then _ Q (read_image p host name ctx s) _
          (read_image-reads p host Same steady name bytes image ctx s)
          (λ ready u (there, calm). rw there (continues u calm)))

module _ (p : Platform) (c : ReadsCounted p) (host : Host p) (fleet : Fleet p) where
  open fleet use {chip}

  -- A dongle is attached at the path, and its range is a number of whole blocks that the image
  -- reaches to the end of.
  abbrev pub Awaits : List ℕ → p.World → String → Type 0
  Awaits bytes w path =
      (chip path).ready w
      × WholeBlocks (chip path).first (chip path).last
      × ((chip path).last ≤ length bytes)

  abbrev pub AllHold : List ℕ → List String → p.World → p.World → Type 0
  AllHold bytes attached w w' =
      Each (λ path. Matches ((chip path).flash w') bytes (chip path).first (chip path).last)
        attached
      × RestKept fleet attached w w'

  pub Awaits-Upgradable :
      (ctx : Context) (bytes : List ℕ) (w : p.World) (xs : List String)
      → length bytes < 2 ^ 32
      → Each (Awaits bytes w) xs
      → Each (Upgradable p c fleet (filled ctx bytes) w) xs
  Awaits-Upgradable ctx bytes w xs small h =
      Each-mono (Awaits bytes w) (Upgradable p c fleet (filled ctx bytes) w) xs
        (λ path (r, whole, fits). (r, (whole, omega (arith, fits, small), omega (arith, small)))) h

  -- The walk over the devices, and the end of `main`.
  flash_all-AllHold :
      (ctx : Context) (bytes : List ℕ) (attached : List String) (s : Sys p)
      → has ctx.actions action_reset ≡ false
      → has ctx.actions action_write ≡ true
      → length bytes < 2 ^ 32
      → paths (p.hid_enumerate usb_vid usb_pid s.world).0 ≡ attached
      → Each (Awaits bytes s.world) attached
      → Returns
          (λ code t. (code ≡ 0) × AllHold bytes attached s.world t.world)
          (flash_all p host (filled ctx bytes) s)
  unfolding flash_all
  flash_all-AllHold ctx bytes attached s stays writes small found h = rw stays (
      Returns-and_then _ _ (fcd_for_each p (funcube_flash p) (filled ctx bytes) s) (restart p host)
        (fcd_for_each-AllDone p c fleet (filled ctx bytes) s writes
          (rw found (Awaits-Upgradable ctx bytes s.world attached small h)))
        (λ (z, ctx') t (good, same, each, calm).
          rw (good, same, stays)
            (
              refl,
              (
                Each-mono (Upgraded p c fleet (filled ctx bytes) t.world) _ attached
                    (λ path (r, held). held) (rw found at each),
                rw found at calm,
              ),
            )))

  -- If `hid_read` counts what it reads, the dongles answer as `Fleet` says, and the image file can be
  -- read as `Readable` says; if the command line has no operand, only options that set something,
  -- and leaves the write action on, the reset action off and a file name; and if the image is
  -- shorter than 2^32 bytes, and at the path of each device that is found a dongle is attached whose
  -- range is a number of whole blocks that the image reaches to the end of: then `main` returns 0
  -- and all of these dongles' flash holds the file's bytes at all addresses of the range, and the
  -- flash of every other dongle is as it was. The erase and verify actions may be on or off.
  pub main-AllHold :
      (args : CommandLine) (name : String) (bytes : List ℕ) (attached : List String) (s : Sys p)
      → Readable host (Undisturbed chip) name bytes
      → args.operands ≡ []
      → all_plain args.options ≡ true
      → (switches args.options all_off).writes ≡ true
      → (switches args.options all_off).resets ≡ false
      → names args.options none ≡ some name
      → length bytes < 2 ^ 32
      → ((w : p.World) → paths (p.hid_enumerate usb_vid usb_pid w).0 ≡ attached)
      → Each (Awaits bytes s.world) attached
      → Returns (λ code t. (code ≡ 0) × AllHold bytes attached s.world t.world) (main p host args s)
  main-AllHold args name bytes attached s image none_left only_sets writes stays named small finds
        h =
      let sw = switches args.options all_off in
      let ctx = with_switches initial sw (some name) in
      main-flash_all p host (Undisturbed chip) (Undisturbed-Steady fleet) args name bytes s _ image
        none_left only_sets (ground (arith, writes)) named
        (λ u calm.
          Returns-mono _ _ (flash_all p host (filled ctx bytes) u)
            (flash_all-AllHold ctx bytes attached u (has_reset-pack sw ∙ stays)
              ((has-pack sw).1 ∙ writes) small (finds u.world)
              (Each-mono (Awaits bytes s.world) (Awaits bytes u.world) attached
                (λ path (r, whole, fits). ((calm path r).0, whole, fits)) h))
            (λ code v (good, (held, beside)). (
              good,
              (
                held,
                λ other away r.
                    let (r1, f1) = calm other r in
                    let (r2, f2) = beside other away r1 in (r2, λ x. f2 x ∙ f1 x),
              ),
            )))
