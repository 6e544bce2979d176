-- ===== src/FlashTool/Upgrade/Judge.antt =====
-- `main` of src/flash.c with the verify action alone.
use libfcd.Base.{
  ℕ, ◌^◌, ◌<◌, ◌≡◌, refl, ap, ◌∙◌, ◌⊎◌, ◌↔◌, inl, inr, true, false, none, some, List, [], String,
  length,
}
use libfcd.Platform.{Platform, Sys, pure, ◌>>◌, hid_free_enumeration}
use libfcd.Platform.Returns.{Returns, Returns-and_then, Returns-mono}
use libfcd.Command.{usb_vid, usb_pid}
use libfcd.Device.Transact.{ReadsCounted}
use libfcd.Bootloader.Compare.{Matches}
use libfcd.Discovery.{fcd_for_each}
use libfcd.Discovery.Walk.{paths, visit, fcd_for_each-visit}
use libfcd.FlashOptions.{CommandLine, has, action_reset}
use libfcd.FlashOptions.Switches.{all_off, switches, names, has-pack, has_reset-pack}
use libfcd.FlashTool.{Host, Context, flash_all, restart, main, funcube_flash}
use libfcd.FlashTool.Parse.Plain.{all_plain, initial, with_switches}
use libfcd.FlashTool.Fleet.{Fleet, Undisturbed}
use libfcd.FlashTool.Upgrade.File.{Readable}
use libfcd.FlashTool.Upgrade.Every.{Each, Each-mono, Upgradable}
use libfcd.FlashTool.Upgrade.Program.{
  filled, Undisturbed-Steady, main-flash_all, Awaits, Awaits-Upgradable,
}
use libfcd.FlashTool.Upgrade.Verdict.{
  HoldsImage, Decides, Decides-iff, OnlyVerifies, Undisturbed-trans, Each-same, visit-Judged,
}

module _ (p : Platform) (c : ReadsCounted p) (host : Host p) (fleet : Fleet p) where
  open fleet use {chip}

  fcd_for_each-Judged :
      (ctx : Context) (s : Sys p)
      → let devs = (p.hid_enumerate usb_vid usb_pid s.world).0 in
        OnlyVerifies p c fleet ctx
        → Each (Upgradable p c fleet ctx s.world) (paths devs)
        → Returns
            (λ (r, ctx') t.
              (ctx' ≡ ctx)
              × Undisturbed chip s.world t.world
              × Decides p c fleet ctx (Each (HoldsImage p c fleet ctx s.world) (paths devs)) r)
            (fcd_for_each p (funcube_flash p) ctx s)
  fcd_for_each-Judged ctx s only h =
      let (devs, w) = p.hid_enumerate usb_vid usb_pid s.world in
      let found = fleet.enumerates usb_vid usb_pid s.world in
      let seen : Sys p = record s { world = w } in
      rw (fcd_for_each-visit p (funcube_flash p) ctx s) (
        Returns-and_then _ _ (visit p (funcube_flash p) (paths devs) ctx seen)
          (λ outcome. hid_free_enumeration p devs >> pure outcome)
          (visit-Judged p c fleet ctx (paths devs) seen only (
            Each-mono (Upgradable p c fleet ctx s.world) (Upgradable p c fleet ctx w) (paths devs)
              (λ path (r, co). ((found path r).0, co)) h))
          (λ (r, ctx') t (same, calm, verdict). (
            same,
            Undisturbed-trans fleet s.world t.world _
                (Undisturbed-trans fleet s.world w t.world found calm) (fleet.frees devs t.world),
            Decides-iff p c fleet ctx _ _ r (Each-same p c fleet ctx s seen (paths devs) found h)
                verdict,
          )))

  -- The dongles hold the bytes.
  abbrev pub AllMatch : List ℕ → p.World → List String → Type 0
  AllMatch bytes w attached =
      Each (λ path. Matches ((chip path).flash w) bytes (chip path).first (chip path).last) attached

  -- The exit status 0 for a yes, and 1 for a no.
  abbrev pub Status : Type 0 → ℕ → Type 0
  Status A code = ((code ≡ 0) × A) ⊎ ((code ≡ 1) × ¬ A)

  Status-iff : (A B : Type 0) (code : ℕ) → A ↔ B → Status A code → Status B code
  Status-iff A B code same (inl (e, a)) = inl (e, same.0 a)
  Status-iff A B code same (inr (e, not_a)) = inr (e, λ b. not_a (same.1 b))

  flash_all-Status :
      (ctx : Context) (bytes : List ℕ) (attached : List String) (s : Sys p)
      → has ctx.actions action_reset ≡ false
      → OnlyVerifies p c fleet ctx
      → length bytes < 2 ^ 32
      → paths (p.hid_enumerate usb_vid usb_pid s.world).0 ≡ attached
      → Each (Awaits p c host fleet bytes s.world) attached
      → Returns
          (λ code t.
            Undisturbed chip s.world t.world × Status (AllMatch bytes s.world attached) code)
          (flash_all p host (filled ctx bytes) s)
  unfolding flash_all
  flash_all-Status ctx bytes attached s stays only small found h = rw stays (
      Returns-and_then _ _ (fcd_for_each p (funcube_flash p) (filled ctx bytes) s) (restart p host)
        (fcd_for_each-Judged (filled ctx bytes) s only
          (rw found (Awaits-Upgradable p c host fleet ctx bytes s.world attached small h)))
        (λ (r, ctx') t (same, calm, verdict). elim verdict [
          | inl (good, all) ↦ rw (good, same, stays) (calm, inl (refl, rw found at all))
          | inr (bad, fails) ↦ rw (bad, same, stays) (calm, inr (refl, λ all. fails (rw found all)))
        ]))

  -- If `hid_read` counts what it reads, the dongles answer as `Fleet` says, and the image file can be
  -- read as `Readable` says; if the command line has no operand, only options that set something,
  -- and leaves the verify action and no other on and a file name; and if the image is shorter than
  -- 2^32 bytes, and at the path of each device that is found a dongle is attached whose range is a
  -- number of whole blocks that the image reaches to the end of: then `main` returns 0 where the
  -- flash of all of these dongles holds the file's bytes at all addresses of its range, and 1 where
  -- it does not, and no dongle's flash changes.
  pub main-Status :
      (args : CommandLine) (name : String) (bytes : List ℕ) (attached : List String) (s : Sys p)
      → Readable host (Undisturbed chip) name bytes
      → args.operands ≡ []
      → all_plain args.options ≡ true
      → switches args.options all_off
        ≡ record { resets = false; erases = false; writes = false; verifies = true }
      → names args.options none ≡ some name
      → length bytes < 2 ^ 32
      → ((w : p.World) → paths (p.hid_enumerate usb_vid usb_pid w).0 ≡ attached)
      → Each (Awaits p c host fleet bytes s.world) attached
      → Returns
          (λ code t.
            Undisturbed chip s.world t.world × Status (AllMatch bytes s.world attached) code)
          (main p host args s)
  main-Status args name bytes attached s image none_left only_sets only named small finds h =
      let sw = switches args.options all_off in
      let ctx = with_switches initial sw (some name) in
      let (erases, writes, verifies, _, _) = has-pack sw in
      main-flash_all p host (Undisturbed chip) (Undisturbed-Steady fleet) args name bytes s _ image
        none_left only_sets (rw only refl) named
        (λ u calm.
          Returns-mono _ _ (flash_all p host (filled ctx bytes) u)
            (flash_all-Status ctx bytes attached u (has_reset-pack sw ∙ ap (λ t. t.resets) only)
              (
                erases ∙ ap (λ t. t.erases) only,
                writes ∙ ap (λ t. t.writes) only,
                verifies ∙ ap (λ t. t.verifies) only,
              )
              small (finds u.world)
              (Each-mono (Awaits p c host fleet bytes s.world) (Awaits p c host fleet bytes u.world)
                attached (λ path (r, whole, fits). ((calm path r).0, whole, fits)) h))
            (λ code v (calm', verdict). (
              Undisturbed-trans fleet s.world u.world v.world calm calm',
              Status-iff _ _ code
                  (Each-same p c fleet (filled ctx bytes) s u attached calm
                    (Awaits-Upgradable p c host fleet ctx bytes s.world attached small h))
                  verdict,
            )))
