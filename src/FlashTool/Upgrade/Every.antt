-- ===== src/FlashTool/Upgrade/Every.antt =====
-- `fcd_for_each` with `funcube_flash`, src/flash.c, over dongles that answer.
use text.Mathlib.Text.{◌==◌ as str_eq}
use text.Mathlib.TextEquality.{eq_iff}
use libfcd.Base.{
  ℕ, ◌≡◌, ◌≢◌, refl, ◌∙◌, inl, inr, Bool, true, false, ◌||◌, Bool-cases, List, [], ◌∷◌, String, ℤ,
  pos, arith,
}
use libfcd.Platform.{Platform, Sys, pure, ◌>>◌, hid_free_enumeration}
use libfcd.Platform.Returns.{Returns, Returns-and_then, Returns-mono}
use libfcd.Command.{usb_vid, usb_pid}
use libfcd.Device.{bytes_of}
use libfcd.Device.Transact.{ReadsCounted}
use libfcd.Bootloader.Compare.{Matches}
use libfcd.Discovery.{fcd_for_each}
use libfcd.Discovery.Walk.{paths, visit, unless_failed, fcd_for_each-visit}
use libfcd.FlashOptions.{has, action_write}
use libfcd.FlashTool.{Context, funcube_flash}
use libfcd.FlashTool.Fleet.{Fleet, OthersKept}
use libfcd.FlashTool.Upgrade.{Covers, funcube_flash-Holds}

-- The predicate holds of all elements.
abbrev pub Each : (String → Type 0) → List String → Type 0
Each P [] = Unit {0}
Each P (x ∷ xs) = P x × Each P xs

abbrev pub listed : String → List String → Bool
listed x [] = false
listed x (y ∷ ys) = str_eq y x || listed x ys

pub Each-mono :
    (P Q : String → Type 0) (xs : List String) → ((x : String) → P x → Q x) → Each P xs → Each Q xs
Each-mono P Q [] f h = h
Each-mono P Q (x ∷ xs) f (h, rest) = (f x h, Each-mono P Q xs f rest)

pub Each-listed :
    (P : String → Type 0) (x : String) (xs : List String) → Each P xs → listed x xs ≡ true → P x
Each-listed P x [] h e = cc
Each-listed P x (y ∷ ys) (h, rest) e = elim (Bool-cases (str_eq y x)) [
  | inl same ↦ rw ((eq_iff y x).0 same) at h
  | inr other ↦ Each-listed P x ys rest (ground (arith, e, other))
]

pub str_eq-false : (x y : String) → str_eq x y ≡ false → x ≢ y
str_eq-false x y e same = ground (arith, (eq_iff x y).1 same, e)

module _ {p : Platform} (fleet : Fleet p) where
  open fleet use {chip}

  -- The dongles at other paths than these are as they were.
  abbrev pub RestKept : List String → p.World → p.World → Type 0
  RestKept xs w w' =
      (other : String)
      → listed other xs ≡ false
      → (chip other).ready w
      → (chip other).ready w' × ((x : ℕ) → (chip other).flash w' x ≡ (chip other).flash w x)

module _ (p : Platform) (c : ReadsCounted p) (fleet : Fleet p) (ctx : Context) where
  open fleet use {chip}

  -- A dongle that is attached, with a range that the image covers.
  abbrev pub Upgradable : p.World → String → Type 0
  Upgradable w path = (chip path).ready w × Covers ctx (chip path).first (chip path).last

  -- A dongle that is attached, and holds the image.
  abbrev pub Upgraded : p.World → String → Type 0
  Upgraded w path =
      (chip path).ready w
      × Matches ((chip path).flash w) (bytes_of ctx.data_read) (chip path).first (chip path).last

  abbrev pub AllDone : List String → p.World → ℤ × Context → Sys p → Type 0
  AllDone xs w (r, ctx') t =
      (r ≡ pos 0) × (ctx' ≡ ctx) × Each (Upgraded t.world) xs × RestKept fleet xs w t.world

  pub visit-AllDone :
      (xs : List String) (s : Sys p)
      → has ctx.actions action_write ≡ true
      → Each (Upgradable s.world) xs
      → Returns (AllDone xs s.world) (visit p (funcube_flash p) xs ctx s)
  unfolding visit
  visit-AllDone [] s writes h = (refl, refl, tt, λ other away r. (r, λ x. refl))
  visit-AllDone (path ∷ xs) s writes ((r, covers), rest) =
      Returns-and_then _ (AllDone (path ∷ xs) s.world) (funcube_flash p path ctx s)
        (unless_failed p (funcube_flash p) (visit p (funcube_flash p) xs))
        (funcube_flash-Holds p c fleet path ctx s r covers writes)
        (λ (z, ctx') t (good, same, ((r', kept), held)).
          rw (good, same)
            (Returns-mono (AllDone xs t.world) (AllDone (path ∷ xs) s.world)
              (visit p (funcube_flash p) xs ctx t)
              (visit-AllDone xs t writes (
                Each-mono (Upgradable s.world) (Upgradable t.world) xs
                  (λ other (ro, co). (still t r' kept other ro, co)) rest))
              (λ (z', ctx2) u (good', same', each, calm).
                (good', same', (upgraded t u r' held each calm, each), beside t u kept calm))))
    where
      still :
          (t : Sys p)
          → (chip path).ready t.world
          → OthersKept fleet path s.world t.world
          → (other : String) → (chip other).ready s.world
          → (chip other).ready t.world
      still t r' kept other ro = elim (Bool-cases (str_eq path other)) [
        | inl same ↦ rw ((eq_iff path other).0 same) at r'
        | inr differs ↦ (kept other (str_eq-false path other differs) ro).0
      ]

      upgraded :
          (t u : Sys p)
          → (chip path).ready t.world
          → Matches
              ((chip path).flash t.world)
              (bytes_of ctx.data_read)
              (chip path).first
              (chip path).last
          → Each (Upgraded u.world) xs
          → RestKept fleet xs t.world u.world
          → Upgraded u.world path
      upgraded t u r' held each calm = elim (Bool-cases (listed path xs)) [
        | inl again ↦ Each-listed (Upgraded u.world) path xs each again
        | inr once ↦ let (ru, same) = calm path once r' in (ru, λ x lo hi. same x ∙ held x lo hi)
      ]

      beside :
          (t u : Sys p)
          → OthersKept fleet path s.world t.world
          → RestKept fleet xs t.world u.world
          → RestKept fleet (path ∷ xs) s.world u.world
      beside t u kept calm other away ro =
          let (rt, same) = kept other (str_eq-false path other (ground (arith, away))) ro in
          let (ru, same') = calm other (ground (arith, away)) rt in (ru, λ x. same' x ∙ same x)

  -- If `hid_read` counts what it reads, the dongles answer as `Fleet` says, and at the path of each
  -- enumerated device that has one a dongle is attached whose range the image covers, then
  -- `fcd_for_each` with `funcube_flash` and the write action returns 0 and reaches them all: each of
  -- these dongles' flash holds the image's bytes at all addresses of its range, and the flash of
  -- every other dongle is as it was.
  pub fcd_for_each-AllDone :
      (s : Sys p)
      → let devs = (p.hid_enumerate usb_vid usb_pid s.world).0 in
        has ctx.actions action_write ≡ true
        → Each (Upgradable s.world) (paths devs)
        → Returns (AllDone (paths devs) s.world) (fcd_for_each p (funcube_flash p) ctx s)
  fcd_for_each-AllDone s writes h =
      let (devs, w) = p.hid_enumerate usb_vid usb_pid s.world in
      let found = fleet.enumerates usb_vid usb_pid s.world in
      rw (fcd_for_each-visit p (funcube_flash p) ctx s) (
        Returns-and_then (AllDone (paths devs) w) (AllDone (paths devs) s.world)
          (visit p (funcube_flash p) (paths devs) ctx (record s { world = w }))
          (λ outcome. hid_free_enumeration p devs >> pure outcome)
          (visit-AllDone (paths devs) (record s { world = w }) writes
            (Each-mono (Upgradable s.world) (Upgradable w) (paths devs)
              (λ path (r, co). ((found path r).0, co)) h))
          (λ (z, ctx') t (good, same, each, calm).
            let freed = fleet.frees devs t.world in
            (
              good,
              same,
              Each-mono (Upgraded t.world) (Upgraded (p.hid_free_enumeration devs t.world))
                  (paths devs)
                  (λ path (r, held).
                    let (r', f) = freed path r in (r', λ x lo hi. f x ∙ held x lo hi))
                  each,
              λ other away ro.
                  let (r1, f1) = found other ro in
                  let (r2, f2) = calm other away r1 in
                  let (r3, f3) = freed other r2 in (r3, λ x. f3 x ∙ f2 x ∙ f1 x),
            )))
