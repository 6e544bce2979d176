-- ===== src/Discovery/Walk.antt =====
-- `fcd_for_each` calls its function on the devices in order, up to the first failure.
use mathlib.Core.Path.{fun_ext}
use libfcd.Base.{
  ◌≡◌, ◌≢◌, refl, ap, ◌∙◌, true, none, some, List, [], ◌∷◌, ◌++◌, String, ℤ, pos, negsuc, zero, suc,
  is_nonzero, if◌then◌else◌, Bool-cases, Option-cases, inl, inr,
}
use libfcd.Platform.{
  Platform, Sys, Run, ok, exit, fault, out_of_fuel, Cmd, and_then, pure, ◌>>=◌, ◌>>◌, DeviceInfo,
  hid_enumerate, hid_free_enumeration,
}
use libfcd.Platform.Returns.{Returns, Returns-and_then}
use libfcd.Command.{usb_vid, usb_pid}
use libfcd.Discovery.{PathCallback, walk, fcd_for_each}

-- The devices that have a path, in order.
abbrev pub paths : List DeviceInfo → List String
paths [] = []
paths (d ∷ ds) = elim d.path [ none ↦ paths ds | some path ↦ path ∷ paths ds ]

is_nonzero_of_ne : (r : ℤ) → r ≢ pos 0 → is_nonzero r ≡ true
is_nonzero_of_ne (pos zero) h = absurd (h refl)
is_nonzero_of_ne (pos (suc n)) h = refl
is_nonzero_of_ne (negsuc n) h = refl

module _ (p : Platform) {C : Type 0} (fn : PathCallback p C) where
  -- Go on with `rest` if all has gone well so far.
  abbrev pub unless_failed : (C → Cmd p (ℤ × C)) → ℤ × C → Cmd p (ℤ × C)
  unless_failed rest (result, context) =
      if is_nonzero result then pure (result, context) else rest context

  -- Call the function on one path after another, and go on only while it returns 0.
  unfoldable pub visit : List String → C → Cmd p (ℤ × C)
  visit [] context = pure (pos 0, context)
  visit (path ∷ rest) context = fn path context >>= unless_failed (visit rest)

  walk-visit : (ds : List DeviceInfo) → walk p fn ds ≡ visit (paths ds)
  unfolding walk visit
  walk-visit [] = refl
  walk-visit (d ∷ ds) = fun_ext λ context. elim (Option-cases d.path) [
    | inl missing ↦ rw missing (ap (λ k. k context) (walk-visit ds))
    | inr (path, found) ↦ rw found (ap (λ k. fn path context >>= unless_failed k) (walk-visit ds))
  ]

  -- Bind is associative here, since a failure skips both parts.
  regroup :
      (r : Run p (ℤ × C)) (xs ys : C → Cmd p (ℤ × C))
      → and_then r (unless_failed (λ c. xs c >>= unless_failed ys))
        ≡ and_then (and_then r (unless_failed xs)) (unless_failed ys)
  regroup (ok (result, context) s) xs ys = elim (Bool-cases (is_nonzero result)) [
    | inl failed ↦ rw (failed, failed)
    | inr good ↦ rw good
  ]
  regroup (exit code s) xs ys = refl
  regroup fault xs ys = refl
  regroup out_of_fuel xs ys = refl

  pub visit-append :
      (xs ys : List String)
      → visit (xs ++ ys) ≡ (λ context. visit xs context >>= unless_failed (visit ys))
  unfolding visit
  visit-append [] ys = refl
  visit-append (x ∷ xs) ys = fun_ext λ context. fun_ext λ s.
      ap (λ k. and_then (fn x context s) (unless_failed k)) (visit-append xs ys)
      ∙ regroup (fn x context s) (visit xs) (visit ys)

  -- `fcd_for_each` is: enumerate, call the function on the paths of the devices that have one, in
  -- order and as long as it returns 0, and free the enumeration.
  pub fcd_for_each-visit :
      (context : C) (s : Sys p)
      → fcd_for_each p fn context s
        ≡ (hid_enumerate p usb_vid usb_pid >>= λ devs.
              visit (paths devs) context >>= λ outcome. hid_free_enumeration p devs >> pure outcome)
            s
  unfolding fcd_for_each
  fcd_for_each-visit context s =
      let (devs, w) = p.hid_enumerate usb_vid usb_pid s.world in
      ap
        (λ k.
          and_then (k context (record s { world = w }))
            (λ outcome. hid_free_enumeration p devs >> pure outcome))
        (walk-visit devs)

  -- If the function returns 0 on the devices before one and something else on that one,
  -- `fcd_for_each` stops there: its result is that of this call, and the final state does not
  -- depend on the devices after it.
  pub fcd_for_each_stops :
      (context c1 c2 : C) (s s1 s2 : Sys p) (before after : List String) (path : String)
      (result : ℤ)
      → let (devs, w) = p.hid_enumerate usb_vid usb_pid s.world in
        paths devs ≡ before ++ path ∷ after
        → visit before context (record s { world = w }) ≡ ok (pos 0, c1) s1
        → fn path c1 s1 ≡ ok (result, c2) s2
        → result ≢ pos 0
        → fcd_for_each p fn context s
          ≡ ok (result, c2) (record s2 { world = p.hid_free_enumeration devs s2.world })
  unfolding visit
  fcd_for_each_stops context c1 c2 s s1 s2 before after path result order reached failed bad =
      fcd_for_each-visit context s
      ∙ rw (order, visit-append before (path ∷ after), reached, failed, is_nonzero_of_ne result bad)

  -- An invariant of the function is one of the visit, which returns if each call does.
  pub visit-Returns :
      (P : C → Sys p → Type 0)
      → ((path : String) (context : C) (s : Sys p)
          → P context s
          → Returns (λ (r, c) s'. P c s') (fn path context s))
      → (xs : List String) (context : C) (s : Sys p) → P context s
      → Returns (λ (r, c) s'. P c s') (visit xs context s)
  unfolding visit
  visit-Returns P step [] context s h = h
  visit-Returns P step (x ∷ xs) context s h =
      Returns-and_then (λ (r, c) s'. P c s') (λ (r, c) s'. P c s') (fn x context s)
        (unless_failed (visit xs)) (step x context s h)
        (λ (r, c) s' h'. elim (Bool-cases (is_nonzero r)) [
          | inl failed ↦ rw failed h'
          | inr good ↦ rw good (visit-Returns P step xs c s' h')
        ])

  pub fcd_for_each-Returns :
      (P : C → Sys p → Type 0)
      → ((context : C) (s : Sys p) (w : p.World) → P context s → P context (record s { world = w }))
      → ((path : String) (context : C) (s : Sys p)
          → P context s
          → Returns (λ (r, c) s'. P c s') (fn path context s))
      → (context : C) (s : Sys p) → P context s
      → Returns (λ (r, c) s'. P c s') (fcd_for_each p fn context s)
  fcd_for_each-Returns P outside step context s h =
      let (devs, w) = p.hid_enumerate usb_vid usb_pid s.world in
      rw (fcd_for_each-visit context s) (
        Returns-and_then (λ (r, c) s'. P c s') (λ (r, c) s'. P c s')
          (visit (paths devs) context (record s { world = w }))
          (λ outcome. hid_free_enumeration p devs >> pure outcome)
          (visit-Returns P step (paths devs) context _ (outside context s w h))
          (λ (r, c) s' h'. outside c s' _ h'))
