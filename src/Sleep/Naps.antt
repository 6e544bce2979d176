-- ===== src/Sleep/Naps.antt =====
-- `ms_sleep` sleeps the time asked for, in naps short enough for `usleep`.
use libfcd.Base.{
  ℕ, zero, suc, ◌+◌, ◌-◌, ◌*◌, ◌/◌, ◌<◌, ◌≡◌, refl, ap, List, [], ◌∷◌, leb, arith, Bool-cases, inl,
  inr,
}
use libfcd.Platform.{Platform, Sleeper, Sys, ok, Cmd, ◌>>◌, usleep, nap, skip}
use libfcd.Platform.Returns.{Returns, Returns-mono}
use libfcd.Device.Outcome.{Balanced}
use libfcd.Sleep.{sleep_loop, sleep_by, ms_sleep}

abbrev pub total : List ℕ → ℕ
total [] = 0
total (n ∷ ns) = n + total ns

-- POSIX lets `usleep` refuse a second or more.
abbrev pub AllShort : List ℕ → Type 0
AllShort [] = Unit {0}
AllShort (n ∷ ns) = (n < 1000000) × AllShort ns

abbrev pub naps : (p : Platform) → List ℕ → Cmd p (Unit {0})
naps p [] = skip
naps p (n ∷ ns) = usleep p n >> naps p ns

sleep_loop-naps :
    (p : Platform) (fuel t : ℕ)
    → t / 1000 < fuel
    → (ns : List ℕ) × AllShort ns
      × (total ns ≡ t * 1000)
      × ((s : Sys p) → sleep_loop p fuel t s ≡ naps p ns s)
unfolding sleep_loop
sleep_loop-naps p zero t h = elim h [ ]
sleep_loop-naps p (suc fuel) t h = elim (Bool-cases (leb 1000 t)) [
  | inl long ↦
      let (ns, short, sum, runs) = sleep_loop-naps p fuel (t - 1000) (ground arith) in
      (
        500000 ∷ 500000 ∷ ns,
        (omega arith, (omega arith, short)),
        ground arith,
        λ s. rw long (runs _),
      )
  | inr rest ↦ (t * 1000 ∷ [], (ground arith, tt), omega arith, λ s. rw rest)
]

-- What a sleep comes to.
abbrev pub Slept : (p : Platform) → Sleeper → ℕ → Cmd p (Unit {0}) → Type 0
Slept p Sleeper.by_usleep ms sleep =
    (ns : List ℕ) × AllShort ns × (total ns ≡ ms * 1000) × ((s : Sys p) → sleep s ≡ naps p ns s)
Slept p Sleeper.by_nap ms sleep = (s : Sys p) → sleep s ≡ nap p ms s
Slept p Sleeper.unavailable ms sleep = (s : Sys p) → sleep s ≡ ok tt s

sleep_by-Slept : (p : Platform) (by : Sleeper) (ms : ℕ) → Slept p by ms (sleep_by p by ms)
unfolding sleep_by
sleep_by-Slept p Sleeper.by_usleep ms = sleep_loop-naps p (ms / 1000 + 1) ms (omega arith)
sleep_by-Slept p Sleeper.by_nap ms = λ s. ap (λ n. nap p n s) {x = ms * 1} {y = ms} (omega arith)
sleep_by-Slept p Sleeper.unavailable ms = λ s. refl

-- `ms_sleep` ends. With `usleep`, it makes a row of calls of less than a second each, which add up
-- to the given number of milliseconds; with `nap`, it makes one call with that number; and in a
-- build with neither it returns at once.
pub ms_sleep-naps : (p : Platform) (ms : ℕ) → Slept p p.sleeper ms (ms_sleep p ms)
unfolding ms_sleep
ms_sleep-naps p ms = sleep_by-Slept p p.sleeper ms

naps-Balanced :
    (p : Platform) (ns : List ℕ) (s : Sys p) → Returns (λ _ s'. Balanced s s') (naps p ns s)
naps-Balanced p [] s = record { same_handles = refl; same_blocks = refl; same_printed = refl }
naps-Balanced p (n ∷ ns) s =
    Returns-mono (λ _ s'. Balanced napped s') (λ _ s'. Balanced s s') (naps p ns napped)
      (naps-Balanced p ns napped)
      (λ _ s' b. record {
        same_handles = b.same_handles;
        same_blocks = b.same_blocks;
        same_printed = b.same_printed;
      })
  where
    napped : Sys p
    napped = record s { world = p.usleep n s.world }

sleep_by-Balanced :
    (p : Platform) (by : Sleeper) (ms : ℕ) (s : Sys p)
    → Returns (λ _ s'. Balanced s s') (sleep_by p by ms s)
sleep_by-Balanced p Sleeper.by_usleep ms s =
    let (ns, short, sum, runs) = sleep_by-Slept p Sleeper.by_usleep ms in
    rw (runs s) (naps-Balanced p ns s)
sleep_by-Balanced p Sleeper.by_nap ms s =
    rw (sleep_by-Slept p Sleeper.by_nap ms s)
      (record { same_handles = refl; same_blocks = refl; same_printed = refl })
sleep_by-Balanced p Sleeper.unavailable ms s =
    rw (sleep_by-Slept p Sleeper.unavailable ms s)
      (record { same_handles = refl; same_blocks = refl; same_printed = refl })

-- `ms_sleep` always returns, and changes nothing but the world.
pub ms_sleep-Balanced :
    (p : Platform) (ms : ℕ) (s : Sys p) → Returns (λ _ s'. Balanced s s') (ms_sleep p ms s)
unfolding ms_sleep
ms_sleep-Balanced p ms s = sleep_by-Balanced p p.sleeper ms s

-- The world after a row of `usleep` calls.
abbrev pub after_naps : (p : Platform) → List ℕ → p.World → p.World
after_naps p [] w = w
after_naps p (n ∷ ns) w = after_naps p ns (p.usleep n w)

naps-after_naps :
    (p : Platform) (ns : List ℕ) (s : Sys p)
    → naps p ns s ≡ ok tt (record s { world = after_naps p ns s.world })
naps-after_naps p [] s = refl
naps-after_naps p (n ∷ ns) s = naps-after_naps p ns (record s { world = p.usleep n s.world })

-- What holds after every sleep of that many milliseconds that the build can make.
abbrev pub Sleeps : (p : Platform) → Sleeper → ℕ → (p.World → Type 0) → p.World → Type 0
Sleeps p Sleeper.by_usleep ms P w = (ns : List ℕ) → total ns ≡ ms * 1000 → P (after_naps p ns w)
Sleeps p Sleeper.by_nap ms P w = P (p.nap ms w)
Sleeps p Sleeper.unavailable ms P w = P w

sleep_by-Sleeps :
    (p : Platform) (by : Sleeper) (ms : ℕ) (P : p.World → Type 0) (s : Sys p)
    → Sleeps p by ms P s.world
    → Returns (λ _ t. P t.world) (sleep_by p by ms s)
sleep_by-Sleeps p Sleeper.by_usleep ms P s h =
    let (ns, short, sum, runs) = sleep_by-Slept p Sleeper.by_usleep ms in
    rw (runs s, naps-after_naps p ns s) (h ns sum)
sleep_by-Sleeps p Sleeper.by_nap ms P s h = rw (sleep_by-Slept p Sleeper.by_nap ms s) h
sleep_by-Sleeps p Sleeper.unavailable ms P s h = rw (sleep_by-Slept p Sleeper.unavailable ms s) h

pub ms_sleep-Sleeps :
    (p : Platform) (ms : ℕ) (P : p.World → Type 0) (s : Sys p)
    → Sleeps p p.sleeper ms P s.world
    → Returns (λ _ t. P t.world) (ms_sleep p ms s)
unfolding ms_sleep
ms_sleep-Sleeps p ms P s h = sleep_by-Sleeps p p.sleeper ms P s h
