-- ===== src/Sleep.antt =====
-- `ms_sleep` of lib/fcd_common.c, in the three builds that m4/ax_short_sleep.m4 tells apart.
pub mod Naps
use libfcd.Base.{ℕ, zero, suc, ◌+◌, ◌-◌, ◌*◌, ◌/◌, leb, if◌then◌else◌}
use libfcd.Platform.{Platform, Sleeper, Cmd, out_of_fuel, ◌>>=◌, ◌>>◌, usleep, nap, skip}

-- SHORT_SLEEP_FACTOR, the units of a millisecond; it is not used in a build with neither call.
abbrev pub short_sleep_factor : Sleeper → ℕ
short_sleep_factor Sleeper.by_usleep = 1000
short_sleep_factor Sleeper.by_nap = 1
short_sleep_factor Sleeper.unavailable = 1

module _ (p : Platform) where
  -- The loop over whole seconds, and the rest after it.
  pub sleep_loop : ℕ → ℕ → Cmd p (Unit {0})
  sleep_loop zero t = λ _. out_of_fuel
  sleep_loop (suc fuel) t =
      let factor = short_sleep_factor Sleeper.by_usleep in
      let rest = sleep_loop fuel (t - 1000) in
      if leb 1000 t
      then (do usleep p (500 * factor); usleep p (500 * factor); rest)
      else usleep p (t * factor)

  -- The branches of the preprocessor.
  pub sleep_by : Sleeper → ℕ → Cmd p (Unit {0})
  sleep_by Sleeper.by_usleep ms = sleep_loop (ms / 1000 + 1) ms
  sleep_by Sleeper.by_nap ms = nap p (ms * short_sleep_factor Sleeper.by_nap)
  sleep_by Sleeper.unavailable ms = skip

  pub ms_sleep : ℕ → Cmd p (Unit {0})
  ms_sleep = sleep_by p.sleeper
