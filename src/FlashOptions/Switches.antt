-- ===== src/FlashOptions/Switches.antt =====
-- The action flags of src/flash.c as four switches.
use libfcd.Base.{
  ℕ, ◌+◌, ◌≡◌, refl, Bool, true, false, Option, some, List, [], ◌∷◌, String, if◌then◌else◌, ◌==◌,
  ==_iff, ◌&&◌, ◌||◌, not, bit_or, arith,
}
use libfcd.FlashOptions.{Opt, act, has, action_reset, action_erase, action_write, action_verify}

pub record Switches : Type 0 where
  pub resets : Bool
  pub erases : Bool
  pub writes : Bool
  pub verifies : Bool

abbrev pub all_off : Switches
all_off = record { resets = false; erases = false; writes = false; verifies = false }

-- What an option asks for.
abbrev pub switch : Opt → Switches → Switches
switch (Opt.input name) sw = sw
switch (Opt.reset delay) sw = record sw { resets = true }
switch Opt.no_reset sw = record sw { resets = false }
switch Opt.erase sw = record sw { erases = true }
switch Opt.no_erase sw = record sw { erases = false }
switch Opt.write sw = record sw { writes = true }
switch Opt.no_write sw = record sw { writes = false }
switch Opt.verify sw = record sw { verifies = true }
switch Opt.no_verify sw = record sw { verifies = false }
switch (Opt.flash name) sw = record { resets = true; erases = true; writes = true; verifies = true }
switch Opt.help sw = sw
switch Opt.version_info sw = sw
switch Opt.unknown sw = sw

abbrev pub switches : List Opt → Switches → Switches
switches [] sw = sw
switches (o ∷ os) sw = switches os (switch o sw)

-- The image that is left to flash: that of the last option that names one.
abbrev pub name_of : Opt → Option String → Option String
name_of (Opt.input name) before = some name
name_of (Opt.flash name) before = some name
name_of o before = before

abbrev pub names : List Opt → Option String → Option String
names [] before = before
names (o ∷ os) before = names os (name_of o before)

abbrev pub pack : Switches → ℕ
pack sw =
    (if sw.resets then action_reset else 0)
    + (if sw.erases then action_erase else 0)
    + (if sw.writes then action_write else 0)
    + (if sw.verifies then action_verify else 0)

-- A test of all values of a Boolean, or of all settings of the switches.
abbrev both : (Bool → Bool) → Bool
both f = f true && f false

both-each : (f : Bool → Bool) → both f ≡ true → (b : Bool) → f b ≡ true
both-each f h true = ground arith
both-each f h false = ground arith

abbrev setting : Bool → Bool → Bool → Bool → Switches
setting r e w v = record { resets = r; erases = e; writes = w; verifies = v }

abbrev every : (Switches → Bool) → Bool
every q = both λ r. both λ e. both λ w. both λ v. q (setting r e w v)

every-each : (q : Switches → Bool) → every q ≡ true → (sw : Switches) → q sw ≡ true
every-each q h sw =
    let r = both-each (λ r. both λ e. both λ w. both λ v. q (setting r e w v)) h sw.resets in
    let e = both-each (λ e. both λ w. both λ v. q (setting sw.resets e w v)) r sw.erases in
    let w = both-each (λ w. both λ v. q (setting sw.resets sw.erases w v)) e sw.writes in
    both-each (λ v. q (setting sw.resets sw.erases sw.writes v)) w sw.verifies

-- The flags follow the switches.
abbrev follows : (ℕ → ℕ) → (Switches → Switches) → Switches → Bool
follows f g sw = f (pack sw) == pack (g sw)

follows-each :
    (f : ℕ → ℕ) (g : Switches → Switches)
    → every (follows f g) ≡ true
    → (sw : Switches) → f (pack sw) ≡ pack (g sw)
follows-each f g h sw = (==_iff (f (pack sw)) (pack (g sw))).0 (every-each (follows f g) h sw)

abbrev same : Bool → Bool → Bool
same true b = b
same false b = not b

same-each :
    (f g : Switches → Bool)
    → every (λ sw. same (f sw) (g sw)) ≡ true
    → (sw : Switches) → f sw ≡ g sw
same-each f g h sw = same_sound (f sw) (g sw) (every-each (λ t. same (f t) (g t)) h sw)
  where
    same_sound : (a b : Bool) → same a b ≡ true → a ≡ b
    same_sound true b e = ground arith
    same_sound false b e = ground arith

-- The tests of the flags read the switches.
pub has-pack :
    (sw : Switches)
    → (has (pack sw) action_erase ≡ sw.erases)
      × (has (pack sw) action_write ≡ sw.writes)
      × (has (pack sw) action_verify ≡ sw.verifies)
      × (has (pack sw) (bit_or action_write action_verify) ≡ (sw.writes || sw.verifies))
      × ((pack sw == 0) ≡ not (sw.resets || sw.erases || sw.writes || sw.verifies))
has-pack sw = (
  same-each (λ t. has (pack t) action_erase) (λ t. t.erases) refl sw,
  same-each (λ t. has (pack t) action_write) (λ t. t.writes) refl sw,
  same-each (λ t. has (pack t) action_verify) (λ t. t.verifies) refl sw,
  same-each (λ t. has (pack t) (bit_or action_write action_verify)) (λ t. t.writes || t.verifies)
      refl sw,
  same-each (λ t. pack t == 0) (λ t. not (t.resets || t.erases || t.writes || t.verifies)) refl sw,
)

-- Each option changes the flags as it changes the switches.
pub act-pack : (o : Opt) (sw : Switches) → act o (pack sw) ≡ pack (switch o sw)
unfolding act
act-pack (Opt.input name) sw = refl
act-pack (Opt.reset delay) sw =
    follows-each (act (Opt.reset delay)) (switch (Opt.reset delay)) refl sw
act-pack Opt.no_reset sw = follows-each (act Opt.no_reset) (switch Opt.no_reset) refl sw
act-pack Opt.erase sw = follows-each (act Opt.erase) (switch Opt.erase) refl sw
act-pack Opt.no_erase sw = follows-each (act Opt.no_erase) (switch Opt.no_erase) refl sw
act-pack Opt.write sw = follows-each (act Opt.write) (switch Opt.write) refl sw
act-pack Opt.no_write sw = follows-each (act Opt.no_write) (switch Opt.no_write) refl sw
act-pack Opt.verify sw = follows-each (act Opt.verify) (switch Opt.verify) refl sw
act-pack Opt.no_verify sw = follows-each (act Opt.no_verify) (switch Opt.no_verify) refl sw
act-pack (Opt.flash name) sw = refl
act-pack Opt.help sw = refl
act-pack Opt.version_info sw = refl
act-pack Opt.unknown sw = refl

pub has_reset-pack : (sw : Switches) → has (pack sw) action_reset ≡ sw.resets
has_reset-pack sw = same-each (λ t. has (pack t) action_reset) (λ t. t.resets) refl sw
