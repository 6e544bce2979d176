-- ===== src/Platform/Returns.antt =====
-- Total correctness of a run of C code: it returns, and what it returns meets a condition.
use libfcd.Base.{◌≡◌, refl}
use libfcd.Platform.{Platform, Sys, Run, ok, exit, fault, out_of_fuel, Cmd, and_then, ◌>>=◌}

-- The run comes back to its caller without a fault, and `P` holds of its result.
abbrev pub Returns : {p : Platform} {A : Type 0} → (A → Sys p → Type 0) → Run p A → Type 0
Returns P (ok a s) = P a s
Returns P (exit c s) = ⊥
Returns P fault = ⊥
Returns P out_of_fuel = ⊥

module _ {p : Platform} {A : Type 0} where
  pub Returns-and_then :
      {B : Type 0} (P : A → Sys p → Type 0) (Q : B → Sys p → Type 0) (r : Run p A) (k : A → Cmd p B)
      → Returns P r
      → ((a : A) (s : Sys p) → P a s → Returns Q (k a s))
      → Returns Q (and_then r k)
  Returns-and_then P Q (ok a s) k h next = next a s h
  Returns-and_then P Q (exit c s) k h next = h
  Returns-and_then P Q fault k h next = h
  Returns-and_then P Q out_of_fuel k h next = h

  pub Returns-mono :
      (P Q : A → Sys p → Type 0) (r : Run p A)
      → Returns P r
      → ((a : A) (s : Sys p) → P a s → Q a s)
      → Returns Q r
  Returns-mono P Q (ok a s) h weaken = weaken a s h
  Returns-mono P Q (exit c s) h weaken = h
  Returns-mono P Q fault h weaken = h
  Returns-mono P Q out_of_fuel h weaken = h

  pub Returns-both :
      (P Q : A → Sys p → Type 0) (r : Run p A)
      → Returns P r
      → Returns Q r
      → Returns (λ a s. P a s × Q a s) r
  Returns-both P Q (ok a s) h k = (h, k)
  Returns-both P Q (exit c s) h k = h
  Returns-both P Q fault h k = h
  Returns-both P Q out_of_fuel h k = h

-- Steps may be grouped either way.
pub and_then_assoc :
    {p : Platform} {A B C : Type 0} (r : Run p A) (k : A → Cmd p B) (m : B → Cmd p C)
    → and_then (and_then r k) m ≡ and_then r (λ a. k a >>= m)
and_then_assoc (ok a s) k m = refl
and_then_assoc (exit code s) k m = refl
and_then_assoc fault k m = refl
and_then_assoc out_of_fuel k m = refl

pub Returns-ok :
    {p : Platform} {A : Type 0} (P : A → Sys p → Type 0) (r : Run p A)
    → Returns P r
    → (a : A) × (s : Sys p) × (r ≡ ok a s) × P a s
Returns-ok P (ok a s) h = (a, s, refl, h)
Returns-ok P (exit c s) h = absurd h
Returns-ok P fault h = absurd h
Returns-ok P out_of_fuel h = absurd h
