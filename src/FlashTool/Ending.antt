-- ===== src/FlashTool/Ending.antt =====
-- A program that may call `exit`: it ends, one way or the other, without a fault.
use libfcd.Base.{ℕ, ◌≡◌, refl, ◌∙◌}
use libfcd.Platform.{Platform, Sys, Run, ok, exit, fault, out_of_fuel, Cmd, and_then}
use libfcd.Platform.Returns.{Returns}

-- `P` holds of the result if it returns, and `Q` of the status if it exits.
abbrev pub Ends :
    {p : Platform} {A : Type 0} → (A → Sys p → Type 0) → (ℕ → Sys p → Type 0) → Run p A → Type 0
Ends P Q (ok a s) = P a s
Ends P Q (exit code s) = Q code s
Ends P Q fault = ⊥
Ends P Q out_of_fuel = ⊥

module _ {p : Platform} {A : Type 0} (Q : ℕ → Sys p → Type 0) where
  pub Ends-and_then :
      {B : Type 0} (P : A → Sys p → Type 0) (R : B → Sys p → Type 0) (r : Run p A) (k : A → Cmd p B)
      → Ends P Q r
      → ((a : A) (s : Sys p) → P a s → Ends R Q (k a s))
      → Ends R Q (and_then r k)
  Ends-and_then P R (ok a s) k h next = next a s h
  Ends-and_then P R (exit code s) k h next = h
  Ends-and_then P R fault k h next = h
  Ends-and_then P R out_of_fuel k h next = h

  pub Returns-Ends :
      (P R : A → Sys p → Type 0) (r : Run p A)
      → Returns P r
      → ((a : A) (s : Sys p) → P a s → R a s)
      → Ends R Q r
  Returns-Ends P R (ok a s) h weaken = weaken a s h
  Returns-Ends P R (exit code s) h weaken = absurd h
  Returns-Ends P R fault h weaken = h
  Returns-Ends P R out_of_fuel h weaken = h

pub Ends-mono :
    {p : Platform} {A : Type 0} (P R : A → Sys p → Type 0) (Q Q' : ℕ → Sys p → Type 0) (r : Run p A)
    → Ends P Q r
    → ((a : A) (s : Sys p) → P a s → R a s)
    → ((code : ℕ) (s : Sys p) → Q code s → Q' code s)
    → Ends R Q' r
Ends-mono P R Q Q' (ok a s) h f g = f a s h
Ends-mono P R Q Q' (exit code s) h f g = g code s h
Ends-mono P R Q Q' fault h f g = h
Ends-mono P R Q Q' out_of_fuel h f g = h

-- What is done next matters only for the results that the run can have.
pub and_then-Ends :
    {p : Platform} {A B : Type 0} (P : A → Sys p → Type 0) (Q : ℕ → Sys p → Type 0) (r : Run p A)
    (k k' : A → Cmd p B)
    → Ends P Q r
    → ((a : A) (s : Sys p) → P a s → k a s ≡ k' a s)
    → and_then r k ≡ and_then r k'
and_then-Ends P Q (ok a s) k k' h same = same a s h
and_then-Ends P Q (exit code s) k k' h same = refl
and_then-Ends P Q fault k k' h same = refl
and_then-Ends P Q out_of_fuel k k' h same = refl

-- Nothing but the output and `errno` has changed.
pub record Quiet {p : Platform} (s s' : Sys p) : Type 0 where
  pub same_world : s'.world ≡ s.world
  pub same_handles : s'.handles ≡ s.handles
  pub same_blocks : s'.blocks ≡ s.blocks

-- As many hidapi handles are open, and as many blocks allocated.
pub record Kept {p : Platform} (s s' : Sys p) : Type 0 where
  pub kept_handles : s'.handles ≡ s.handles
  pub kept_blocks : s'.blocks ≡ s.blocks

pub Quiet-of :
    {p : Platform} (t s : Sys p)
    → t.world ≡ s.world
    → t.handles ≡ s.handles
    → t.blocks ≡ s.blocks
    → Quiet s t
Quiet-of t s w h b = record { same_world = w; same_handles = h; same_blocks = b }

pub Quiet-refl : {p : Platform} (s : Sys p) → Quiet s s
Quiet-refl s = record { same_world = refl; same_handles = refl; same_blocks = refl }

pub Quiet-trans : {p : Platform} {s t u : Sys p} → Quiet s t → Quiet t u → Quiet s u
Quiet-trans a b = record {
  same_world = b.same_world ∙ a.same_world;
  same_handles = b.same_handles ∙ a.same_handles;
  same_blocks = b.same_blocks ∙ a.same_blocks;
}

pub Kept-trans : {p : Platform} {s t u : Sys p} → Kept s t → Kept t u → Kept s u
Kept-trans a b = record {
  kept_handles = b.kept_handles ∙ a.kept_handles;
  kept_blocks = b.kept_blocks ∙ a.kept_blocks;
}
