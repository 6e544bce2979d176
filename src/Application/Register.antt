-- ===== src/Application/Register.antt =====
-- A setting of the dongle as a register: calls that set and get it, in any order.
use libfcd.Base.{
  ◌≡◌, refl, ap, Bool, true, false, Bool-cases, inl, inr, List, [], ◌∷◌, ℤ, pos, minus,
  if◌then◌else◌,
}
use libfcd.Platform.{Platform, Sys, Cmd, pure, ◌>>=◌}
use libfcd.Platform.Returns.{Returns, Returns-and_then}

-- A call by a client.
pub data Call (V : Type 0) : Type 0 where
  set : V → Call V
  get : Call V

-- What a call returns to it.
pub data Reply (V : Type 0) : Type 0 where
  done : ℤ → Reply V
  got : ℤ → V → Reply V

-- The value in the register after a call, and the reply: a value that is not accepted is refused
-- with -1 and changes nothing, one that is accepted is kept as the device makes it, and a get returns
-- what is kept.
abbrev pub next : {V : Type 0} → (V → V) → (V → Bool) → Call V → V → V
next keeps accepts (set v) held = if accepts v then keeps v else held
next keeps accepts get held = held

abbrev pub reply : {V : Type 0} → (V → Bool) → Call V → V → Reply V
reply accepts (set v) held = done (if accepts v then pos 0 else minus 1)
reply accepts get held = got (pos 0) held

abbrev pub replies_kept : {V : Type 0} → (V → V) → (V → Bool) → List (Call V) → V → List (Reply V)
replies_kept keeps accepts [] held = []
replies_kept keeps accepts (call ∷ calls) held =
    reply accepts call held ∷ replies_kept keeps accepts calls (next keeps accepts call held)

-- The replies where the values are kept as they are set.
abbrev pub replies : {V : Type 0} → (V → Bool) → List (Call V) → V → List (Reply V)
replies accepts calls held = replies_kept (λ v. v) accepts calls held

-- All values that the calls set are of the type.
abbrev pub Typed : {V : Type 0} → (V → Type 0) → List (Call V) → Type 0
Typed P [] = Unit {0}
Typed P (set v ∷ calls) = P v × Typed P calls
Typed P (get ∷ calls) = Typed P calls

pub Typed-any : {V : Type 0} (calls : List (Call V)) → Typed (λ _. Unit {0}) calls
Typed-any [] = tt
Typed-any (set v ∷ calls) = (tt, Typed-any calls)
Typed-any (get ∷ calls) = Typed-any calls

module _ (p : Platform) {V : Type 0} (put : V → Cmd p ℤ) (fetch : Cmd p (ℤ × V)) where
  abbrev pub perform : Call V → Cmd p (Reply V)
  perform (set v) = put v >>= λ r. pure (done r)
  perform get = fetch >>= λ (r, v). pure (got r v)

  -- The calls one after another.
  abbrev pub serve : List (Call V) → Cmd p (List (Reply V))
  serve [] = pure []
  serve (call ∷ calls) =
      perform call >>= λ answer. serve calls >>= λ answers. pure (answer ∷ answers)

-- What makes a pair of operations a register: `Holds v` tells that the device holds the value.
pub record IsRegister (p : Platform) {V : Type 0} (put : V → Cmd p ℤ) (fetch : Cmd p (ℤ × V))
    (keeps : V → V) (accepts : V → Bool) (P : V → Type 0) (Holds : V → Sys p → Type 0)
    : Type 0 where
  pub puts :
      (v held : V) (s : Sys p)
      → P v
      → accepts v ≡ true
      → Holds held s
      → Returns (λ r t. (r ≡ pos 0) × Holds (keeps v) t) (put v s)
  pub refuses :
      (v held : V) (s : Sys p)
      → P v
      → accepts v ≡ false
      → Holds held s
      → Returns (λ r t. (r ≡ minus 1) × Holds held t) (put v s)
  pub fetches :
      (held : V) (s : Sys p)
      → Holds held s
      → Returns (λ (r, v) t. (r ≡ pos 0) × (v ≡ held) × Holds held t) (fetch s)

module _ (p : Platform) {V : Type 0} (put : V → Cmd p ℤ) (fetch : Cmd p (ℤ × V)) (keeps : V → V)
    (accepts : V → Bool) (P : V → Type 0) (Holds : V → Sys p → Type 0)
    (register : IsRegister p put fetch keeps accepts P Holds) where
  perform-reply :
      (call : Call V) (held : V) (s : Sys p)
      → Typed P (call ∷ [])
      → Holds held s
      → Returns
          (λ answer t. (answer ≡ reply accepts call held) × Holds (next keeps accepts call held) t)
          (perform p put fetch call s)
  perform-reply (set v) held s typed h = elim (Bool-cases (accepts v)) [
    | inl good ↦ rw good (
        Returns-and_then (λ r t. (r ≡ pos 0) × Holds (keeps v) t)
          (λ answer t. (answer ≡ done (pos 0)) × Holds (keeps v) t) (put v s) (λ r. pure (done r))
          (register.puts v held s typed.0 good h) (λ r t (e, h'). (ap done e, h')))
    | inr bad ↦ rw bad (
        Returns-and_then (λ r t. (r ≡ minus 1) × Holds held t)
          (λ answer t. (answer ≡ done (minus 1)) × Holds held t) (put v s) (λ r. pure (done r))
          (register.refuses v held s typed.0 bad h) (λ r t (e, h'). (ap done e, h')))
  ]
  perform-reply get held s typed h =
      Returns-and_then (λ (r, v) t. (r ≡ pos 0) × (v ≡ held) × Holds held t)
        (λ answer t. (answer ≡ got (pos 0) held) × Holds held t) (fetch s)
        (λ (r, v). pure (got r v)) (register.fetches held s h)
        (λ (r, v) t (e, same, h'). (rw (e, same) refl, h'))

  Typed-head :
      (call : Call V) (calls : List (Call V)) → Typed P (call ∷ calls) → Typed P (call ∷ [])
  Typed-head (set v) calls (h, rest) = (h, tt)
  Typed-head get calls h = tt

  Typed-tail : (call : Call V) (calls : List (Call V)) → Typed P (call ∷ calls) → Typed P calls
  Typed-tail (set v) calls (h, rest) = rest
  Typed-tail get calls h = h

  -- Whatever the calls and their order, all return, with the replies of the register.
  pub serve-replies :
      (calls : List (Call V)) (held : V) (s : Sys p)
      → Typed P calls
      → Holds held s
      → Returns
          (λ answers t. answers ≡ replies_kept keeps accepts calls held)
          (serve p put fetch calls s)
  serve-replies [] held s typed h = refl
  serve-replies (call ∷ calls) held s typed h =
      Returns-and_then
        (λ answer t. (answer ≡ reply accepts call held) × Holds (next keeps accepts call held) t)
        (λ answers t. answers ≡ replies_kept keeps accepts (call ∷ calls) held)
        (perform p put fetch call s)
        (λ answer. serve p put fetch calls >>= λ answers. pure (answer ∷ answers))
        (perform-reply call held s (Typed-head call calls typed) h)
        (λ answer t (e, h').
          Returns-and_then
            (λ answers u. answers ≡ replies_kept keeps accepts calls (next keeps accepts call held))
            (λ answers u. answers ≡ replies_kept keeps accepts (call ∷ calls) held)
            (serve p put fetch calls t) (λ answers. pure (answer ∷ answers))
            (serve-replies calls (next keeps accepts call held) t (Typed-tail call calls typed) h')
            (λ answers u e'. rw (e, e') refl))
