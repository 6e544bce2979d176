-- ===== src/Base/Bytes.antt =====
-- Byte arrays with C's bounds: an access outside the array is `none`.
use Prim.Native.Nat.{ℕ, ◌+◌, ◌≤◌}
use mathlib.Core.Path.{◌≡◌, refl, sym, ap, ◌∙◌}
use mathlib.Core.Option.{Option, none, some}
use mathlib.Core.List.{List, ◌++◌, append_assoc}
use native.Mathlib.Omega.{arith}
use libfcd.Base.Cond.{leb, le→leb, if◌then◌else◌}
use libfcd.Base.Lists.{
  length, take, drop, take_all, length-append, length-take, length-drop, take-append_length,
}

-- The array with the bytes from `off` on replaced.
abbrev pub splice : List ℕ → ℕ → List ℕ → List ℕ
splice b off xs = take off b ++ (xs ++ drop (off + length xs) b)

-- `memcpy(&b[off], xs, length xs)`.
abbrev pub poke : List ℕ → ℕ → List ℕ → Option (List ℕ)
poke b off xs = if leb (off + length xs) (length b) then some (splice b off xs) else none

-- The `n` bytes from `&b[off]` on.
abbrev pub peek : List ℕ → ℕ → ℕ → Option (List ℕ)
peek b off n = if leb (off + n) (length b) then some (take n (drop off b)) else none

pub length-splice :
    (b : List ℕ) (off : ℕ) (xs : List ℕ)
    → off + length xs ≤ length b
    → length (splice b off xs) ≡ length b
length-splice b off xs h = omega (
  arith,
  length-append (take off b) (xs ++ drop (off + length xs) b),
  length-append xs (drop (off + length xs) b),
  length-take off b,
  length-drop (off + length xs) b,
)

pub take-splice :
    (b : List ℕ) (off : ℕ) (xs : List ℕ)
    → off + length xs ≤ length b
    → take (off + length xs) (splice b off xs) ≡ take off b ++ xs
take-splice b off xs h = rw (← append_assoc (take off b) xs (drop (off + length xs) b)) (
    take-append_length (off + length xs) (take off b ++ xs) (drop (off + length xs) b)
      (omega (arith, length-append (take off b) xs, length-take off b)))

-- A write that starts where the known part of the array ends makes the known part longer.
pub poke_extends :
    (b known xs : List ℕ) (off : ℕ)
    → take off b ≡ known
    → off + length xs ≤ length b
    → (poke b off xs ≡ some (splice b off xs))
      × (length (splice b off xs) ≡ length b)
      × (take (off + length xs) (splice b off xs) ≡ known ++ xs)
poke_extends b known xs off e h = (
  rw (le→leb (off + length xs) (length b) h),
  length-splice b off xs h,
  take-splice b off xs h ∙ ap (λ k. k ++ xs) e,
)

-- Storing as many bytes as the object has replaces them all.
pub poke_whole : (b xs : List ℕ) → length xs ≡ length b → poke b 0 xs ≡ some xs
poke_whole b xs e = rw (le→leb (0 + length xs) (length b) (omega (arith, e))) (
    ap some (
      sym (
        take_all (0 + length xs) (splice b 0 xs)
          (omega (arith, e, length-splice b 0 xs (omega (arith, e)))))
      ∙ take-splice b 0 xs (omega (arith, e))))

-- Storing no more bytes than the object has succeeds.
pub poke-some : (b xs : List ℕ) → length xs ≤ length b → (r : List ℕ) × (poke b 0 xs ≡ some r)
poke-some b xs h = (splice b 0 xs, rw (le→leb (0 + length xs) (length b) (omega (arith, h))) refl)
