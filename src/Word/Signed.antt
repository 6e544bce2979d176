-- ===== src/Word/Signed.antt =====
-- The range of `int16_t`: which integers survive the narrowing that lib/fcd_application.c tests.
use libfcd.Base.{ℕ, ◌^◌, ◌<◌, ◌≡◌, ◌↔◌, arith, ℤ, pos, negsuc, ◌≤ℤ◌, eq_ℤ, true}
use libfcd.Word.{to_i16, of_i16}

pub to_i16-lt : (i : ℤ) → to_i16 i < 2 ^ 16
unfolding to_i16
to_i16-lt (pos n) = omega arith
to_i16-lt (negsuc n) = omega arith

-- The range -32768..32767.
abbrev pub FitsI16 : ℤ → Type 0
FitsI16 i = (negsuc 32767 ≤ℤ i) × (i ≤ℤ pos 32767)

-- Narrowing to `int16_t` and back gives the same value exactly for the integers -32768..32767.
pub of_i16-to_i16_iff : (i : ℤ) → (eq_ℤ i (of_i16 (to_i16 i)) ≡ true) ↔ FitsI16 i
unfolding of_i16 to_i16
of_i16-to_i16_iff (pos n) = ground arith
of_i16-to_i16_iff (negsuc n) = ground arith

-- Narrowing loses no bit pattern: it undoes the promotion of each of them.
pub to_i16-of_i16 : (w : ℕ) → w < 2 ^ 16 → to_i16 (of_i16 w) ≡ w
unfolding of_i16 to_i16
to_i16-of_i16 w h = ground arith
