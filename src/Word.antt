-- ===== src/Word.antt =====
-- The byte order helpers of lib/fcd_common.h and the fixed-width integers that lib/ stores in
-- its transfer buffers. A `uint16_t` or `uint32_t` is a number below 2 ^ 16 or 2 ^ 32; an `int16_t`
-- is its bit pattern with the integer that the pattern stands for.
pub mod Wire
pub mod Signed
use libfcd.Base.{
  ℕ, suc, ◌+◌, ◌-◌, ◌*◌, ◌/◌, ◌%◌, ◌^◌, bit_and, bit_or, List, [], ◌∷◌, ℤ, pos, negsuc, ltb,
  if◌then◌else◌, get_or,
}

-- WORDS_BIGENDIAN, as configure sets it.
pub data Endian : Type 0 where
  little big : Endian

-- The conversions to `unsigned char`, `uint16_t` and `uint32_t`.
abbrev pub u8 : ℕ → ℕ
u8 n = n % 2 ^ 8

abbrev pub u16 : ℕ → ℕ
u16 n = n % 2 ^ 16

abbrev pub u32 : ℕ → ℕ
u32 n = n % 2 ^ 32

-- The big-endian branch is read without the unmatched `)` that ends its last line.
pub convert_le_u32 : Endian → ℕ → ℕ
convert_le_u32 Endian.little v = v
convert_le_u32 Endian.big v =
    bit_or
      (bit_or (bit_or (bit_and v 0xff000000 / 2 ^ 24) (bit_and v 0x00ff0000 / 2 ^ 8))
        (u32 (bit_and v 0x0000ff00 * 2 ^ 8)))
      (u32 (bit_and v 0x000000ff * 2 ^ 24))

pub convert_le_u16 : Endian → ℕ → ℕ
convert_le_u16 Endian.little v = v
convert_le_u16 Endian.big v = u16 (bit_or (bit_and v 0xff00 / 2 ^ 8) (bit_and v 0x00ff * 2 ^ 8))

-- The bytes of an object in memory, and the object that the bytes from `bs` on hold.
pub store_u16 : Endian → ℕ → List ℕ
store_u16 Endian.little v = v % 256 ∷ v / 2 ^ 8 % 256 ∷ []
store_u16 Endian.big v = v / 2 ^ 8 % 256 ∷ v % 256 ∷ []

pub store_u32 : Endian → ℕ → List ℕ
store_u32 Endian.little v = v % 256 ∷ v / 2 ^ 8 % 256 ∷ v / 2 ^ 16 % 256 ∷ v / 2 ^ 24 % 256 ∷ []
store_u32 Endian.big v = v / 2 ^ 24 % 256 ∷ v / 2 ^ 16 % 256 ∷ v / 2 ^ 8 % 256 ∷ v % 256 ∷ []

pub load_u16 : Endian → List ℕ → ℕ
load_u16 Endian.little bs = get_or bs 0 0 + get_or bs 1 0 * 2 ^ 8
load_u16 Endian.big bs = get_or bs 1 0 + get_or bs 0 0 * 2 ^ 8

pub load_u32 : Endian → List ℕ → ℕ
load_u32 Endian.little bs =
    get_or bs 0 0 + get_or bs 1 0 * 2 ^ 8 + get_or bs 2 0 * 2 ^ 16 + get_or bs 3 0 * 2 ^ 24
load_u32 Endian.big bs =
    get_or bs 3 0 + get_or bs 2 0 * 2 ^ 8 + get_or bs 1 0 * 2 ^ 16 + get_or bs 0 0 * 2 ^ 24

-- `(int16_t) i` keeps the low 16 bits of the two's complement.
unfoldable pub to_i16 : ℤ → ℕ
to_i16 (pos n) = n % 2 ^ 16
to_i16 (negsuc n) = 2 ^ 16 - 1 - n % 2 ^ 16

-- The integer that an `int16_t` with this bit pattern is promoted to.
unfoldable pub of_i16 : ℕ → ℤ
of_i16 w = if ltb w (2 ^ 15) then pos w else negsuc (2 ^ 16 - 1 - w)
