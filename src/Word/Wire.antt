-- ===== src/Word/Wire.antt =====
-- Byte order: what a converted integer looks like in the transfer buffer, on both kinds of host.
use libfcd.Base.{
  ℕ, ◌+◌, ◌*◌, ◌/◌, ◌%◌, ◌^◌, ◌<◌, ◌≡◌, refl, ap, ◌∙◌, bit_and, bit_or, List, [], ◌∷◌, arith,
  get_or, length, bit_and_field, bit_and_255, bit_or_field,
}
use libfcd.Word.{
  Endian, u32, convert_le_u16, convert_le_u32, store_u16, store_u32, load_u16, load_u32,
}

-- The little-endian bytes of an integer, whatever the host.
abbrev pub le16 : ℕ → List ℕ
le16 v = v % 256 ∷ v / 256 % 256 ∷ []

abbrev pub le32 : ℕ → List ℕ
le32 v = v % 256 ∷ v / 256 % 256 ∷ v / 65536 % 256 ∷ v / 16777216 % 256 ∷ []

-- The integer that little-endian bytes stand for.
abbrev pub of_le16 : List ℕ → ℕ
of_le16 bs = get_or bs 0 0 + get_or bs 1 0 * 256

abbrev pub of_le32 : List ℕ → ℕ
of_le32 bs = get_or bs 0 0 + get_or bs 1 0 * 256 + get_or bs 2 0 * 65536 + get_or bs 3 0 * 16777216

-- A mask of one byte selects that byte in place.
byte_field : (k v : ℕ) → bit_and v (255 * 2 ^ k) ≡ v / 2 ^ k % 256 * 2 ^ k
byte_field k v = bit_and_field k v 255 ∙ ap (λ t. t * 2 ^ k) (bit_and_255 (v / 2 ^ k))

convert_big_u16 : (v : ℕ) → v < 2 ^ 16 → convert_le_u16 Endian.big v ≡ v / 256 + v % 256 * 256
unfolding convert_le_u16
convert_big_u16 v h =
    let hi : bit_and v 0xff00 / 256 ≡ v / 256 = omega (arith, byte_field 8 v) in
    let lo : bit_and v 0xff * 256 ≡ v % 256 * 256 = omega (arith, bit_and_255 v) in
    rw (hi, lo) (omega (arith, bit_or_field 8 (v / 256) (v % 256) (omega arith)))

convert_big_u32 :
    (v : ℕ)
    → v < 2 ^ 32
    → convert_le_u32 Endian.big v
      ≡ v / 16777216 + v / 65536 % 256 * 256 + v / 256 % 256 * 65536 + v % 256 * 16777216
unfolding convert_le_u32
convert_big_u32 v h =
    let b3 : bit_and v 0xff000000 / 16777216 ≡ v / 16777216 = omega (arith, byte_field 24 v) in
    let b2 : bit_and v 0xff0000 / 256 ≡ v / 65536 % 256 * 256 = omega (arith, byte_field 16 v) in
    let b1 : u32 (bit_and v 0xff00 * 256) ≡ v / 256 % 256 * 65536 = omega (arith, byte_field 8 v) in
    let b0 : u32 (bit_and v 0xff * 16777216) ≡ v % 256 * 16777216 = omega (arith, bit_and_255 v) in
    let lower : ℕ = v / 16777216 + v / 65536 % 256 * 256 in
    let low : bit_or (v / 16777216) (v / 65536 % 256 * 256) ≡ lower =
      bit_or_field 8 (v / 16777216) (v / 65536 % 256) (omega arith) in
    let mid : bit_or lower (v / 256 % 256 * 65536) ≡ lower + v / 256 % 256 * 65536 =
      bit_or_field 16 lower (v / 256 % 256) (omega arith) in
    rw (b3, b2, b1, b0, low, mid)
      (bit_or_field 24 (lower + v / 256 % 256 * 65536) (v % 256) (omega arith))

-- On either host, the bytes in memory of a converted `uint16_t` are the little-endian bytes of it.
pub store-convert_u16 :
    (e : Endian) (v : ℕ) → v < 2 ^ 16 → store_u16 e (convert_le_u16 e v) ≡ le16 v
unfolding store_u16
store-convert_u16 Endian.little v h = unfold convert_le_u16 in refl
store-convert_u16 Endian.big v h = rw (convert_big_u16 v h) (grind arith)

-- On either kind of host, the bytes in memory of a converted 32-bit integer are its bytes with
-- the low one first.
pub store-convert_u32 :
    (e : Endian) (v : ℕ) → v < 2 ^ 32 → store_u32 e (convert_le_u32 e v) ≡ le32 v
unfolding store_u32
store-convert_u32 Endian.little v h = unfold convert_le_u32 in refl
store-convert_u32 Endian.big v h = rw (convert_big_u32 v h) (grind arith)

abbrev pub AreBytes : List ℕ → Type 0
AreBytes [] = Unit {0}
AreBytes (b ∷ bs) = (b < 256) × AreBytes bs

-- On either host, converting two bytes read into a `uint16_t` gives their little-endian value.
pub convert-load_u16 :
    (e : Endian) (a b : ℕ)
    → a < 256
    → b < 256
    → convert_le_u16 e (load_u16 e (a ∷ b ∷ [])) ≡ of_le16 (a ∷ b ∷ [])
unfolding load_u16
convert-load_u16 Endian.little a b ha hb = unfold convert_le_u16 in refl
convert-load_u16 Endian.big a b ha hb = convert_big_u16 (b + a * 256) (omega arith) ∙ omega arith

-- On either host, converting four bytes read into a `uint32_t` gives their little-endian value.
pub convert-load_u32 :
    (e : Endian) (a b c d : ℕ)
    → AreBytes (a ∷ b ∷ c ∷ d ∷ [])
    → convert_le_u32 e (load_u32 e (a ∷ b ∷ c ∷ d ∷ [])) ≡ of_le32 (a ∷ b ∷ c ∷ d ∷ [])
unfolding load_u32
convert-load_u32 Endian.little a b c d h = unfold convert_le_u32 in refl
convert-load_u32 Endian.big a b c d h =
    convert_big_u32 (d + c * 256 + b * 65536 + a * 16777216) (omega arith) ∙ omega arith

-- Little-endian bytes determine the number.
pub of_le32-le32 : (v : ℕ) → v < 2 ^ 32 → of_le32 (le32 v) ≡ v
of_le32-le32 v h = omega arith

pub of_le16-le16 : (v : ℕ) → v < 2 ^ 16 → of_le16 (le16 v) ≡ v
of_le16-le16 v h = omega arith

pub length-store_u32 : (e : Endian) (v : ℕ) → length (store_u32 e v) ≡ 4
unfolding store_u32
length-store_u32 Endian.little v = refl
length-store_u32 Endian.big v = refl

pub length-store_u16 : (e : Endian) (v : ℕ) → length (store_u16 e v) ≡ 2
unfolding store_u16
length-store_u16 Endian.little v = refl
length-store_u16 Endian.big v = refl
