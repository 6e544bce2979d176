-- ===== src/Bootloader/Compare.antt =====
-- What `memcmp` tells of one block of flash, and so of the memory.
use libfcd.Base.{
  ℕ, zero, suc, ◌+◌, ◌-◌, ◌≤◌, ◌<◌, ◌≡◌, ◌≢◌, sym, ap, ◌∙◌, ◌↔◌, inl, inr, true, false, List, [],
  ◌∷◌, ◌==◌, get_or, take, drop, length, length-take, length-drop, get_or-drop, get_or-take, arith,
  Bool-cases,
}
use native.Mathlib.Decide.{dec_lt}
use libfcd.Bootloader.{differ}
use libfcd.Bootloader.Chip.{cells}

-- The memory holds the image from `start` up to `end`.
abbrev pub Matches : (ℕ → ℕ) → List ℕ → ℕ → ℕ → Type 0
Matches f image start end = (x : ℕ) → start ≤ x → x < end → f x ≡ get_or image x 0

differ-false :
    (f : ℕ → ℕ) (a n : ℕ) (ys : List ℕ)
    → length ys ≡ n
    → differ (cells f a n) ys ≡ false
    → (i : ℕ) → i < n
    → f (a + i) ≡ get_or ys i 0
unfolding differ
differ-false f a zero ys e h i lt = absurd (omega arith)
differ-false f a (suc n) [] e h i lt = absurd (omega arith)
differ-false f a (suc n) (y ∷ ys) e h zero lt =
    ground (arith, ap f {x = a + 0} {y = a} (omega arith))
differ-false f a (suc n) (y ∷ ys) e h (suc i) lt =
    ap f {x = a + suc i} {y = a + 1 + i} (omega arith)
    ∙ differ-false f (a + 1) n ys (omega arith) (ground arith) i (omega arith)

differ-true :
    (f : ℕ → ℕ) (a n : ℕ) (ys : List ℕ)
    → length ys ≡ n
    → differ (cells f a n) ys ≡ true
    → (i : ℕ) × (i < n) × (f (a + i) ≢ get_or ys i 0)
unfolding differ
differ-true f a zero [] e h = cc
differ-true f a zero (y ∷ ys) e h = absurd (omega arith)
differ-true f a (suc n) [] e h = absurd (omega arith)
differ-true f a (suc n) (y ∷ ys) e h = elim (Bool-cases (f a == y)) [
  | inl same ↦
      let (i, lt, ne) = differ-true f (a + 1) n ys (omega arith) (ground arith) in
      (suc i, omega arith, λ eq. ne (ap f {x = a + 1 + i} {y = a + suc i} (omega arith) ∙ eq))
  | inr other ↦ (0, omega arith, λ eq. ground (arith, ap f {x = a + 0} {y = a} (omega arith)))
]

length_block :
    (image : List ℕ) (a : ℕ) → a + 48 ≤ length image → length (take 48 (drop a image)) ≡ 48
length_block image a h = omega (arith, length-take 48 (drop a image), length-drop a image)

block_at :
    (image : List ℕ) (a i : ℕ)
    → i < 48
    → get_or (take 48 (drop a image)) i 0 ≡ get_or image (a + i) 0
block_at image a i h = get_or-take 48 (drop a image) i 0 h ∙ get_or-drop a image i 0

pub block-Matches :
    (f : ℕ → ℕ) (image : List ℕ) (a : ℕ)
    → a + 48 ≤ length image
    → differ (cells f a 48) (take 48 (drop a image)) ≡ false
    → Matches f image a (a + 48)
block-Matches f image a inside same x lo hi =
    ap f {x = x} {y = a + (x - a)} (omega arith)
    ∙ differ-false f a 48 (take 48 (drop a image)) (length_block image a inside) same (x - a)
        (omega arith)
    ∙ block_at image a (x - a) (omega arith)
    ∙ ap (λ k. get_or image k 0) {x = a + (x - a)} {y = x} (omega arith)

pub block_differs :
    (f : ℕ → ℕ) (image : List ℕ) (a end : ℕ)
    → a + 48 ≤ length image
    → a + 48 ≤ end
    → differ (cells f a 48) (take 48 (drop a image)) ≡ true
    → ¬ (Matches f image a end)
block_differs f image a end inside room other all =
    let (i, lt, ne) =
      differ-true f a 48 (take 48 (drop a image)) (length_block image a inside) other in
    ne (all (a + i) (omega arith) (omega arith) ∙ sym (block_at image a i lt))

-- The verdict on the rest is the verdict on the whole, once the first block is the same.
pub Matches-split :
    (f g : ℕ → ℕ) (image : List ℕ) (a end : ℕ)
    → ((x : ℕ) → g x ≡ f x)
    → a + 48 ≤ end
    → Matches f image a (a + 48)
    → Matches g image (a + 48) end ↔ Matches f image a end
Matches-split f g image a end same room block = (
  λ rest x lo hi. elim (dec_lt x (a + 48)) [
    | yes near ↦ block x lo near
    | no far ↦ sym (same x) ∙ rest x (omega arith) hi
  ],
  λ all x lo hi. same x ∙ all x (omega arith) hi,
)
