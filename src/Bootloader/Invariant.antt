-- ===== src/Bootloader/Invariant.antt =====
-- What the single calls keep, both flash functions keep; they end, whatever range and blocks the
-- device reports.
use libfcd.Base.{
  ℕ, zero, suc, ◌+◌, ◌-◌, ◌*◌, ◌/◌, ◌^◌, ◌≤◌, ◌<◌, ◌≡◌, refl, ◌⊎◌, inl, inr, false, Option, some,
  List, ℤ, pos, minus, is_nonzero, ltb, if◌then◌else◌, take, drop, peek, length, length-drop,
  le→leb, lt→ltb, le→ltb_false, Bool-cases, arith,
}
use libfcd.Word.{u32}
use libfcd.Platform.{Platform, Sys, pure, ◌>>=◌, uninit}
use libfcd.Platform.Returns.{Returns, Returns-and_then, Returns-mono}
use libfcd.Device.{Fcd, bytes_of}
use libfcd.Bootloader.{
  Ready, stop, go, value_of, bad_range, differ, fcd_bl_set_address, fcd_bl_get_address_range,
  fcd_bl_read_block, fcd_bl_write_block, prepare, write_loop, verify_loop, rounds, write_ready,
  verify_ready, fcd_bl_flash_write, fcd_bl_flash_verify,
}

-- A range that passes the checks is a positive number of whole blocks inside the image.
pub range_blocks :
    (start end size : ℕ)
    → size < 2 ^ 32
    → bad_range start end ≡ false
    → ltb size end ≡ false
    → (start < end) × (start + 48 * ((end - start) / 48) ≡ end) × (end ≤ size)
range_blocks start end size h whole fits = ground arith

-- The codes of the common start, and those of the verify loop.
abbrev pub EarlyCode : ℤ → Type 0
EarlyCode code = (code ≡ minus 1) ⊎ (code ≡ minus 2) ⊎ (code ≡ minus 3) ⊎ (code ≡ minus 4)

abbrev pub VerifyCode : ℤ → Type 0
VerifyCode code = (code ≡ pos 0) ⊎ (code ≡ pos 1) ⊎ (code ≡ minus 6)

abbrev IsPrepared : ℕ → Ready → Type 0
IsPrepared size (stop code) = EarlyCode code
IsPrepared size (go start end) = (bad_range start end ≡ false) × (ltb size end ≡ false)

-- A step inside the range does not wrap.
pub wraps_not : (addr end : ℕ) → addr + 48 ≤ end → end < 2 ^ 32 → u32 (addr + 48) ≡ addr + 48
wraps_not addr end h small = omega arith

pub peek_inside :
    (image : List ℕ) (addr : ℕ)
    → addr + 48 ≤ length image
    → peek image addr 48 ≡ some (take 48 (drop addr image))
peek_inside image addr h = rw (le→leb (addr + 48) (length image) h)

-- What the calls of the common start keep.
pub record Starts (p : Platform) (dev : Fcd) (Inv : Sys p → Type 0) : Type 0 where
  pub ranges :
      (start end : Option ℕ) (s : Sys p)
      → Inv s
      → Returns (λ _ s'. Inv s') (fcd_bl_get_address_range p (some dev) start end s)
  pub addresses :
      (addr : ℕ) (s : Sys p)
      → Inv s
      → Returns (λ _ s'. Inv s') (fcd_bl_set_address p (some dev) addr s)

-- What the reading of a block keeps, and the writing of one.
abbrev pub Reads : (p : Platform) → Fcd → (Sys p → Type 0) → Type 0
Reads p dev Inv =
    (room : List ℕ) (s : Sys p)
    → 48 ≤ length room
    → Inv s
    → Returns (λ _ s'. Inv s') (fcd_bl_read_block p (some dev) (some room) s)

abbrev pub Writes : (p : Platform) → Fcd → (Sys p → Type 0) → Type 0
Writes p dev Inv =
    (bs : List ℕ) (s : Sys p)
    → 48 ≤ length bs
    → Inv s
    → Returns (λ _ s'. Inv s') (fcd_bl_write_block p (some dev) (some bs) s)

module _ (p : Platform) (dev : Fcd) (Inv : Sys p → Type 0) where
  -- The loops, with `k` blocks left.
  write_loop-Inv :
      Writes p dev Inv
      → (image : List ℕ) (k fuel addr end : ℕ) (s : Sys p) → addr + 48 * k ≡ end
      → k < fuel
      → end ≤ length image
      → end < 2 ^ 32
      → Inv s
      → Returns
          (λ code s'. Inv s' × ((code ≡ pos 0) ⊎ (code ≡ minus 5)))
          (write_loop p fuel (some dev) image addr end s)
  unfolding write_loop
  write_loop-Inv keeps image k zero addr end s e h inside small b = absurd (omega arith)
  write_loop-Inv keeps image zero (suc fuel) addr end s e h inside small b =
      rw (le→ltb_false addr end (omega arith)) (b, inl refl)
  write_loop-Inv keeps image (suc k) (suc fuel) addr end s e h inside small b =
      rw (lt→ltb addr end (omega arith), wraps_not addr end (omega arith) small)
        (Returns-and_then (λ _ s'. Inv s') _ _ _
          (keeps (drop addr image) s (omega (arith, length-drop addr image)) b)
          (λ r s' w. elim (Bool-cases (is_nonzero r)) [
            | inl failed ↦ rw failed (w, inr refl)
            | inr good ↦ rw good (
                write_loop-Inv keeps image k fuel (addr + 48) end s' (omega arith) (omega arith)
                  inside small w)
          ]))

  verify_loop-Inv :
      Reads p dev Inv
      → (image : List ℕ) (k fuel addr end : ℕ) (s : Sys p) → addr + 48 * k ≡ end
      → k < fuel
      → end ≤ length image
      → end < 2 ^ 32
      → Inv s
      → Returns
          (λ code s'. Inv s' × VerifyCode code)
          (verify_loop p fuel (some dev) image addr end s)
  unfolding verify_loop
  verify_loop-Inv keeps image k zero addr end s e h inside small b = absurd (omega arith)
  verify_loop-Inv keeps image zero (suc fuel) addr end s e h inside small b =
      rw (le→ltb_false addr end (omega arith)) (b, inl refl)
  verify_loop-Inv keeps image (suc k) (suc fuel) addr end s e h inside small b =
      rw (lt→ltb addr end (omega arith), wraps_not addr end (omega arith) small)
        (Returns-and_then (λ _ s'. Inv s') _ _ _ (keeps (uninit p 48) s (omega arith) b)
          (λ (r, buffer) s' w. elim (Bool-cases (is_nonzero r)) [
            | inl failed ↦ rw failed (w, inr (inr refl))
            | inr good ↦
                rw (good, peek_inside image addr (omega arith))
                  (elim (Bool-cases (differ (bytes_of buffer) (take 48 (drop addr image)))) [
                    | inl other ↦ rw other (w, inr (inl refl))
                    | inr same ↦ rw same (
                        verify_loop-Inv keeps image k fuel (addr + 48) end s' (omega arith)
                          (omega arith) inside small w)
                  ])
          ]))

  -- The common start returns one of the codes -1 to -4, or a range that has passed the checks.
  prepare-Inv :
      Starts p dev Inv
      → (size : ℕ) (s : Sys p) → Inv s
      → Returns (λ r s'. Inv s' × IsPrepared size r) (prepare p (some dev) size s)
  unfolding prepare
  prepare-Inv starts size s b =
      Returns-and_then (λ _ s'. Inv s') _ _ _
        (starts.ranges (some (p.junk 0)) (some (p.junk 1)) s b)
        (λ (r, first, last) s1 b1. checked size s1 r first last b1)
    where
      checked :
          (size : ℕ) (s1 : Sys p) (r : ℤ) (first last : Option ℕ)
          → Inv s1
          → Returns
              (λ r s'. Inv s' × IsPrepared size r)
              ((if is_nonzero r
                  then pure (stop (minus 1))
                  else if bad_range (value_of first) (value_of last)
                  then pure (stop (minus 2))
                  else if ltb size (value_of last)
                  then pure (stop (minus 3))
                  else (do
                    failed ← fcd_bl_set_address p (some dev) (value_of first)
                    if is_nonzero failed
                        then pure (stop (minus 4))
                        else pure (go (value_of first) (value_of last))))
                s1)
      checked size s1 r first last b = elim (Bool-cases (is_nonzero r)) [
        | inl bad ↦ rw bad (b, inl refl)
        | inr good ↦ rw good (elim (Bool-cases (bad_range (value_of first) (value_of last))) [
          | inl bad ↦ rw bad (b, inr (inl refl))
          | inr whole ↦ rw whole (elim (Bool-cases (ltb size (value_of last))) [
            | inl bad ↦ rw bad (b, inr (inr (inl refl)))
            | inr fits ↦ rw fits (
                Returns-and_then (λ _ s'. Inv s') _ _ _ (starts.addresses (value_of first) s1 b)
                  (λ f s2 w. elim (Bool-cases (is_nonzero f)) [
                    | inl bad ↦ rw bad (w, inr (inr (inr refl)))
                    | inr set ↦ rw set (w, (whole, fits))
                  ]))
          ])
        ])
      ]

  pub fcd_bl_flash_write-Inv :
      Starts p dev Inv
      → Writes p dev Inv
      → (image : List ℕ) (size : ℕ) (s : Sys p) → size < 2 ^ 32
      → size ≤ length image
      → Inv s
      → Returns
          (λ code s'. Inv s' × ((code ≡ pos 0) ⊎ EarlyCode code ⊎ (code ≡ minus 5)))
          (fcd_bl_flash_write p (some dev) image size s)
  unfolding fcd_bl_flash_write
  fcd_bl_flash_write-Inv starts keeps image size s small inside b =
      Returns-and_then _ _ _ _ (prepare-Inv starts size s b) after
    where
      after :
          (r : Ready) (s1 : Sys p)
          → Inv s1 × IsPrepared size r
          → Returns
              (λ code s'. Inv s' × ((code ≡ pos 0) ⊎ EarlyCode code ⊎ (code ≡ minus 5)))
              (write_ready p (some dev) image r s1)
      after (stop code) s1 h = (h.0, inr (inl h.1))
      after (go start end) s1 h =
          let (lt, whole, fits) = range_blocks start end size small h.1.0 h.1.1 in
          Returns-mono (λ code s'. Inv s' × ((code ≡ pos 0) ⊎ (code ≡ minus 5))) _ _
            (write_loop-Inv keeps image ((end - start) / 48) (rounds start end) start end s1 whole
              (omega arith) (omega arith) (omega arith) h.0)
            (λ code s' w. (w.0, elim w.1 [ inl done ↦ inl done | inr five ↦ inr (inr five) ]))

  pub fcd_bl_flash_verify-Inv :
      Starts p dev Inv
      → Reads p dev Inv
      → (image : List ℕ) (size : ℕ) (s : Sys p) → size < 2 ^ 32
      → size ≤ length image
      → Inv s
      → Returns
          (λ code s'. Inv s' × (VerifyCode code ⊎ EarlyCode code))
          (fcd_bl_flash_verify p (some dev) image size s)
  unfolding fcd_bl_flash_verify
  fcd_bl_flash_verify-Inv starts keeps image size s small inside b =
      Returns-and_then _ _ _ _ (prepare-Inv starts size s b) after
    where
      after :
          (r : Ready) (s1 : Sys p)
          → Inv s1 × IsPrepared size r
          → Returns
              (λ code s'. Inv s' × (VerifyCode code ⊎ EarlyCode code))
              (verify_ready p (some dev) image r s1)
      after (stop code) s1 h = (h.0, inr h.1)
      after (go start end) s1 h =
          let (lt, whole, fits) = range_blocks start end size small h.1.0 h.1.1 in
          Returns-mono (λ code s'. Inv s' × VerifyCode code) _ _
            (verify_loop-Inv keeps image ((end - start) / 48) (rounds start end) start end s1 whole
              (omega arith) (omega arith) (omega arith) h.0)
            (λ code s' w. (w.0, inl w.1))
