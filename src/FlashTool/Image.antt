-- ===== src/FlashTool/Image.antt =====
-- The image file of src/flash.c.
use libfcd.Base.{
  ℕ, ◌+◌, ◌≡◌, refl, inl, inr, Bool-cases, Option, none, some, List, ℤ, minus, eq_ℤ, if◌then◌else◌,
  ◌==◌, ==_iff, ◌≤◌, ◌∙◌, sym, poke, poke_whole, poke-some, length, arith,
}
use libfcd.Platform.{Platform, Sys, Cmd, pure, or_fault, alloc, free, uninit, ◌>>=◌, ◌>>◌}
use libfcd.Platform.Returns.{Returns, Returns-and_then}
use libfcd.Device.Buffer.{length-uninit}
use libfcd.FlashTool.Ending.{Kept}
use libfcd.FlashTool.{Host, size_of, fsize, fread, fread_all}

-- What is documented of `fread`: it stores no more than the one item, and if it counts it as read,
-- all of its bytes.
pub record ReadsWhole {p : Platform} (host : Host p) : Type 0 where
  pub within : (f : host.File) (n : ℕ) (w : p.World) → length (host.fread f n w).0.1 ≤ n
  pub whole :
      (f : host.File) (n : ℕ) (w : p.World)
      → (host.fread f n w).0.0 ≡ 1
      → length (host.fread f n w).0.1 ≡ n

module _ (p : Platform) (host : Host p) where
  -- The result of `fread_all` is an object as long as it says, which is one block more that is
  -- allocated and holds the bytes that `fread` has given, or NULL, and no block more.
  abbrev pub Read : host.File → Sys p → Option (List ℕ × ℕ) → Sys p → Type 0
  Read f s none t = Kept s t
  Read f s (some (bytes, n)) t =
      (length bytes ≡ n)
      × (t.handles ≡ s.handles)
      × (t.blocks ≡ s.blocks + 1)
      × ((w : p.World) × (bytes ≡ (host.fread f n w).0.1))

  fsize-Kept : (f : host.File) (s : Sys p) → Returns (λ _ t. Kept s t) (fsize p host f s)
  unfolding fsize
  fsize-Kept f s = elim (Bool-cases (host.fseek_end f s.world).0) [
    | inl failed ↦ rw failed (kept _ s refl refl)
    | inr moved ↦ elim (Bool-cases (eq_ℤ (host.ftell f (host.fseek_end f s.world).1).0 (minus 1))) [
      | inl lost ↦ rw (moved, lost) (kept _ s refl refl)
      | inr told ↦
          elim (Bool-cases (host.fseek_set f (host.ftell f (host.fseek_end f s.world).1).1).0) [
            | inl stuck ↦ rw (moved, told, stuck) (kept _ s refl refl)
            | inr back ↦ rw (moved, told, back) (kept _ s refl refl)
          ]
    ]
  ]
    where
      kept : (t u : Sys p) → t.handles ≡ u.handles → t.blocks ≡ u.blocks → Kept u t
      kept t u h b = record { kept_handles = h; kept_blocks = b }

  -- `fread_all` after the size.
  abbrev filled : host.File → ℤ → Cmd p (Option (List ℕ × ℕ))
  filled f size = if eq_ℤ size (minus 1) then pure none else (do
    allocated ← alloc p (size_of size)
    elim allocated [
      | none ↦ pure none
      | some buffer ↦ do
        (count, bytes) ← fread p host f (size_of size)
        stored ← or_fault (poke buffer 0 bytes)
        if count == 1 then pure (some (stored, size_of size)) else (do free p; pure none)
    ])

  filled-Read :
      ReadsWhole host
      → (f : host.File) (size : ℤ) (s t : Sys p) → Kept s t
      → Returns (Read f s) (filled f size t)
  filled-Read reads f size s t k =
      let n = size_of size in
      let w1 = (p.malloc n t.world).1 in
      let bytes = (host.fread f n w1).0.1 in
      elim (Bool-cases (eq_ℤ size (minus 1))) [
        | inl failed ↦ rw failed k
        | inr sized ↦ elim (Bool-cases (p.malloc n t.world).0) [
          | inl got ↦ elim (Bool-cases ((host.fread f n w1).0.0 == 1)) [
            | inl full ↦
                let size_of_all : length bytes ≡ n = reads.whole f n w1 ((==_iff _ 1).0 full) in
                rw
                  (
                    sized,
                    got,
                    poke_whole (uninit p n) bytes (size_of_all ∙ sym (length-uninit p n)),
                    full,
                  )
                  (size_of_all, k.kept_handles, omega (arith, k.kept_blocks), (w1, refl))
            | inr cut ↦
                let (stored, fits) =
                  poke-some (uninit p n) bytes
                    (omega (arith, reads.within f n w1, length-uninit p n)) in
                rw (sized, got, fits, cut)
                  (record {
                    kept_handles = k.kept_handles;
                    kept_blocks = omega (arith, k.kept_blocks);
                  })
          ]
          | inr refused ↦
              rw (sized, refused)
                (record { kept_handles = k.kept_handles; kept_blocks = k.kept_blocks })
        ]
      ]

  -- If `fread` stores no more than the item, and all of it where it counts it as read, `fread_all`
  -- always returns, and nothing is stored outside the object that it has allocated: the result is an
  -- object as long as it says, which holds the bytes read and is one block more than before, or NULL
  -- with no block more.
  pub fread_all-Read :
      ReadsWhole host → (f : host.File) (s : Sys p) → Returns (Read f s) (fread_all p host f s)
  unfolding fread_all
  fread_all-Read reads f s =
      Returns-and_then (λ _ t. Kept s t) (Read f s) (fsize p host f s) (filled f) (fsize-Kept f s)
        (λ size t k. filled-Read reads f size s t k)
