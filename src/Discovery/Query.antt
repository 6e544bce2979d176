-- ===== src/Discovery/Query.antt =====
-- `fcd_query` gives back a text that ends inside the caller's buffer.
use libfcd.Base.{
  ℕ, zero, suc, ◌-◌, ◌≤◌, ◌%◌, min, ◌≡◌, refl, ap, ◌⊎◌, inl, inr, Bool, Bool-cases, Option-cases,
  true, false, none, some, List, [], ◌∷◌, ◌++◌, ℤ, pos, is_nonzero, if◌then◌else◌, length,
  length-append, length-drop, drop, splice, poke_extends, arith,
}
use libfcd.Platform.{Platform, Sys, ok, Cmd, pure, or_fault, ◌>>=◌}
use libfcd.Platform.Returns.{Returns, Returns-and_then, Returns-both}
use libfcd.Command.{cmd_query}
use libfcd.Device.{Fcd, Buf, fcd_get}
use libfcd.Device.Transact.{ReadsCounted, request}
use libfcd.Device.Answers.{Answers, transact-Answers}
use libfcd.Device.Outcome.{Balanced, Ended}
use libfcd.Device.Session.{Over, fcd_get-Over}
use libfcd.Device.GetSet.{fcd_get-Ended, fcd_get-transact_clamped}
use libfcd.Device.Delivery.{Delivered, fcd_get-Delivered}
use libfcd.Discovery.{terminate, fcd_query}

-- NULL with the buffer as it was, or the answer, at most 62 bytes, over the start of the buffer,
-- and then 0 over the last of the `len` bytes.
abbrev pub Answered : {p : Platform} → List ℕ → ℕ → Sys p → Bool × Buf → Sys p → Type 0
Answered room len s (found, filled) s' =
    Balanced s s'
    × (((found ≡ false) × (filled ≡ some room))
        ⊎ ((found ≡ true)
            × ((answer : List ℕ) × (length answer ≡ min len 62)
                × (filled ≡ some (splice (answer ++ drop (min len 62) room) (len - 1) (0 ∷ []))))))

-- What `fcd_query` does with the result of `fcd_get`.
abbrev continued : (p : Platform) → ℕ → ℤ × Buf → Cmd p (Bool × Buf)
continued p len (result, filled) =
    if is_nonzero result
    then pure (false, filled)
    else (do ended ← or_fault (terminate filled (pos len)); pure (true, ended))

terminated :
    (bs : List ℕ) (n : ℕ)
    → suc n ≤ length bs
    → terminate (some bs) (pos (suc n)) ≡ some (some (splice bs n (0 ∷ [])))
terminated bs n h =
    ap (λ r. elim r [ none ↦ none | some b ↦ some (some b) ])
      (poke_extends bs _ (0 ∷ []) n refl (omega arith)).0

finish :
    (p : Platform) (room : List ℕ) (n : ℕ) (result : ℤ) (filled : Buf) (s s' : Sys p)
    → suc n ≤ length room
    → Ended s (some room) (result, filled) s'
    → Delivered room (min (suc n) 62) (result, filled) s'
    → Returns (Answered room (suc n) s) (continued p (suc n) (result, filled) s')
finish p room n result filled s s' inside (balanced, inl good) given =
    let (answer, size, there) = given good in
    rw
      (
        good,
        there,
        terminated (answer ++ drop (min (suc n) 62) room) n (
            omega (
              arith,
              size,
              length-append answer (drop (min (suc n) 62) room),
              length-drop (min (suc n) 62) room,
            )),
      )
      (
        balanced,
        inr (
          refl,
          (
            answer,
            size,
            ap (λ k. some (splice (answer ++ drop (min (suc n) 62) room) k (0 ∷ []))) {x = n}
                {y = suc n - 1} (omega arith),
          ),
        ),
      )
finish p room n result filled s s' inside (balanced, inr (failed, same, errno)) given =
    rw (failed, same) (balanced, inl (refl, refl))

module _ (p : Platform) (c : ReadsCounted p) (dev : Fcd) where
  -- If `hid_read` counts what it reads, then on an open device and with a buffer that holds the 1
  -- to 255 bytes it is told of, `fcd_query` always returns: NULL, with the buffer as it was, or
  -- the buffer with at most 62 bytes of answer at its start and a zero as the last of the bytes
  -- it is told of; any byte between the two is what the buffer held before. As many handles are
  -- open and as many blocks allocated as before, and nothing is printed.
  pub fcd_query-Answered :
      (room : List ℕ) (len : ℕ) (s : Sys p)
      → 1 ≤ len
      → len ≤ 255
      → len ≤ length room
      → Returns (Answered room len s) (fcd_query p (some dev) (some room) (pos len) s)
  unfolding fcd_query
  fcd_query-Answered room zero s h1 h2 inside = absurd (omega arith)
  fcd_query-Answered room (suc n) s h1 h2 inside = rw small (
      Returns-and_then _ _ (fcd_get p (some dev) cmd_query (some room) (suc n) s)
        (continued p (suc n))
        (Returns-both _ _ (fcd_get p (some dev) cmd_query (some room) (suc n) s)
          (fcd_get-Ended p c dev cmd_query (some room) (suc n) s inside)
          (fcd_get-Delivered p c dev cmd_query room (suc n) s inside))
        (λ (r, filled) s' (ended, given). finish p room n r filled s s' inside ended given))
    where
      small : suc n % 256 ≡ suc n
      small = omega arith

  -- What a dongle answers, in a buffer of 64 bytes.
  pub fcd_query-Answers :
      (room answer : List ℕ) (s : Sys p) (w' : p.World)
      → 64 ≤ length room
      → length answer ≡ 62
      → Answers p dev.path s.world (request cmd_query 0 []) 62 (cmd_query ∷ 1 ∷ answer) w'
      → fcd_query p (some dev) (some room) (pos 64) s
        ≡ ok (true, some (splice (answer ++ drop 62 room) 63 (0 ∷ []))) (record s { world = w' })
  unfolding fcd_query
  fcd_query-Answers room answer s w' inside size a =
      rw
        (
          fcd_get-transact_clamped p c dev cmd_query room 64 s inside,
          transact-Answers p dev.path cmd_query 0 [] (some room) 62 s answer w' a,
          ap (λ k. some (answer ++ drop k room)) size,
          terminated (answer ++ drop 62 room) 63
              (omega (arith, size, length-append answer (drop 62 room), length-drop 62 room)),
        )
        refl

  -- What the device has done is not changed by what is made of its answer.
  continued_same :
      (R : Sys p → Type 0) (Q : Bool × Buf → Sys p → Type 0) (len : ℕ) (result : ℤ) (filled : Buf)
      (s : Sys p)
      → R s
      → Returns Q (continued p len (result, filled) s)
      → Returns (λ a t. Q a t × R t) (continued p len (result, filled) s)
  continued_same R Q len result filled s kept h = elim (Bool-cases (is_nonzero result)) [
    | inl bad ↦ rw bad (rw bad at h, kept)
    | inr good ↦ elim (Option-cases (terminate filled (pos len))) [
      | inl missing ↦ absurd (rw (good, missing) at h)
      | inr (ended, found) ↦ rw (good, found) (rw (good, found) at h, kept)
    ]
  ]

  pub fcd_query-Over :
      (Permits : ℕ → Type 0) (w0 : p.World) (room : List ℕ) (len : ℕ) (s : Sys p)
      → 1 ≤ len
      → len ≤ 255
      → len ≤ length room
      → Permits cmd_query
      → Over p dev.path Permits w0 s
      → Returns
          (λ a t. Answered room len s a t × Over p dev.path Permits w0 t)
          (fcd_query p (some dev) (some room) (pos len) s)
  unfolding fcd_query
  fcd_query-Over Permits w0 room zero s h1 h2 inside permit over = absurd (omega arith)
  fcd_query-Over Permits w0 room (suc n) s h1 h2 inside permit over = rw small (
      Returns-and_then _ _ (fcd_get p (some dev) cmd_query (some room) (suc n) s)
        (continued p (suc n))
        (Returns-both _ _ (fcd_get p (some dev) cmd_query (some room) (suc n) s)
          (Returns-both _ _ (fcd_get p (some dev) cmd_query (some room) (suc n) s)
            (fcd_get-Ended p c dev cmd_query (some room) (suc n) s inside)
            (fcd_get-Delivered p c dev cmd_query room (suc n) s inside))
          (fcd_get-Over p dev.path Permits w0 c cmd_query (some room) (suc n) s permit inside over))
        (λ (r, filled) s' ((ended, given), after).
          continued_same (Over p dev.path Permits w0) (Answered room (suc n) s) (suc n) r filled s'
            after (finish p room n r filled s s' inside ended given)))
    where
      small : suc n % 256 ≡ suc n
      small = omega arith
