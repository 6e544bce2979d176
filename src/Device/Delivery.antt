-- ===== src/Device/Delivery.antt =====
-- What a successful transaction puts into the output buffer.
use libfcd.Base.{
  ℕ, ◌+◌, ◌≤◌, ◌≡◌, min, refl, ap, inl, inr, ◌==◌, ◌&&◌, Bool-cases, Option, none, some,
  Option-cases, List, [], ◌∷◌, ◌++◌, String, ℤ, pos, at_least, length, drop, arith,
}
use libfcd.Platform.{Platform, Sys, ◌>>=◌, ◌>>◌, hid_close}
use libfcd.Platform.Returns.{Returns}
use libfcd.Device.{Fcd, Buf, fcd_get}
use libfcd.Device.Io.{fcd_io-transact}
use libfcd.Device.Transact.{request, parse_response, ReadsCounted, converse, conclude, transact}

-- On success, `n` bytes of answer are at the start, and the rest of the buffer is as it was.
abbrev pub Delivered : {p : Platform} → List ℕ → ℕ → ℤ × Buf → Sys p → Type 0
Delivered room n (result, filled) s' =
    result ≡ pos 0
    → (answer : List ℕ) × (length answer ≡ n) × (filled ≡ some (answer ++ drop n room))

delivered :
    {p : Platform} (cmd : ℕ) (got room : List ℕ) (n : ℕ) (s : Sys p)
    → length got ≡ n + 2
    → Returns (Delivered room n) (conclude p (parse_response cmd got) (some room) s)
unfolding conclude
delivered cmd [] room n s e = absurd (omega arith)
delivered cmd (c ∷ []) room n s e = absurd (omega arith)
delivered cmd (c ∷ status ∷ answer) room n s e = elim (Bool-cases (c == cmd && status == 1)) [
  | inl good ↦ rw good (λ _. (answer, size, ap (λ k. some (answer ++ drop k room)) size))
  | inr bad ↦ rw bad (λ failed. ground arith)
]
  where
    size : length answer ≡ n
    size = omega arith

pub transact-Delivered :
    (p : Platform)
    → ReadsCounted p
    → (path : Option String) (cmd iskip : ℕ) (payload room : List ℕ) (n : ℕ) (s : Sys p)
    → Returns (Delivered room n) (transact p path cmd iskip payload (some room) n s)
unfolding transact converse conclude
transact-Delivered p c path cmd iskip payload room n s =
    elim (Option-cases (p.hid_open_path path s.world).0) [
      | inl closed ↦ rw closed (λ failed. ground arith)
      | inr (h, opened) ↦ rw opened (concluded h (request cmd iskip payload) _)
    ]
  where
    concluded :
        (h : p.Handle) (req : List ℕ) (t : Sys p)
        → Returns (Delivered room n) (
            (converse p h req cmd n >>= λ answer.
            hid_close p (some h) >> conclude p answer (some room))
              t)
    concluded h req t = elim (Bool-cases (at_least (p.hid_write h req t.world).0 (length req))) [
      | inl sent ↦
          elim (Bool-cases
            (at_least (p.hid_read h (n + 2) (p.hid_write h req t.world).1).0.0 (n + 2))) [
              | inl enough ↦
                  rw (sent, enough) (delivered cmd _ room n _ (c.counted h (n + 2) _ enough))
              | inr short ↦ rw (sent, short) (λ failed. ground arith)
            ]
      | inr cut ↦ rw cut (λ failed. ground arith)
    ]

module _ (p : Platform) (c : ReadsCounted p) (dev : Fcd) where
  pub fcd_get-Delivered :
      (cmd : ℕ) (room : List ℕ) (n : ℕ) (s : Sys p)
      → n ≤ length room
      → Returns (Delivered room (min n 62)) (fcd_get p (some dev) cmd (some room) n s)
  unfolding fcd_get
  fcd_get-Delivered cmd room n s inside =
      rw (fcd_io-transact p c dev cmd 0 none 0 (some room) n s (omega arith) refl inside)
        (transact-Delivered p c dev.path cmd 0 [] room (min n 62) s)
