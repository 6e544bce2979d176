-- ===== src/Device/Answers.antt =====
-- A device that answers one transaction.
use libfcd.Base.{
  ℕ, ◌+◌, ◌≡◌, inl, inr, Option, some, List, ◌∷◌, String, ℤ, pos, at_least, le→leb, length, arith,
  Bool-cases, Option-cases,
}
use libfcd.Platform.{Platform, Sys, ok}
use libfcd.Platform.Returns.{Returns}
use libfcd.Device.{Buf}
use libfcd.Device.Transact.{request, overwrite, parse_response, converse, conclude, transact}

-- From the world `w`, opening the path, writing the request, reading `n` bytes of data with the
-- two before them, and closing all succeed, give the response, and leave the world `w'`.
pub record Answers (p : Platform) (path : Option String) (w : p.World) (req : List ℕ) (n : ℕ)
    (response : List ℕ) (w' : p.World) : Type 0 where
  pub handle : p.Handle
  pub opened : p.World
  pub written : p.World
  pub closing : p.World
  pub opens : p.hid_open_path path w ≡ (some handle, opened)
  pub writes : p.hid_write handle req opened ≡ (pos (length req), written)
  pub reads : p.hid_read handle (n + 2) written ≡ ((pos (n + 2), response), closing)
  pub closes : p.hid_close (some handle) closing ≡ w'

-- A device that answers makes the transaction succeed.
pub transact-Answers :
    (p : Platform) (path : Option String) (cmd iskip : ℕ) (payload : List ℕ) (odata : Buf) (n : ℕ)
    (s : Sys p) (out : List ℕ) (w' : p.World)
    → Answers p path s.world (request cmd iskip payload) n (cmd ∷ 1 ∷ out) w'
    → transact p path cmd iskip payload odata n s
      ≡ ok (pos 0, overwrite odata out) (record s { world = w' })
unfolding transact converse conclude
transact-Answers p path cmd iskip payload odata n s out w' a = ground (
  arith,
  le→leb (length (request cmd iskip payload)) (length (request cmd iskip payload)),
  le→leb (n + 2) (n + 2),
)

-- The request is sent whole, and whatever is read back, the world is `w'` after the path is closed.
pub record Sent (p : Platform) (path : Option String) (w : p.World) (req : List ℕ) (n : ℕ)
    (w' : p.World) : Type 0 where
  pub handle : p.Handle
  pub opened : p.World
  pub written : p.World
  pub result : ℤ
  pub got : List ℕ
  pub closing : p.World
  pub opens : p.hid_open_path path w ≡ (some handle, opened)
  pub writes : p.hid_write handle req opened ≡ (pos (length req), written)
  pub reads : p.hid_read handle (n + 2) written ≡ ((result, got), closing)
  pub closes : p.hid_close (some handle) closing ≡ w'

pub transact-Sent :
    (p : Platform) (path : Option String) (cmd iskip : ℕ) (payload : List ℕ) (odata : Buf) (n : ℕ)
    (s : Sys p) (w' : p.World)
    → Sent p path s.world (request cmd iskip payload) n w'
    → Returns (λ _ t. t.world ≡ w') (transact p path cmd iskip payload odata n s)
unfolding transact converse conclude
transact-Sent p path cmd iskip payload odata n s w' a =
    rw
      (
        a.opens,
        a.writes,
        le→leb (length (request cmd iskip payload)) (length (request cmd iskip payload))
            (omega arith),
        a.reads,
      )
      (elim (Bool-cases (at_least a.result (n + 2))) [
        | inl enough ↦ rw enough (elim (Option-cases (parse_response cmd a.got)) [
          | inl bad ↦ rw bad a.closes
          | inr (out, good) ↦ rw good a.closes
        ])
        | inr short ↦ rw short a.closes
      ])
