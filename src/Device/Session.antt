-- ===== src/Device/Session.antt =====
-- How the library talks with a device: one request is written to a handle that is open, at most one
-- response is read, and the handle is closed before another is opened.
use libfcd.Base.{
  ℕ, ◌+◌, ◌≤◌, ◌≡◌, refl, Option, none, some, List, String, at_least, length, Bool-cases,
  Option-cases, inl, inr, ℤ, arith,
}
use libfcd.Platform.{Platform, Sys, Cmd, pure}
use libfcd.Platform.Returns.{Returns, Returns-and_then}
use libfcd.Device.{Buf, command_data_len, fcd_io, fcd_get, fcd_set, result_only}
use libfcd.Device.Transact.{
  Holds, ReadsCounted, request, parse_response, converse, conclude, transact,
}
use libfcd.Device.Io.{fcd_io-transact}

pub data Phase (p : Platform) : Type 0 where
  closed : Phase p
  opened : p.Handle → Phase p
  asked : p.Handle → Phase p
  answered : p.Handle → Phase p

-- The exchanges with the path since the world `w0`, of commands that are permitted, up to a phase
-- and a world.
pub data Session (p : Platform) (path : Option String) (Permits : ℕ → Type 0) (w0 : p.World)
    : Phase p → p.World → Type 0 where
  idle : Session p path Permits w0 Phase.closed w0
  failing :
      (w : p.World)
      → (p.hid_open_path path w).0 ≡ none
      → Session p path Permits w0 Phase.closed w
      → Session p path Permits w0 Phase.closed (p.hid_open_path path w).1
  opening :
      (h : p.Handle) (w : p.World)
      → (p.hid_open_path path w).0 ≡ some h
      → Session p path Permits w0 Phase.closed w
      → Session p path Permits w0 (Phase.opened h) (p.hid_open_path path w).1
  asking :
      (h : p.Handle) (w : p.World) (cmd iskip : ℕ) (payload : List ℕ)
      → Permits cmd
      → Session p path Permits w0 (Phase.opened h) w
      → Session p path Permits w0 (Phase.asked h) (p.hid_write h (request cmd iskip payload) w).1
  reading :
      (h : p.Handle) (w : p.World) (n : ℕ)
      → Session p path Permits w0 (Phase.asked h) w
      → Session p path Permits w0 (Phase.answered h) (p.hid_read h n w).1
  abandoning :
      (h : p.Handle) (w : p.World)
      → Session p path Permits w0 (Phase.asked h) w
      → Session p path Permits w0 Phase.closed (p.hid_close (some h) w)
  closing :
      (h : p.Handle) (w : p.World)
      → Session p path Permits w0 (Phase.answered h) w
      → Session p path Permits w0 Phase.closed (p.hid_close (some h) w)

module _ (p : Platform) (path : Option String) (Permits : ℕ → Type 0) (w0 : p.World) where
  -- All that was opened is closed.
  abbrev pub Over : Sys p → Type 0
  Over s = Session p path Permits w0 Phase.closed s.world

  transact-Over :
      (cmd iskip : ℕ) (payload : List ℕ) (odata : Buf) (n : ℕ) (s : Sys p)
      → Permits cmd
      → Over s
      → Returns (λ _ t. Over t) (transact p path cmd iskip payload odata n s)
  unfolding transact converse conclude
  transact-Over cmd iskip payload odata n s permit over =
      let w1 = (p.hid_open_path path s.world).1 in
      elim (Option-cases (p.hid_open_path path s.world).0) [
        | inl missing ↦ rw missing (Session.failing s.world missing over)
        | inr (h, found) ↦
            let open_ = Session.opening h s.world found over in
            let sent = Session.asking h w1 cmd iskip payload permit open_ in
            let w2 = (p.hid_write h (request cmd iskip payload) w1).1 in
            let got = Session.reading h w2 (n + 2) sent in
            let r = (p.hid_read h (n + 2) w2).0 in
            rw found
              (elim (Bool-cases (
                at_least (p.hid_write h (request cmd iskip payload) w1).0
                  (length (request cmd iskip payload)))) [
                    | inl whole ↦ rw whole (elim (Bool-cases (at_least r.0 (n + 2))) [
                      | inl enough ↦ rw enough (elim (Option-cases (parse_response cmd r.1)) [
                        | inl bad ↦ rw bad (Session.closing h _ got)
                        | inr (out, good) ↦ rw good (Session.closing h _ got)
                      ])
                      | inr short ↦ rw short (Session.closing h _ got)
                    ])
                    | inr cut ↦ rw cut (Session.abandoning h _ sent)
                  ])
      ]

  pub fcd_io-Over :
      ReadsCounted p
      → (cmd iskip : ℕ) (idata : Buf) (ilen : ℕ) (odata : Buf) (olen : ℕ) (s : Sys p) → Permits cmd
      → iskip ≤ command_data_len
      → Holds idata ilen
      → Holds odata olen
      → Over s
      → Returns
          (λ _ t. Over t)
          (fcd_io p (some (record { path = path })) cmd iskip idata ilen odata olen s)
  fcd_io-Over c cmd iskip idata ilen odata olen s permit skipped supply room over =
      rw
        (fcd_io-transact p c (record { path = path }) cmd iskip idata ilen odata olen s skipped
          supply room)
        (transact-Over cmd iskip _ odata _ s permit over)

  pub result_only-Over :
      (m : Cmd p (ℤ × Buf)) (s : Sys p)
      → Returns (λ _ t. Over t) (m s)
      → Returns (λ _ t. Over t) (result_only p m s)
  result_only-Over m s h =
      Returns-and_then (λ _ t. Over t) (λ _ t. Over t) (m s) (λ (r, out). pure r) h
        (λ (r, out) t over. over)

  pub fcd_get-Over :
      ReadsCounted p
      → (cmd : ℕ) (room : Buf) (n : ℕ) (s : Sys p) → Permits cmd
      → Holds room n
      → Over s
      → Returns (λ _ t. Over t) (fcd_get p (some (record { path = path })) cmd room n s)
  unfolding fcd_get
  fcd_get-Over c cmd room n s permit fits over =
      fcd_io-Over c cmd 0 none 0 room n s permit (omega arith) refl fits over

  pub fcd_set-Over :
      ReadsCounted p
      → (cmd : ℕ) (bytes : Buf) (n : ℕ) (s : Sys p) → Permits cmd
      → Holds bytes n
      → Over s
      → Returns
          (λ _ t. Over t)
          (result_only p (fcd_set p (some (record { path = path })) cmd bytes n) s)
  unfolding fcd_set
  fcd_set-Over c cmd bytes n s permit holds over =
      result_only-Over (fcd_io p (some (record { path = path })) cmd 0 bytes n none 0) s
        (fcd_io-Over c cmd 0 bytes n none 0 s permit (omega arith) holds refl over)
