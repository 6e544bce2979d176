-- ===== src/Device/GetSet.antt =====
-- `fcd_get` and `fcd_set` as transactions.
use libfcd.Base.{
  ℕ, ◌-◌, ◌≤◌, min, ◌≡◌, refl, ap, ◌∙◌, none, some, List, [], ℤ, pos, minus, ◌⊎◌, length, take,
  take_all, arith,
}
use libfcd.Platform.{Platform, Sys, Cmd, pure}
use libfcd.Platform.Returns.{Returns, Returns-and_then}
use libfcd.Device.Outcome.{Balanced, Ended, fcd_io-Ended}
use libfcd.Device.{Fcd, Buf, fcd_io, fcd_get, fcd_set, result_only}
use libfcd.Device.Transact.{Holds, ReadsCounted, transact}
use libfcd.Device.Io.{fcd_io-transact}

take_full : (n : ℕ) (bs : List ℕ) → n ≡ length bs → n ≤ 63 → take (min n (63 - 0)) bs ≡ bs
take_full n bs e h = take_all (min n (63 - 0)) bs (omega arith)

module _ (p : Platform) (c : ReadsCounted p) (dev : Fcd) (cmd : ℕ) where
  pub fcd_set-transact :
      (bs : List ℕ) (n : ℕ) (s : Sys p)
      → n ≡ length bs
      → n ≤ 63
      → fcd_set p (some dev) cmd (some bs) n s ≡ transact p dev.path cmd 0 bs none 0 s
  unfolding fcd_set
  fcd_set-transact bs n s e h =
      fcd_io-transact p c dev cmd 0 (some bs) n none 0 s (omega arith) (omega arith) refl
      ∙ ap (λ payload. transact p dev.path cmd 0 payload none 0 s) (take_full n bs e h)

  pub fcd_set-transact_nothing :
      (s : Sys p) → fcd_set p (some dev) cmd none 0 s ≡ transact p dev.path cmd 0 [] none 0 s
  unfolding fcd_set
  fcd_set-transact_nothing s = fcd_io-transact p c dev cmd 0 none 0 none 0 s (omega arith) refl refl

  -- A request for more than a response holds is cut to 62 bytes.
  pub fcd_get-transact_clamped :
      (room : List ℕ) (n : ℕ) (s : Sys p)
      → n ≤ length room
      → fcd_get p (some dev) cmd (some room) n s
        ≡ transact p dev.path cmd 0 [] (some room) (min n 62) s
  unfolding fcd_get
  fcd_get-transact_clamped room n s inside =
      fcd_io-transact p c dev cmd 0 none 0 (some room) n s (omega arith) refl inside

  pub fcd_get-transact :
      (room : List ℕ) (n : ℕ) (s : Sys p)
      → n ≤ length room
      → n ≤ 62
      → fcd_get p (some dev) cmd (some room) n s ≡ transact p dev.path cmd 0 [] (some room) n s
  unfolding fcd_get
  fcd_get-transact room n s inside h =
      fcd_io-transact p c dev cmd 0 none 0 (some room) n s (omega arith) refl inside
      ∙ ap (λ k. transact p dev.path cmd 0 [] (some room) k s) {x = min n 62} {y = n} (omega arith)

-- What is left of `Ended` where the output buffer is dropped.
abbrev pub Settled : {p : Platform} → Sys p → ℤ → Sys p → Type 0
Settled s result s' = Balanced s s' × ((result ≡ pos 0) ⊎ (result ≡ minus 1))

module _ (p : Platform) where
  pub result_only-Settled :
      (m : Cmd p (ℤ × Buf)) (odata : Buf) (s : Sys p)
      → Returns (Ended s odata) (m s)
      → Returns (Settled s) (result_only p m s)
  result_only-Settled m odata s h =
      Returns-and_then (Ended s odata) (Settled s) (m s) (λ (r, out). pure r) h
        (λ (r, out) s' e. ground arith)

  pub fcd_set-Settled :
      ReadsCounted p
      → (dev : Fcd) (cmd : ℕ) (bytes : Buf) (n : ℕ) (s : Sys p) → Holds bytes n
      → Returns (Settled s) (result_only p (fcd_set p (some dev) cmd bytes n) s)
  unfolding fcd_set
  fcd_set-Settled c dev cmd bytes n s h =
      result_only-Settled (fcd_io p (some dev) cmd 0 bytes n none 0) none s
        (fcd_io-Ended p c dev cmd 0 bytes n none 0 s (omega arith) h refl)

  pub fcd_get-Ended :
      ReadsCounted p
      → (dev : Fcd) (cmd : ℕ) (room : Buf) (n : ℕ) (s : Sys p) → Holds room n
      → Returns (Ended s room) (fcd_get p (some dev) cmd room n s)
  unfolding fcd_get
  fcd_get-Ended c dev cmd room n s h =
      fcd_io-Ended p c dev cmd 0 none 0 room n s (omega arith) refl h

  pub fcd_set-Ended :
      ReadsCounted p
      → (dev : Fcd) (cmd : ℕ) (bytes : Buf) (n : ℕ) (s : Sys p) → Holds bytes n
      → Returns (Ended s none) (fcd_set p (some dev) cmd bytes n s)
  unfolding fcd_set
  fcd_set-Ended c dev cmd bytes n s h =
      fcd_io-Ended p c dev cmd 0 bytes n none 0 s (omega arith) h refl
