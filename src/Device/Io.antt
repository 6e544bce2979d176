-- ===== src/Device/Io.antt =====
-- `fcd_io` is one transaction with the device.
use libfcd.Base.{
  ℕ, ◌+◌, ◌-◌, ◌≤◌, min, ◌≡◌, refl, ap, ◌∙◌, false, ◌&&◌, Option, none, some, List, [], ◌∷◌, String,
  ℤ, pos, minus, at_least, is_nonzero, ◌==◌, if◌then◌else◌, length, take, drop, not, length-take,
  poke, peek, splice, poke_extends, le→leb, arith, Bool-cases, Option-cases, inl, inr,
}
use libfcd.Platform.{
  Platform, Sys, Run, ok, exit, fault, out_of_fuel, Cmd, and_then, pure, ◌>>=◌, ◌>>◌, uninit,
  hid_read, hid_close,
}
use libfcd.Device.{
  Fcd, Buf, command_data_len, buffer_len, trim_in, trim_out, fill_command, accept, receive,
  exchange, transfer, fcd_io, is_null, set_eio_if,
}
use libfcd.Device.Transact.{
  request, parse_response, overwrite, payload_of, Holds, ReadsCounted, converse, conclude, transact,
}
use libfcd.Device.Buffer.{write_buf-overwrite, length-uninit, fill_command-request, peek_payload}

-- The result pair that `accept`, `receive` and `exchange` hand on.
abbrev result_of : Option (List ℕ) → Buf → ℤ × Buf
result_of none odata = (minus 1, odata)
result_of (some payload) odata = (pos 0, overwrite odata payload)

-- The end of `fcd_io`: close the device, and report a failed exchange.
abbrev close_with : (p : Platform) → p.Handle → ℤ × Buf → Cmd p (ℤ × Buf)
close_with p h (result, filled) = do
  hid_close p (some h)
  set_eio_if p (is_nonzero result)
  pure (result, filled)

close-conclude :
    (p : Platform) (h : p.Handle) (odata : Buf) (r : Run p (Option (List ℕ)))
    → and_then (and_then r (λ answer. pure (result_of answer odata))) (close_with p h)
      ≡ and_then r (λ answer. hid_close p (some h) >> conclude p answer odata)
unfolding conclude
close-conclude p h odata (ok none s) = refl
close-conclude p h odata (ok (some payload) s) = refl
close-conclude p h odata (exit code s) = refl
close-conclude p h odata fault = refl
close-conclude p h odata out_of_fuel = refl

module _ (p : Platform) (c : ReadsCounted p) where
  -- `accept` sees only what was read, not what the buffer held before.
  accept-parse_response :
      (filled got : List ℕ) (cmd n : ℕ) (odata : Buf) (s : Sys p)
      → length got ≡ n + 2
      → length filled ≡ buffer_len
      → n ≤ 62
      → Holds odata n
      → accept p (splice filled 0 got) cmd odata n s
        ≡ ok (result_of (parse_response cmd got) odata) s
  unfolding accept
  accept-parse_response filled [] cmd n odata s len size fits holds = absurd (omega arith)
  accept-parse_response filled (c ∷ []) cmd n odata s len size fits holds = absurd (omega arith)
  accept-parse_response filled (c ∷ status ∷ payload) cmd n odata s len size fits holds =
      elim (Bool-cases (c == cmd && status == 1)) [
        | inl good ↦ rw (
          good,
          peek_payload c status payload (drop (0 + length (c ∷ status ∷ payload)) filled) n size',
          write_buf-overwrite odata payload (rw size' holds),
        )
        | inr bad ↦ rw bad
      ]
    where
      size' : length payload ≡ n
      size' = omega arith

  receive-parse_response :
      (h : p.Handle) (filled : List ℕ) (cmd n : ℕ) (odata : Buf) (s : Sys p)
      → length filled ≡ buffer_len
      → n ≤ 62
      → Holds odata n
      → receive p h filled cmd odata n s
        ≡ (hid_read p h (n + 2) >>= λ (r, got).
              pure (result_of (if at_least r (n + 2) then parse_response cmd got else none) odata))
            s
  unfolding receive
  receive-parse_response h filled cmd n odata s size fits holds =
      elim (Bool-cases (at_least (p.hid_read h (n + 2) s.world).0.0 (n + 2))) [
        | inl enough ↦
            rw (poked, enough)
              (accept-parse_response filled got cmd n odata _ (c.counted h (n + 2) s.world enough)
                size fits holds)
        | inr short ↦ rw (poked, short)
      ]
    where
      got : List ℕ
      got = (p.hid_read h (n + 2) s.world).0.1

      poked : poke filled 0 got ≡ some (splice filled 0 got)
      poked = (poke_extends filled [] got 0 refl (omega (arith, c.within h (n + 2) s.world))).0

  -- `exchange` sends the start of the buffer, and its answer depends on nothing else of it.
  exchange-converse :
      (h : p.Handle) (filled req : List ℕ) (cmd len n : ℕ) (odata : Buf) (s : Sys p)
      → length filled ≡ buffer_len
      → len ≤ buffer_len
      → take len filled ≡ req
      → n ≤ 62
      → Holds odata n
      → exchange p h filled cmd len odata n s
        ≡ (converse p h req cmd n >>= λ answer. pure (result_of answer odata)) s
  unfolding exchange converse
  exchange-converse h filled req cmd len n odata s size inside e fits holds =
      elim (Bool-cases (at_least (p.hid_write h req s.world).0 len)) [
        | inl sent ↦
            rw (peeked, sized, sent) (receive-parse_response h filled cmd n odata _ size fits holds)
        | inr cut ↦ rw (peeked, sized, cut)
      ]
    where
      sized : length req ≡ len
      sized = rw (← e) (omega (arith, length-take len filled))

      peeked : peek filled 0 len ≡ some req
      peeked = rw (le→leb (0 + len) (length filled) (omega arith)) (ap some e)

  -- With the lengths trimmed, the body of `fcd_io` is one transaction.
  transfer-transact :
      (path : Option String) (cmd iskip : ℕ) (idata : Buf) (ilen : ℕ) (odata : Buf) (n : ℕ)
      (s : Sys p)
      → iskip + ilen ≤ command_data_len
      → Holds idata ilen
      → n ≤ 62
      → Holds odata n
      → transfer p path cmd iskip idata ilen odata n s
        ≡ transact p path cmd iskip (payload_of idata ilen) odata n s
  unfolding transfer transact
  transfer-transact path cmd iskip idata ilen odata n s inside supply fits holds =
      elim (Option-cases (p.hid_open_path path s.world).0) [
        | inl closed ↦ rw closed
        | inr (h, opened) ↦
            rw (opened, filling.1, same)
              (ap (λ r. and_then r (close_with p h))
                  (exchange-converse h filling.0 (request cmd iskip payload) cmd (2 + iskip + ilen)
                    n odata _ filling.2 (omega arith) filling.3 fits holds)
                ∙ close-conclude p h odata _)
      ]
    where
      payload : List ℕ
      payload = payload_of idata ilen

      same : ilen + 2 + iskip ≡ 2 + iskip + ilen
      same = omega arith

      filling :
          (filled : List ℕ) × (fill_command (uninit p buffer_len) cmd iskip idata ilen
            ≡ some filled)
          × (length filled ≡ buffer_len)
          × (take (2 + iskip + ilen) filled ≡ request cmd iskip payload)
      filling =
          fill_command-request (uninit p buffer_len) cmd iskip idata ilen
            (length-uninit p buffer_len) inside supply

pub trim_in-min : (iskip ilen : ℕ) → iskip ≤ 63 → trim_in iskip ilen ≡ min ilen (63 - iskip)
trim_in-min iskip ilen h = ground arith

pub trim_out-min : (olen : ℕ) → trim_out olen ≡ min olen 62
trim_out-min olen = ground arith

Holds-mono : (b : Buf) {n m : ℕ} → Holds b n → m ≤ n → Holds b m
Holds-mono none h k = omega arith
Holds-mono (some bs) h k = omega arith

not_refused : (b : Buf) (n : ℕ) → Holds b n → (not (n == 0) && is_null b) ≡ false
not_refused none n h = ground arith
not_refused (some bs) n h = ground arith

-- If `hid_read` counts what it reads, then with a skip of at most 63 bytes and buffers that hold
-- the lengths asked for, `fcd_io` on an open device is one transaction: the request has the given
-- data cut to 63 bytes less the skip, and at most 62 bytes of the answer are put at the start of
-- the output buffer. What the transfer buffer held before plays no part, and no access is out of
-- bounds.
pub fcd_io-transact :
    (p : Platform)
    → ReadsCounted p
    → (dev : Fcd) (cmd iskip : ℕ) (idata : Buf) (ilen : ℕ) (odata : Buf) (olen : ℕ) (s : Sys p)
    → iskip ≤ command_data_len
    → Holds idata ilen
    → Holds odata olen
    → fcd_io p (some dev) cmd iskip idata ilen odata olen s
      ≡ transact p dev.path cmd iskip
          (payload_of idata (min ilen (63 - iskip)))
          odata
          (min olen 62)
          s
unfolding fcd_io
fcd_io-transact p c dev cmd iskip idata ilen odata olen s skipped supply room =
    rw
      (
        not_refused idata ilen supply,
        not_refused odata olen room,
        trim_in-min iskip ilen skipped,
        trim_out-min olen,
      )
      (transfer-transact p c dev.path cmd iskip idata (min ilen (63 - iskip)) odata (min olen 62) s
        (omega arith) (Holds-mono idata supply (omega arith)) (omega arith)
        (Holds-mono odata room (omega arith)))
