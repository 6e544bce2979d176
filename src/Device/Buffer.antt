-- ===== src/Device/Buffer.antt =====
-- The transfer buffer of `fcd_io`: its stores stay inside it and leave the request at its start.
use libfcd.Base.{
  ℕ, zero, suc, ◌+◌, ◌≤◌, ◌≡◌, refl, sym, ap, ◌∙◌, Option, none, some, List, [], ◌∷◌, ◌++◌, length,
  take, replicate, length-append, length-replicate, length-take, poke, peek, splice, poke_extends,
  le→leb, arith, take-append_length,
}
use libfcd.Platform.{Platform, uninit}
use libfcd.Device.{Buf, read_buf, write_buf, command_data_len, buffer_len, fill_command, ◌>>?◌}
use libfcd.Device.Transact.{request, overwrite, payload_of, Holds}

pub read_buf-payload_of : (b : Buf) (n : ℕ) → Holds b n → read_buf b n ≡ some (payload_of b n)
read_buf-payload_of none zero h = refl
read_buf-payload_of none (suc n) h = absurd (omega arith)
read_buf-payload_of (some bs) n h = ground (arith, le→leb (0 + n) (length bs))

pub write_buf-overwrite :
    (b : Buf) (xs : List ℕ) → Holds b (length xs) → write_buf b xs ≡ some (overwrite b xs)
write_buf-overwrite none [] h = refl
write_buf-overwrite none (x ∷ xs) h = absurd (omega arith)
write_buf-overwrite (some bs) xs h = ground (arith, le→leb (0 + length xs) (length bs))

pub length-payload_of : (b : Buf) (n : ℕ) → Holds b n → length (payload_of b n) ≡ n
length-payload_of none n h = omega arith
length-payload_of (some bs) n h = omega (arith, length-take n bs)

pub length-uninit : (p : Platform) (n : ℕ) → length (uninit p n) ≡ n
length-uninit p zero = refl
length-uninit p (suc n) = ap suc (length-uninit p n)

>>?-some :
    (m : Option (List ℕ)) (k : List ℕ → Option (List ℕ)) {b : List ℕ} {r : Option (List ℕ)}
    → m ≡ some b
    → k b ≡ r
    → (m >>? k) ≡ r
>>?-some m k e f = rw e f

-- In a buffer of 65 bytes, with a skip and data of at most 63 bytes together that the caller's
-- buffer holds, the stores of `fcd_io` are all in bounds, and leave the request at the start
-- whatever the buffer held before.
pub fill_command-request :
    (buffer : List ℕ) (cmd iskip : ℕ) (idata : Buf) (ilen : ℕ)
    → length buffer ≡ buffer_len
    → iskip + ilen ≤ command_data_len
    → Holds idata ilen
    → (filled : List ℕ) × (fill_command buffer cmd iskip idata ilen ≡ some filled)
      × (length filled ≡ buffer_len)
      × (take (2 + iskip + ilen) filled ≡ request cmd iskip (payload_of idata ilen))
unfolding fill_command
fill_command-request buffer cmd iskip idata ilen len fits holds = (
  splice b3 (2 + iskip) payload,
  >>?-some _ _ e1.0 (
      >>?-some _ _ e2.0
        (>>?-some _ _ e3.0 (>>?-some _ _ (read_buf-payload_of idata ilen holds) e4.0))),
  omega (arith, e1.1, e2.1, e3.1, e4.1),
  ap (λ n. take n (splice b3 (2 + iskip) payload)) {x = 2 + iskip + ilen}
        {y = 2 + iskip + length payload} (omega (arith, size))
      ∙ e4.2,
)
  where
    pad : List ℕ
    pad = replicate iskip 0

    payload : List ℕ
    payload = payload_of idata ilen

    size : length payload ≡ ilen
    size = length-payload_of idata ilen holds

    b1 : List ℕ
    b1 = splice buffer 0 (0 ∷ [])

    e1 : (poke buffer 0 (0 ∷ []) ≡ some b1) × (length b1 ≡ length buffer) × (take 1 b1 ≡ 0 ∷ [])
    e1 = poke_extends buffer [] (0 ∷ []) 0 refl (omega arith)

    b2 : List ℕ
    b2 = splice b1 1 (cmd ∷ [])

    e2 : (poke b1 1 (cmd ∷ []) ≡ some b2) × (length b2 ≡ length b1) × (take 2 b2 ≡ 0 ∷ cmd ∷ [])
    e2 = poke_extends b1 (0 ∷ []) (cmd ∷ []) 1 e1.2 (omega (arith, e1.1))

    b3 : List ℕ
    b3 = splice b2 2 pad

    e3 :
        (poke b2 2 pad ≡ some b3)
        × (length b3 ≡ length b2)
        × (take (2 + length pad) b3 ≡ 0 ∷ cmd ∷ pad)
    e3 =
        poke_extends b2 (0 ∷ cmd ∷ []) pad 2 e2.2
          (omega (arith, e1.1, e2.1, length-replicate {A = ℕ} iskip 0))

    start : take (2 + iskip) b3 ≡ 0 ∷ cmd ∷ pad
    start = ap (λ n. take (2 + n) b3) (sym (length-replicate iskip 0)) ∙ e3.2

    e4 :
        (poke b3 (2 + iskip) payload ≡ some (splice b3 (2 + iskip) payload))
        × (length (splice b3 (2 + iskip) payload) ≡ length b3)
        × (take (2 + iskip + length payload) (splice b3 (2 + iskip) payload)
            ≡ 0 ∷ cmd ∷ (pad ++ payload))
    e4 =
        poke_extends b3 (0 ∷ cmd ∷ pad) payload (2 + iskip) start
          (omega (arith, e1.1, e2.1, e3.1, size))

pub peek_payload :
    (c status : ℕ) (payload rest : List ℕ) (n : ℕ)
    → length payload ≡ n
    → peek (c ∷ status ∷ (payload ++ rest)) 2 n ≡ some payload
peek_payload c status payload rest n e = rw (
  le→leb (2 + n) (length (c ∷ status ∷ (payload ++ rest)))
      (omega (arith, length-append payload rest)),
  take-append_length n payload rest (sym e),
)
