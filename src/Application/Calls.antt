-- ===== src/Application/Calls.antt =====
-- Each call of the application interface on an open device returns, and leaves nothing open.
use libfcd.Base.{
  ℕ, ◌+◌, ◌≤◌, ◌≡◌, refl, ◌⊎◌, inl, inr, Bool, true, false, ◌||◌, not, Bool-cases, Option, some,
  List, [], ◌∷◌, ◌++◌, ℤ, pos, minus, eq_ℤ, ◌==◌, leb, is_nonzero, if◌then◌else◌, length,
  length-append, arith,
}
use libfcd.Word.{store_u16, store_u32, convert_le_u16, convert_le_u32, to_i16, of_i16, u16}
use libfcd.Word.Wire.{length-store_u16, length-store_u32}
use libfcd.Platform.{Platform, Sys, Errno, Cmd, pure, uninit}
use libfcd.Platform.Returns.{Returns, Returns-and_then}
use libfcd.Command.{
  cmd_set_dc_corr, cmd_get_dc_corr, cmd_set_iq_corr, cmd_get_iq_corr, cmd_set_frequency_hz,
  cmd_get_frequency_hz, cmd_set_value_offset, ValueId, value_id,
}
use libfcd.Device.{Fcd, Buf, fcd_get, fcd_set, result_only}
use libfcd.Device.Transact.{ReadsCounted}
use libfcd.Device.Outcome.{Balanced, Ended}
use libfcd.Device.GetSet.{Settled, fcd_set-Settled, fcd_get-Ended}
use libfcd.Application.{
  BytePointer, overflow, invalid, fcd_set_dc_correction, fcd_get_dc_correction,
  fcd_set_iq_correction, fcd_get_iq_correction, fcd_set_bias_tee, fcd_get_bias_tee,
  fcd_set_frequency_hz, fcd_get_frequency_hz, fcd_set_value, fcd_get_value,
}

-- 0 or -1.
abbrev pub Code : ℤ → Type 0
Code r = (r ≡ pos 0) ⊎ (r ≡ minus 1)

module _ (p : Platform) where
  -- A test in front of a call, and the failure where it does not pass.
  guarded :
      (test : Bool) (bad good : Cmd p ℤ) (s : Sys p)
      → Returns (Settled s) (bad s)
      → Returns (Settled s) (good s)
      → Returns (Settled s) ((if test then bad else good) s)
  guarded true bad good s h k = h
  guarded false bad good s h k = k

  failed_with : (e : Errno) (s : Sys p) → Settled s (minus 1) (record s { errno = e })
  failed_with e s =
      (record { same_handles = refl; same_blocks = refl; same_printed = refl }, inr refl)

  Code-of : (s t : Sys p) (odata filled : Buf) (r : ℤ) → Ended s odata (r, filled) t → Code r
  Code-of s t odata filled r (b, inl good) = inl good
  Code-of s t odata filled r (b, inr bad) = inr bad.0

  -- What is left to say where an output comes back.
  abbrev pub Coded : {A : Type 0} → Sys p → ℤ × A → Sys p → Type 0
  Coded s (r, out) t = Balanced s t × Code r

module _ (p : Platform) (c : ReadsCounted p) (dev : Fcd) where
  -- Both corrections are sent as two 16-bit integers.
  abbrev send_pair : ℕ → ℕ → ℕ → Cmd p ℤ
  send_pair cmd a b = result_only p (
      fcd_set p (some dev) cmd
        (some (
          store_u16 p.endian (convert_le_u16 p.endian a)
          ++ store_u16 p.endian (convert_le_u16 p.endian b)))
        4)

  send_pair-Settled : (cmd a b : ℕ) (s : Sys p) → Returns (Settled s) (send_pair cmd a b s)
  send_pair-Settled cmd a b s =
      let first : List ℕ = store_u16 p.endian (convert_le_u16 p.endian a) in
      let second : List ℕ = store_u16 p.endian (convert_le_u16 p.endian b) in
      fcd_set-Settled p c dev cmd (some (first ++ second)) 4 s (
        omega (
          arith,
          length-append first second,
          length-store_u16 p.endian (convert_le_u16 p.endian a),
          length-store_u16 p.endian (convert_le_u16 p.endian b),
        ))

  pub set_dc_correction-Settled :
      (i q : ℤ) (s : Sys p) → Returns (Settled s) (fcd_set_dc_correction p (some dev) i q s)
  unfolding fcd_set_dc_correction
  set_dc_correction-Settled i q s =
      guarded p (not (eq_ℤ i (of_i16 (to_i16 i))) || not (eq_ℤ q (of_i16 (to_i16 q)))) (overflow p)
        (send_pair cmd_set_dc_corr (to_i16 i) (to_i16 q)) s (failed_with p Errno.eoverflow s)
        (send_pair-Settled cmd_set_dc_corr (to_i16 i) (to_i16 q) s)

  pub set_iq_correction-Settled :
      (phase : ℤ) (gain : ℕ) (s : Sys p)
      → Returns (Settled s) (fcd_set_iq_correction p (some dev) phase gain s)
  unfolding fcd_set_iq_correction
  set_iq_correction-Settled phase gain s =
      guarded p (not (eq_ℤ phase (of_i16 (to_i16 phase))) || not (gain == u16 gain)) (overflow p)
        (send_pair cmd_set_iq_corr (to_i16 phase) (u16 gain)) s (failed_with p Errno.eoverflow s)
        (send_pair-Settled cmd_set_iq_corr (to_i16 phase) (u16 gain) s)

  pub set_frequency_hz-Settled :
      (freq : ℕ) (s : Sys p) → Returns (Settled s) (fcd_set_frequency_hz p (some dev) freq s)
  unfolding fcd_set_frequency_hz
  set_frequency_hz-Settled freq s =
      fcd_set-Settled p c dev cmd_set_frequency_hz
        (some (store_u32 p.endian (convert_le_u32 p.endian freq))) 4 s
        (omega (arith, length-store_u32 p.endian (convert_le_u32 p.endian freq)))

  pub set_value-Settled :
      (id value : ℕ) (s : Sys p) → Returns (Settled s) (fcd_set_value p (some dev) id value s)
  unfolding fcd_set_value
  set_value-Settled id value s =
      guarded p (leb (value_id ValueId.undefined) id) (invalid p)
        (result_only p (fcd_set p (some dev) (cmd_set_value_offset + id) (some (value ∷ [])) 1)) s
        (failed_with p Errno.einval s)
        (fcd_set-Settled p c dev (cmd_set_value_offset + id) (some (value ∷ [])) 1 s (omega arith))

  pub set_bias_tee-Settled :
      (state : ℕ) (s : Sys p) → Returns (Settled s) (fcd_set_bias_tee p (some dev) state s)
  unfolding fcd_set_bias_tee
  set_bias_tee-Settled state s = set_value-Settled 16 (if state == 0 then 0 else 1) s

  pub get_dc_correction-Coded :
      (i q : Option ℤ) (s : Sys p)
      → Returns (λ (r, x, y) t. Balanced s t × Code r) (fcd_get_dc_correction p (some dev) i q s)
  unfolding fcd_get_dc_correction
  get_dc_correction-Coded i q s =
      Returns-and_then (Ended s (some (uninit p 4))) (λ (r, x, y) t. Balanced s t × Code r)
        (fcd_get p (some dev) cmd_get_dc_corr (some (uninit p 4)) 4 s) _
        (fcd_get-Ended p c dev cmd_get_dc_corr (some (uninit p 4)) 4 s (omega arith))
        (λ (r, answer) t e. elim (Bool-cases (is_nonzero r)) [
          | inl bad ↦ rw bad (e.0, Code-of p s t (some (uninit p 4)) answer r e)
          | inr good ↦ rw good (e.0, inl refl)
        ])

  pub get_iq_correction-Coded :
      (phase : Option ℤ) (gain : Option ℕ) (s : Sys p)
      → Returns
          (λ (r, x, y) t. Balanced s t × Code r)
          (fcd_get_iq_correction p (some dev) phase gain s)
  unfolding fcd_get_iq_correction
  get_iq_correction-Coded phase gain s =
      Returns-and_then (Ended s (some (uninit p 4))) (λ (r, x, y) t. Balanced s t × Code r)
        (fcd_get p (some dev) cmd_get_iq_corr (some (uninit p 4)) 4 s) _
        (fcd_get-Ended p c dev cmd_get_iq_corr (some (uninit p 4)) 4 s (omega arith))
        (λ (r, answer) t e. elim (Bool-cases (is_nonzero r)) [
          | inl bad ↦ rw bad (e.0, Code-of p s t (some (uninit p 4)) answer r e)
          | inr good ↦ rw good (e.0, inl refl)
        ])

  pub get_frequency_hz-Coded :
      (freq : ℕ) (s : Sys p) → Returns (Coded p s) (fcd_get_frequency_hz p (some dev) (some freq) s)
  unfolding fcd_get_frequency_hz
  get_frequency_hz-Coded freq s =
      Returns-and_then (Ended s (some (uninit p 4))) (Coded p s)
        (fcd_get p (some dev) cmd_get_frequency_hz (some (uninit p 4)) 4 s) _
        (fcd_get-Ended p c dev cmd_get_frequency_hz (some (uninit p 4)) 4 s (omega arith))
        (λ (r, answer) t e. elim (Bool-cases (is_nonzero r)) [
          | inl bad ↦ rw bad (e.0, Code-of p s t (some (uninit p 4)) answer r e)
          | inr good ↦ rw good (e.0, inl refl)
        ])

  pub get_value-Coded :
      (id : ℕ) (value : BytePointer) (s : Sys p)
      → 1 ≤ length value.address
      → Returns (Coded p s) (fcd_get_value p (some dev) id value s)
  unfolding fcd_get_value
  get_value-Coded id value s room = elim (Bool-cases (leb 17 id)) [
    | inl refused ↦ rw refused (failed_with p Errno.einval s)
    | inr known ↦ rw known (
        Returns-and_then (Ended s (some value.address)) (Coded p s)
          (fcd_get p (some dev) (150 + id) (some value.address) 1 s)
          (λ (r, answer). pure (r, value.target))
          (fcd_get-Ended p c dev (150 + id) (some value.address) 1 s room)
          (λ (r, answer) t e. (e.0, Code-of p s t (some value.address) answer r e)))
  ]

  pub get_bias_tee-Coded :
      (state : BytePointer) (s : Sys p)
      → 1 ≤ length state.address
      → Returns (Coded p s) (fcd_get_bias_tee p (some dev) state s)
  unfolding fcd_get_bias_tee
  get_bias_tee-Coded state s room = get_value-Coded 16 state s room
