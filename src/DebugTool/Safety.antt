-- ===== src/DebugTool/Safety.antt =====
-- The diagnostic utility always returns, and reads no text past its end.
use libfcd.Base.{
  ℕ, zero, suc, ◌+◌, ◌≤◌, ◌≡◌, refl, ◌∙◌, inl, inr, Bool, Bool-cases, Option, none, some, List, [],
  ◌∷◌, ◌++◌, String, ℤ, pos, is_nonzero, if◌then◌else◌, take, drop, arith,
}
use libfcd.Platform.{Platform, Sys, pure, ◌>>=◌, ◌>>◌, uninit}
use libfcd.Platform.Returns.{Returns, Returns-and_then, Returns-mono}
use libfcd.Device.{Fcd, Buf, bytes_of}
use libfcd.Device.Transact.{ReadsCounted}
use libfcd.Device.Buffer.{length-uninit}
use libfcd.Device.Outcome.{Balanced, Ended}
use libfcd.Device.GetSet.{Settled}
use libfcd.Discovery.{fcd_open, fcd_close, fcd_query, fcd_for_each}
use libfcd.Discovery.Handle.{Owned, fcd_open-Owned}
use libfcd.Discovery.Query.{Answered, fcd_query-Answered}
use libfcd.Discovery.Walk.{fcd_for_each-Returns}
use libfcd.Bootloader.{fcd_bl_get_address_range, fcd_bl_set_address, fcd_bl_read_block, value_of}
use libfcd.Bootloader.Single.{get_address_range-Balanced, set_address-Settled, read_block-Ended}
use libfcd.FlashTool.Ending.{Kept, Kept-trans}
use libfcd.FlashTool.Callback.{Balanced-Kept}
use libfcd.DebugTool.{
  c_string, dump, show_read, show_block, show_flash, show_query, debug_opened, diagnose,
  funcube_debug, debug_main,
}

-- A zero anywhere ends the text.
pub c_string-append :
    (before after : List ℕ) → (text : List ℕ) × (c_string (before ++ 0 ∷ after) ≡ some text)
c_string-append [] after = ([], refl)
c_string-append (zero ∷ before) after = ([], refl)
c_string-append (suc b ∷ before) after =
    let (text, e) = c_string-append before after in (suc b ∷ text, rw e)

module _ (p : Platform) where
  kept : (s t : Sys p) → s.handles ≡ t.handles → s.blocks ≡ t.blocks → Kept t s
  kept s t h b = record { kept_handles = h; kept_blocks = b }

  dump-Kept :
      (index : ℕ) (block : List ℕ) (s t : Sys p)
      → Kept s t
      → Returns (λ _ u. Kept s u) (dump p index block t)
  unfolding dump
  dump-Kept index [] s t k = k
  dump-Kept index (b ∷ block) s t k =
      dump-Kept (index + 1) block s _
        (record { kept_handles = k.kept_handles; kept_blocks = k.kept_blocks })

module _ (p : Platform) (c : ReadsCounted p) where
  show_block-Kept :
      (fcd : Fcd) (start : ℕ) (s t : Sys p)
      → Kept s t
      → Returns (λ _ u. Kept s u) (show_block p fcd start t)
  unfolding show_block
  show_block-Kept fcd start s t k =
      Returns-and_then (Settled t) (λ _ u. Kept s u) (fcd_bl_set_address p (some fcd) start t)
        (λ _. fcd_bl_read_block p (some fcd) (some (uninit p 48)) >>= show_read p)
        (set_address-Settled p c fcd start t)
        (λ _ u b.
          Returns-and_then (Ended u (some (uninit p 48))) (λ _ v. Kept s v)
            (fcd_bl_read_block p (some fcd) (some (uninit p 48)) u) (show_read p)
            (read_block-Ended p c fcd (uninit p 48) u (omega (arith, length-uninit p 48)))
            (λ (r, block) v e.
              shown r block v (Kept-trans k (Kept-trans (Balanced-Kept b.0) (Balanced-Kept e.0)))))
    where
      shown :
          (r : ℤ) (block : Buf) (v : Sys p)
          → Kept s v
          → Returns (λ _ w. Kept s w) (show_read p (r, block) v)
      shown r block v k' = elim (Bool-cases (is_nonzero r)) [
        | inl bad ↦ rw bad k'
        | inr good ↦ rw good (dump-Kept p 0 (bytes_of block) s v k')
      ]

  show_flash-Kept :
      (fcd : Fcd) (s t : Sys p) → Kept s t → Returns (λ _ u. Kept s u) (show_flash p fcd t)
  unfolding show_flash
  show_flash-Kept fcd s t k =
      Returns-and_then (λ _ u. Balanced t u) (λ _ u. Kept s u)
        (fcd_bl_get_address_range p (some fcd) (some (p.junk 0)) (some (p.junk 1)) t) _
        (get_address_range-Balanced p c fcd (some (p.junk 0)) (some (p.junk 1)) t)
        (λ (failed, start, end) u b. elim (Bool-cases (is_nonzero failed)) [
          | inl bad ↦ rw bad (Kept-trans k (Balanced-Kept b))
          | inr good ↦ rw good (
              show_block-Kept fcd (value_of start) s _
                (kept p _ s (b.same_handles ∙ k.kept_handles) (b.same_blocks ∙ k.kept_blocks)))
        ])

  show_query-Kept :
      (path : String) (fcd : Fcd) (s t : Sys p) (found : Bool) (query : Buf)
      → Answered (uninit p 64) 64 s (found, query) t
      → Returns (λ _ u. Kept s u) (show_query p path fcd (found, query) t)
  show_query-Kept path fcd s t found query (b, inl (missing, same)) =
      rw missing (kept p _ s b.same_handles b.same_blocks)
  show_query-Kept path fcd s t found query (b, inr (there, (answer, size, e))) =
      let (text, ends) =
        c_string-append (take 63 (answer ++ drop 62 (uninit p 64)))
          (drop 64 (answer ++ drop 62 (uninit p 64))) in
      rw (there, e, ends)
        (Returns-and_then (λ _ u. Kept s u) (λ _ u. Kept s u) _ (λ _. pure (pos 0))
          (show_flash-Kept fcd s _ (kept p _ s b.same_handles b.same_blocks)) (λ _ u k. k))

  diagnose-Kept :
      (path : String) (fcd : Fcd) (s : Sys p) → Returns (λ _ t. Kept s t) (diagnose p path fcd s)
  unfolding diagnose
  diagnose-Kept path fcd s =
      Returns-and_then (Answered (uninit p 64) 64 s) (λ _ t. Kept s t)
        (fcd_query p (some fcd) (some (uninit p 64)) (pos 64) s) (show_query p path fcd)
        (fcd_query-Answered p c fcd (uninit p 64) 64 s (omega arith) (omega arith)
          (omega (arith, length-uninit p 64)))
        (λ (found, query) t a. show_query-Kept path fcd s t found query a)

  opened-Kept :
      (path : String) (fcd : Option Fcd) (s t : Sys p)
      → Owned s.blocks fcd t
      → t.handles ≡ s.handles
      → Returns (λ _ u. Kept s u) (debug_opened p path fcd t)
  unfolding fcd_close
  opened-Kept path none s t owned h = kept p _ s h owned
  opened-Kept path (some fcd) s t (blocks, (name, known)) h =
      Returns-and_then (λ _ u. Kept t u) (λ _ u. Kept s u) (diagnose p path fcd t)
        (λ result. fcd_close p (some fcd) >> pure result) (diagnose-Kept path fcd t)
        (λ result u k.
          rw known (kept p _ s (k.kept_handles ∙ h) (omega (arith, k.kept_blocks, blocks))))

  funcube_debug-Kept :
      (path : String) (context : Unit {0}) (s : Sys p)
      → Returns (λ _ t. Kept s t) (funcube_debug p path context s)
  unfolding funcube_debug
  funcube_debug-Kept path context s =
      Returns-and_then _ (λ _ t. Kept s t) (fcd_open p (some path) s)
        (λ fcd. debug_opened p path fcd >>= λ result. pure (result, context))
        (fcd_open-Owned p (some path) s)
        (λ fcd t (owned, h, _, _).
          Returns-and_then (λ _ u. Kept s u) (λ _ u. Kept s u) (debug_opened p path fcd t)
            (λ result. pure (result, context)) (opened-Kept path fcd s t owned h) (λ _ u k. k))

  -- If `hid_read` counts what it reads, the diagnostic utility always returns 0 or 1, whatever the devices
  -- are and answer; the text that it prints of a device ends inside its buffer, and as many hidapi
  -- handles are open and as many blocks allocated as before.
  pub debug_main-Kept : (s : Sys p) → Returns (λ code t. (code ≤ 1) × Kept s t) (debug_main p s)
  unfolding debug_main
  debug_main-Kept s =
      Returns-and_then (λ _ t. Kept s t) (λ code t. (code ≤ 1) × Kept s t)
        (fcd_for_each p (funcube_debug p) tt s)
        (λ (failed, context). pure (if is_nonzero failed then 1 else 0))
        (fcd_for_each-Returns p (funcube_debug p) (λ _ t. Kept s t)
          (λ _ t w k. kept p _ s k.kept_handles k.kept_blocks)
          (λ path context t k.
            Returns-mono (λ _ u. Kept t u) (λ _ u. Kept s u) (funcube_debug p path context t)
              (funcube_debug-Kept path context t) (λ _ u k'. Kept-trans k k'))
          tt s (kept p s s refl refl))
        (λ (failed, context) t k. (status failed, k))
    where
      status : (failed : ℤ) → (if is_nonzero failed then 1 else 0) ≤ 1
      status failed = ground arith
