-- ===== src/DebugTool/Session.antt =====
-- Which commands the diagnostic utility sends, whatever the device answers.
use libfcd.Base.{
  ℕ, ◌+◌, ◌≡◌, refl, ◌⊎◌, inl, inr, Bool, Bool-cases, some, List, [], ◌∷◌, ◌++◌, String, pos,
  is_nonzero, take, drop, arith,
}
use libfcd.Platform.{Platform, Sys, pure, ◌>>=◌, uninit}
use libfcd.Platform.Returns.{Returns, Returns-and_then}
use libfcd.Command.{cmd_query}
use libfcd.Device.{Fcd, Buf, bytes_of}
use libfcd.Device.Transact.{ReadsCounted}
use libfcd.Device.Buffer.{length-uninit}
use libfcd.Device.Session.{Session, Phase, Over}
use libfcd.Discovery.{fcd_query}
use libfcd.Discovery.Query.{Answered, fcd_query-Over}
use libfcd.Bootloader.{fcd_bl_get_address_range, fcd_bl_set_address, fcd_bl_read_block, value_of}
use libfcd.Bootloader.Commands.{Looks, get_address_range-Over, set_address-Over, read_block-Over}
use libfcd.DebugTool.Safety.{c_string-append}
use libfcd.DebugTool.{dump, show_read, show_block, show_flash, show_query, diagnose}

-- The query, and the commands that only look at the flash.
abbrev pub Inspects : ℕ → Type 0
Inspects cmd = (cmd ≡ cmd_query) ⊎ Looks cmd

module _ (p : Platform) (c : ReadsCounted p) (fcd : Fcd) (w0 : p.World) where
  abbrev Calm : Sys p → Type 0
  Calm s = Over p fcd.path Inspects w0 s

  dump-Calm :
      (index : ℕ) (block : List ℕ) (s : Sys p)
      → Calm s
      → Returns (λ _ t. Calm t) (dump p index block s)
  unfolding dump
  dump-Calm index [] s calm = calm
  dump-Calm index (b ∷ block) s calm = dump-Calm (index + 1) block _ calm

  show_block-Calm :
      (start : ℕ) (s : Sys p) → Calm s → Returns (λ _ t. Calm t) (show_block p fcd start s)
  unfolding show_block
  show_block-Calm start s calm =
      Returns-and_then (λ _ t. Calm t) (λ _ t. Calm t) (fcd_bl_set_address p (some fcd) start s)
        (λ _. fcd_bl_read_block p (some fcd) (some (uninit p 48)) >>= show_read p)
        (set_address-Over p c fcd.path Inspects w0 start s (inr (inr (inl refl))) calm)
        (λ _ t calm'.
          Returns-and_then (λ _ u. Calm u) (λ _ u. Calm u)
            (fcd_bl_read_block p (some fcd) (some (uninit p 48)) t) (show_read p)
            (read_block-Over p c fcd.path Inspects w0 (inr (inr (inr refl))) (uninit p 48) t
              (omega (arith, length-uninit p 48)) calm')
            (λ (r, block) u after. elim (Bool-cases (is_nonzero r)) [
              | inl bad ↦ rw bad after
              | inr good ↦ rw good (dump-Calm 0 (bytes_of block) u after)
            ]))

  show_flash-Calm : (s : Sys p) → Calm s → Returns (λ _ t. Calm t) (show_flash p fcd s)
  unfolding show_flash
  show_flash-Calm s calm =
      Returns-and_then (λ _ t. Calm t) (λ _ t. Calm t)
        (fcd_bl_get_address_range p (some fcd) (some (p.junk 0)) (some (p.junk 1)) s) _
        (get_address_range-Over p c fcd.path Inspects w0 (some (p.junk 0)) (some (p.junk 1)) s
          (inr (inl refl)) calm)
        (λ (failed, start, end) t after. elim (Bool-cases (is_nonzero failed)) [
          | inl bad ↦ rw bad after
          | inr good ↦ rw good (show_block-Calm (value_of start) _ after)
        ])

  show_query-Calm :
      (path : String) (s t : Sys p) (found : Bool) (query : Buf)
      → Answered (uninit p 64) 64 s (found, query) t
      → Calm t
      → Returns (λ _ u. Calm u) (show_query p path fcd (found, query) t)
  show_query-Calm path s t found query (b, inl (missing, same)) calm = rw missing calm
  show_query-Calm path s t found query (b, inr (there, (answer, size, e))) calm =
      let (text, ends) =
        c_string-append (take 63 (answer ++ drop 62 (uninit p 64)))
          (drop 64 (answer ++ drop 62 (uninit p 64))) in
      rw (there, e, ends)
        (Returns-and_then (λ _ u. Calm u) (λ _ u. Calm u) _ (λ _. pure (pos 0))
          (show_flash-Calm _ calm) (λ _ u k. k))

-- If `hid_read` counts what it reads, then `diagnose`, what the diagnostic utility does with an
-- open device, returns, and whatever the device answers, all that it has done to it is to try to
-- open the path again and again, and where that succeeds, to write one request to the handle, to
-- read at most one response, and to close the handle. Every request is the query, or is for the
-- address range, for setting the address or for reading a block: none erases, writes or resets.
pub diagnose-Session :
    (p : Platform)
    → ReadsCounted p
    → (path : String) (fcd : Fcd) (s : Sys p)
    → Returns
        (λ result t. Session p fcd.path Inspects s.world Phase.closed t.world)
        (diagnose p path fcd s)
unfolding diagnose
diagnose-Session p c path fcd s =
    Returns-and_then (λ a t. Answered (uninit p 64) 64 s a t × Over p fcd.path Inspects s.world t) _
      (fcd_query p (some fcd) (some (uninit p 64)) (pos 64) s) (show_query p path fcd)
      (fcd_query-Over p c fcd Inspects s.world (uninit p 64) 64 s (omega arith) (omega arith)
        (omega (arith, length-uninit p 64)) (inl refl) Session.idle)
      (λ (found, query) t (answered, calm).
        show_query-Calm p c fcd s.world path s t found query answered calm)
