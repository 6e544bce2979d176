-- ===== src/DebugTool/Output.antt =====
-- What the diagnostic utility, src/main.c, prints of a dongle that answers.
use mathlib.Core.Path.{fun_ext}
use libfcd.Base.{
  ℕ, zero, suc, ◌+◌, ◌≤◌, ◌<◌, ◌≡◌, ◌≢◌, refl, sym, ap, ◌∙◌, bit_and, Option, some, List, [], ◌∷◌,
  ◌++◌, append_assoc, append-nil, String, ◌<>◌, pos, ◌==◌, if◌then◌else◌, length, length-append,
  take, drop, arith,
}
use libfcd.Platform.{Platform, Sys, ok, Printed, uninit}
use libfcd.Platform.Returns.{Returns, Returns-and_then, Returns-both, Returns-mono}
use libfcd.Command.{cmd_query}
use libfcd.Device.{Fcd}
use libfcd.Device.Answers.{Answers}
use libfcd.Device.Buffer.{length-uninit}
use libfcd.Device.Transact.{ReadsCounted, request}
use libfcd.Bootloader.Chip.{Chip, cells}
use libfcd.Bootloader.Blocks.{set_address-Answers, get_range-Answers, read_block-Answers}
use libfcd.Discovery.{fcd_open, fcd_close}
use libfcd.Discovery.Handle.{fcd_open-Owned, fcd_close-same}
use libfcd.Discovery.Query.{fcd_query-Answers}
use libfcd.FlashTool.Fleet.{Fleet}
use libfcd.FlashTool.Upgrade.{fcd_open-Undisturbed}
use libfcd.DebugTool.{
  hex, c_string, dump, show_block, show_flash, diagnose, debug_opened, funcube_debug,
}

-- A line of the dump: two digits for each byte, with blanks between them and the end of the line.
abbrev pub line : List ℕ → List Printed
line [] = []
line (b ∷ []) = Printed.out (hex 2 b <> "\n") ∷ []
line (b ∷ b' ∷ bs) = Printed.out (hex 2 b <> " ") ∷ line (b' ∷ bs)

-- Lines of 16 bytes.
abbrev pub lines : ℕ → List ℕ → List Printed
lines zero bs = []
lines (suc n) bs = line (take 16 bs) ++ lines n (drop 16 bs)

-- No byte ends the text.
abbrev pub AllNonzero : List ℕ → Type 0
AllNonzero [] = Unit {0}
AllNonzero (b ∷ bs) = (b ≢ 0) × AllNonzero bs

-- A text that ends inside the first `n` bytes.
c_string-take :
    (text rest more : List ℕ) (n : ℕ)
    → AllNonzero text
    → length text < n
    → c_string (take n (text ++ 0 ∷ rest) ++ more) ≡ some text
c_string-take text rest more zero h k = absurd (omega arith)
c_string-take [] rest more (suc n) h k = refl
c_string-take (zero ∷ text) rest more (suc n) (h, hs) k = absurd (h refl)
c_string-take (suc b ∷ text) rest more (suc n) (h, hs) k =
    rw (c_string-take text rest more n hs (omega arith)) refl

-- What the loop prints.
abbrev printed_from : ℕ → List ℕ → List Printed
printed_from index [] = []
printed_from index (b ∷ bs) =
    Printed.out (hex 2 b <> (if bit_and index 15 == 15 then "\n" else " "))
    ∷ printed_from (index + 1) bs

dump-printed_from :
    (p : Platform) (index : ℕ) (bs : List ℕ) (s : Sys p)
    → dump p index bs s ≡ ok tt (record s { printed = s.printed ++ printed_from index bs })
unfolding dump
dump-printed_from p index [] s =
    ap (λ out. ok tt (record s { printed = out })) (sym (append-nil s.printed))
dump-printed_from p index (b ∷ bs) s =
    dump-printed_from p (index + 1) bs _
    ∙ ap (λ out. ok tt (record s { printed = out }))
        (append_assoc s.printed (_ ∷ []) (printed_from (index + 1) bs))

three_more :
    (before : List Printed) (a b c : Printed) (after : List Printed)
    → (((before ++ a ∷ []) ++ b ∷ []) ++ c ∷ []) ++ after ≡ before ++ a ∷ b ∷ c ∷ after
three_more before a b c after =
    append_assoc ((before ++ a ∷ []) ++ b ∷ []) (c ∷ []) after
    ∙ append_assoc (before ++ a ∷ []) (b ∷ []) (c ∷ after)
    ∙ append_assoc before (a ∷ []) (b ∷ c ∷ after)

-- A dongle that answers the query with this text, and keeps its memory.
pub record Replies {p : Platform} {path : Option String} (chip : Chip p path) (text : List ℕ)
    : Type 0 where
  pub padding : List ℕ
  pub nonzero : AllNonzero text
  pub size : length (text ++ 0 ∷ padding) ≡ 62
  pub queries :
      (w : p.World)
      → chip.ready w
      → (w' : p.World) × Answers p path w
          (request cmd_query 0 [])
          62
          (cmd_query ∷ 1 ∷ (text ++ 0 ∷ padding))
          w'
        × chip.ready w'
        × ((x : ℕ) → chip.flash w' x ≡ chip.flash w x)

module _ (p : Platform) (c : ReadsCounted p) (dev : Fcd) (chip : Chip p dev.path) where
  open chip use {ready, flash, counter, first, last}

  -- What is printed of the flash.
  abbrev flash_report : (ℕ → ℕ) → List Printed
  flash_report f =
      Printed.out ("\tRange: 0x" <> hex 8 first <> " - 0x" <> hex 8 last <> "\n")
      ∷ lines 3 (cells f first 48)

  abbrev Reported : List Printed → (ℕ → ℕ) → Sys p → Sys p → Type 0
  Reported out f s t =
      (t.printed ≡ s.printed ++ out) × ready t.world × ((x : ℕ) → flash t.world x ≡ f x)

  show_block-lines :
      (s : Sys p)
      → ready s.world
      → first < last
      → first + 48 ≤ last
      → Returns
          (λ _ t. Reported (lines 3 (cells (flash s.world) first 48)) (flash s.world) s t)
          (show_block p dev first s)
  unfolding show_block
  show_block-lines s r some_range room =
      let (w1, a1, r1, at, f1) = chip.sets_address s.world first r (omega arith) some_range in
      let (w2, a2, r2, _, f2) = chip.reads_block w1 r1 (omega (arith, at)) (omega (arith, at)) in
      rw
        (
          set_address-Answers p c dev first s w1 (omega (arith, chip.last_lt)) a1,
          read_block-Answers p c dev (flash w1) first (record s { world = w1 }) w2 (rw at at a2),
          dump-printed_from p 0 (cells (flash w1) first 48) (record s { world = w2 }),
          fun_ext f1,
        )
        (refl, r2, λ x. f2 x ∙ f1 x)

  show_flash-report :
      (s : Sys p)
      → ready s.world
      → first < last
      → first + 48 ≤ last
      → Returns
          (λ _ t. Reported (flash_report (flash s.world)) (flash s.world) s t)
          (show_flash p dev s)
  unfolding show_flash
  show_flash-report s r some_range room =
      let (w1, a1, r1, f1) = chip.reports_range s.world r in
      rw
        (get_range-Answers p c dev first last (p.junk 0) (p.junk 1) s w1
          (omega (arith, chip.last_lt)) chip.last_lt a1)
        (Returns-mono _ _ (show_block p dev first _) (show_block-lines _ r1 some_range room)
          (λ _ t (out, rt, same). (
            out
                ∙ append_assoc s.printed (_ ∷ []) (lines 3 (cells (flash w1) first 48))
                ∙ ap (λ g. s.printed ++ flash_report g) (fun_ext f1),
            rt,
            λ x. same x ∙ f1 x,
          )))

  abbrev pub report : String → List ℕ → (ℕ → ℕ) → List Printed
  report path text f =
      Printed.out ("[" <> path <> "]\t")
      ∷ Printed.out_bytes text
      ∷ Printed.out "\n"
      ∷ flash_report f

  diagnose-report :
      (path : String) (text : List ℕ) (s : Sys p)
      → Replies chip text
      → ready s.world
      → first < last
      → first + 48 ≤ last
      → Returns
          (λ result t.
            (result ≡ pos 0) × Reported (report path text (flash s.world)) (flash s.world) s t)
          (diagnose p path dev s)
  unfolding diagnose
  diagnose-report path text s replies r some_range room =
      let (w1, a1, r1, f1) = replies.queries s.world r in
      let answer = text ++ 0 ∷ replies.padding in
      rw
        (
          fcd_query-Answers p c dev (uninit p 64) answer s w1 (omega (arith, length-uninit p 64))
              replies.size a1,
          append_assoc text (0 ∷ replies.padding) (drop 62 (uninit p 64)),
          c_string-take text (replies.padding ++ drop 62 (uninit p 64)) _ 63 replies.nonzero
              (omega (arith, replies.size, length-append text (0 ∷ replies.padding))),
        )
        (Returns-and_then _ _ (show_flash p dev _) _ (show_flash-report _ r1 some_range room)
          (λ _ t (out, rt, same). (
            refl,
            (
              out
                  ∙ three_more s.printed (Printed.out ("[" <> path <> "]\t"))
                      (Printed.out_bytes text) (Printed.out "\n") (flash_report (flash w1))
                  ∙ ap (λ g. s.printed ++ report path text g) (fun_ext f1),
              rt,
              λ x. same x ∙ f1 x,
            ),
          )))

  -- With the device closed again.
  debug_opened-report :
      (path : String) (text : List ℕ) (s : Sys p)
      → Replies chip text
      → ready s.world
      → first < last
      → first + 48 ≤ last
      → Returns
          (λ result t.
            (result ≡ pos 0) × Reported (report path text (flash s.world)) (flash s.world) s t)
          (debug_opened p path (some dev) s)
  debug_opened-report path text s replies r some_range room =
      Returns-and_then _ _ (diagnose p path dev s) _
        (diagnose-report path text s replies r some_range room)
        (λ z u (e, (out, r', same)).
          Returns-and_then _ _ (fcd_close p (some dev) u) _ (fcd_close-same p (some dev) u)
            (λ _ v closed. (e, (closed.1 ∙ out, rw closed.0 r', λ x. rw closed.0 (same x)))))

module _ (p : Platform) (c : ReadsCounted p) (fleet : Fleet p) where
  open fleet use {chip}

  -- If `hid_read` counts what it reads, the dongles answer as `Fleet` says, and one is attached at
  -- the path that answers the query with a text of at most 61 bytes, and a range of at least one
  -- block, then `funcube_debug` returns 0 and prints the path, the text, the range as eight
  -- hexadecimal digits each, and the first 48 bytes of the range, two digits each, in three lines of
  -- 16, and nothing else. The dongle's flash is as it was.
  pub funcube_debug-report :
      (path : String) (text : List ℕ) (s : Sys p)
      → (chip path).ready s.world
      → Replies (chip path) text
      → (chip path).first < (chip path).last
      → (chip path).first + 48 ≤ (chip path).last
      → Returns
          (λ (result, _) t.
            (result ≡ pos 0)
            × (t.printed
                ≡ s.printed
                  ++ report p c
                      (record { path = some path })
                      (chip path)
                      path
                      text
                      ((chip path).flash s.world))
            × ((x : ℕ) → (chip path).flash t.world x ≡ (chip path).flash s.world x))
          (funcube_debug p path tt s)
  unfolding funcube_debug
  funcube_debug-report path text s r replies some_range room =
      Returns-and_then _ _ (fcd_open p (some path) s) _
        (Returns-both _ _ (fcd_open p (some path) s) (fcd_open-Undisturbed p c fleet path s r)
          (fcd_open-Owned p (some path) s))
        (λ fcd t ((made, calm), (_, _, _, out)). rw made (
          let dev : Fcd = record { path = some path } in
          Returns-and_then _ _ (debug_opened p path (some dev) t) _
            (debug_opened-report p c dev (chip path) path text t replies (calm path r).0 some_range
              room)
            (λ z u (e, (out', r', same)). (
              e,
              out'
                  ∙ ap (λ o. o ++ report p c dev (chip path) path text ((chip path).flash t.world))
                      out
                  ∙ ap (λ g. s.printed ++ report p c dev (chip path) path text g)
                      (fun_ext (calm path r).1),
              λ x. same x ∙ (calm path r).1 x,
            ))))
