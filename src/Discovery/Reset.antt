-- ===== src/Discovery/Reset.antt =====
-- The resets end and leave nothing open.
use libfcd.Base.{ℕ, ◌≡◌, refl, ◌∙◌, Option, none, some, [], String, ℤ, pos, arith}
use libfcd.Platform.{Platform, Sys, Cmd, pure, skip, ◌>>◌}
use libfcd.Platform.Returns.{Returns, Returns-and_then, Returns-mono}
use libfcd.Command.{cmd_reset_bootloader, cmd_reset_application}
use libfcd.Device.{Fcd, fcd_set}
use libfcd.Device.Answers.{Sent, transact-Sent}
use libfcd.Device.Transact.{ReadsCounted, request}
use libfcd.Device.Outcome.{Balanced, Ended, Balanced-trans}
use libfcd.Device.GetSet.{fcd_set-Ended, fcd_set-transact_nothing}
use libfcd.Sleep.{ms_sleep}
use libfcd.Sleep.Naps.{ms_sleep-Balanced}
use libfcd.Discovery.{
  fcd_open, fcd_close, fcd_for_each, fcd_reset, fcd_reset_bootloader, fcd_reset_application,
}
use libfcd.Discovery.Handle.{Owned, fcd_open-Owned, fcd_close-same}
use libfcd.Discovery.Walk.{fcd_for_each-Returns}

-- What `fcd_reset` does with the device that it has opened, or with NULL.
abbrev reset : (p : Platform) → ℕ → Option Fcd → Cmd p (ℤ × ℕ)
reset p cmd dev = do
  elim dev [ none ↦ skip | some d ↦ do fcd_set p (some d) cmd none 0; fcd_close p (some d) ]
  pure (pos 0, cmd)

module _ (p : Platform) (c : ReadsCounted p) where
  -- `fcd_reset` returns 0 with its context, whether or not the device can be opened or answers, so
  -- that the walk goes on, and gives back the device's blocks and handles.
  pub fcd_reset-Balanced :
      (path : String) (cmd : ℕ) (s : Sys p)
      → Returns
          (λ (result, context) s'. (result ≡ pos 0) × (context ≡ cmd) × Balanced s s')
          (fcd_reset p path cmd s)
  unfolding fcd_reset fcd_close
  fcd_reset-Balanced path cmd s =
      Returns-and_then _ _ (fcd_open p (some path) s) (reset p cmd) (fcd_open-Owned p (some path) s)
        (λ dev s' (owned, handles, errno, printed).
          reset-Balanced dev s' owned (handles, errno, printed))
    where
      reset-Balanced :
          (dev : Option Fcd) (t : Sys p)
          → Owned s.blocks dev t
          → (t.handles ≡ s.handles) × (t.errno ≡ s.errno) × (t.printed ≡ s.printed)
          → Returns
              (λ (result, context) s'. (result ≡ pos 0) × (context ≡ cmd) × Balanced s s')
              (reset p cmd dev t)
      reset-Balanced none t blocks (handles, errno, printed) = (
        refl,
        refl,
        record { same_handles = handles; same_blocks = blocks; same_printed = printed },
      )
      reset-Balanced (some dev) t (blocks, (path, known)) (handles, errno, printed) =
          Returns-and_then (λ _ u. Balanced s u)
            (λ (result, context) u. (result ≡ pos 0) × (context ≡ cmd) × Balanced s u)
            ((fcd_set p (some dev) cmd none 0 >> fcd_close p (some dev)) t) (λ _. pure (pos 0, cmd))
            sent (λ _ u b. (refl, refl, b))
        where
          sent :
              Returns
                (λ _ u. Balanced s u)
                ((fcd_set p (some dev) cmd none 0 >> fcd_close p (some dev)) t)
          sent =
              Returns-and_then (Ended t none) (λ _ u. Balanced s u)
                (fcd_set p (some dev) cmd none 0 t) (λ _. fcd_close p (some dev))
                (fcd_set-Ended p c dev cmd none 0 t refl)
                (λ (r, out) u (b, _). rw known (record {
                  same_handles = b.same_handles ∙ handles;
                  same_blocks = omega (arith, b.same_blocks, blocks);
                  same_printed = b.same_printed ∙ printed;
                }))

  reset_all-Balanced :
      (cmd delay_ms : ℕ) (s : Sys p)
      → Returns
          (λ _ s'. Balanced s s')
          ((fcd_for_each p (fcd_reset p) cmd >> ms_sleep p delay_ms) s)
  reset_all-Balanced cmd delay_ms s =
      Returns-and_then (λ _ s'. Balanced s s') (λ _ s'. Balanced s s')
        (fcd_for_each p (fcd_reset p) cmd s) (λ _. ms_sleep p delay_ms)
        (fcd_for_each-Returns p (fcd_reset p) (λ _ t. Balanced s t) (λ _ t w b. outside t w b) step
          cmd s (record { same_handles = refl; same_blocks = refl; same_printed = refl }))
        (λ _ t b.
          Returns-mono (λ _ u. Balanced t u) (λ _ u. Balanced s u) (ms_sleep p delay_ms t)
            (ms_sleep-Balanced p delay_ms t) (λ _ u b'. Balanced-trans b b'))
    where
      outside : (t : Sys p) (w : p.World) → Balanced s t → Balanced s (record t { world = w })
      outside t w b = record {
        same_handles = b.same_handles;
        same_blocks = b.same_blocks;
        same_printed = b.same_printed;
      }

      step :
          (path : String) (context : ℕ) (t : Sys p)
          → Balanced s t
          → Returns (λ _ u. Balanced s u) (fcd_reset p path context t)
      step path context t b =
          Returns-mono _ _ (fcd_reset p path context t) (fcd_reset-Balanced path context t)
            (λ _ u (_, _, b'). Balanced-trans b b')

  -- If `hid_read` counts what it reads, then the two resets of all devices always return, and
  -- leave as many hidapi handles open and as many blocks allocated as before, whatever devices
  -- are present and whichever of them answer.
  pub fcd_resets-Balanced :
      (delay_ms : ℕ) (s : Sys p)
      → Returns (λ _ s'. Balanced s s') (fcd_reset_bootloader p delay_ms s)
        × Returns (λ _ s'. Balanced s s') (fcd_reset_application p delay_ms s)
  unfolding fcd_reset_bootloader fcd_reset_application
  fcd_resets-Balanced delay_ms s = (
    reset_all-Balanced cmd_reset_bootloader delay_ms s,
    reset_all-Balanced cmd_reset_application delay_ms s,
  )

module _ (p : Platform) (c : ReadsCounted p) where
  -- Where the device can be opened and the command is sent, it is done and the walk goes on.
  pub fcd_reset-Sent :
      (path : String) (cmd : ℕ) (s : Sys p) (w1 w2 : p.World)
      → Returns
          (λ dev t. (dev ≡ some (record { path = some path })) × (t.world ≡ w1))
          (fcd_open p (some path) s)
      → Sent p (some path) w1 (request cmd 0 []) 0 w2
      → Returns
          (λ (result, context) t. (result ≡ pos 0) × (context ≡ cmd) × (t.world ≡ w2))
          (fcd_reset p path cmd s)
  unfolding fcd_reset
  fcd_reset-Sent path cmd s w1 w2 opens sent =
      Returns-and_then _ _ (fcd_open p (some path) s) (reset p cmd) opens (λ fcd t (made, world).
        rw made (
          let dev : Fcd = record { path = some path } in
          Returns-and_then (λ _ u. u.world ≡ w2)
            (λ (result, context) u. (result ≡ pos 0) × (context ≡ cmd) × (u.world ≡ w2))
            ((fcd_set p (some dev) cmd none 0 >> fcd_close p (some dev)) t) (λ _. pure (pos 0, cmd))
            (Returns-and_then (λ _ u. u.world ≡ w2) (λ _ u. u.world ≡ w2)
              (fcd_set p (some dev) cmd none 0 t) (λ _. fcd_close p (some dev))
              (rw (fcd_set-transact_nothing p c dev cmd t)
                (transact-Sent p (some path) cmd 0 [] none 0 t w2 (rw world sent)))
              (λ _ u same.
                Returns-mono _ _ (fcd_close p (some dev) u) (fcd_close-same p (some dev) u)
                  (λ _ v closed. closed.0 ∙ same)))
            (λ _ u same. (refl, refl, same))))

  -- The walk, and then the sleep.
  pub fcd_reset_bootloader-Returns :
      (delay_ms : ℕ) (s : Sys p) (P Q : Sys p → Type 0)
      → Returns (λ _ t. P t) (fcd_for_each p (fcd_reset p) cmd_reset_bootloader s)
      → ((t : Sys p) → P t → Returns (λ _ u. Q u) (ms_sleep p delay_ms t))
      → Returns (λ _ u. Q u) (fcd_reset_bootloader p delay_ms s)
  unfolding fcd_reset_bootloader
  fcd_reset_bootloader-Returns delay_ms s P Q walks sleeps =
      Returns-and_then (λ _ t. P t) (λ _ u. Q u)
        (fcd_for_each p (fcd_reset p) cmd_reset_bootloader s) (λ _. ms_sleep p delay_ms) walks
        (λ _ t h. sleeps t h)
