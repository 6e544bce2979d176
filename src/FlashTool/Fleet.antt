-- ===== src/FlashTool/Fleet.antt =====
-- What the firmware utility, src/flash.c, relies on of the dongles that are attached: each is in
-- bootloader mode behind a path of its own, and a transaction with one leaves the others alone.
use libfcd.Base.{ℕ, ◌≡◌, ◌≢◌, refl, ◌∙◌, true, some, List, [], ◌∷◌, String}
use libfcd.Platform.{Platform, DeviceInfo}
use libfcd.Command.{cmd_erase_application}
use libfcd.Device.Transact.{request}
use libfcd.Device.Answers.{Answers}
use libfcd.Bootloader.Chip.{Chip}

-- The dongles that are there in the one world are there in the other, with the same memory.
abbrev pub Undisturbed :
    {p : Platform} → ((path : String) → Chip p (some path)) → p.World → p.World → Type 0
Undisturbed chip w w' =
    (path : String)
    → (chip path).ready w
    → (chip path).ready w' × ((x : ℕ) → (chip path).flash w' x ≡ (chip path).flash w x)

-- Dongles in bootloader mode by their paths; `ready` of a chip tells whether one is attached there.
-- Memory does not run out, and looking for devices or opening one disturbs none.
pub record Fleet (p : Platform) : Type 1 where
  pub chip : (path : String) → Chip p (some path)
  pub allocates :
      (n : ℕ) (w : p.World) → ((p.malloc n w).0 ≡ true) × Undisturbed chip w (p.malloc n w).1
  pub copies :
      (text : String) (w : p.World)
      → ((p.strdup text w).0 ≡ true) × Undisturbed chip w (p.strdup text w).1
  pub enumerates : (vid pid : ℕ) (w : p.World) → Undisturbed chip w (p.hid_enumerate vid pid w).1
  pub frees :
      (devs : List DeviceInfo) (w : p.World) → Undisturbed chip w (p.hid_free_enumeration devs w)
  pub opens :
      (path : String) (w : p.World)
      → (chip path).ready w
      → (h : p.Handle) × ((p.hid_open_path (some path) w).0 ≡ some h)
        × Undisturbed chip w
            (p.hid_close (some h) (p.strdup path (p.hid_open_path (some path) w).1).1)
  pub isolates :
      (path other : String) (w w' : p.World) (req : List ℕ) (n : ℕ) (response : List ℕ)
      → path ≢ other
      → (chip path).ready w
      → (chip other).ready w
      → Answers p (some path) w req n response w'
      → (chip other).ready w' × ((x : ℕ) → (chip other).flash w' x ≡ (chip other).flash w x)
  pub erases :
      (path : String) (w : p.World)
      → (chip path).ready w
      → (w' : p.World) × Answers p
          (some path)
          w
          (request cmd_erase_application 0 [])
          0
          (cmd_erase_application ∷ 1 ∷ [])
          w'
        × (chip path).ready w'

module _ {p : Platform} (fleet : Fleet p) where
  open fleet use {chip}

  -- The dongles at other paths are as they were.
  abbrev pub OthersKept : String → p.World → p.World → Type 0
  OthersKept path w w' =
      (other : String)
      → path ≢ other
      → (chip other).ready w
      → (chip other).ready w' × ((x : ℕ) → (chip other).flash w' x ≡ (chip other).flash w x)

  pub OthersKept-refl : (path : String) (w : p.World) → OthersKept path w w
  OthersKept-refl path w other ne r = (r, λ x. refl)

  pub OthersKept-trans :
      (path : String) (w w' w2 : p.World)
      → OthersKept path w w'
      → OthersKept path w' w2
      → OthersKept path w w2
  OthersKept-trans path w w' w2 f g other ne r =
      let (r', same) = f other ne r in
      let (r2, same2) = g other ne r' in (r2, λ x. same2 x ∙ same x)

  pub Undisturbed-OthersKept :
      (path : String) (w w' : p.World) → Undisturbed chip w w' → OthersKept path w w'
  Undisturbed-OthersKept path w w' u other ne r = u other r

  -- One more transaction with the dongle leaves the others as they were.
  pub Answers-OthersKept :
      (path : String) (w w' w2 : p.World) (req : List ℕ) (n : ℕ) (response : List ℕ)
      → OthersKept path w w'
      → (chip path).ready w'
      → Answers p (some path) w' req n response w2
      → OthersKept path w w2
  Answers-OthersKept path w w' w2 req n response kept r a =
      OthersKept-trans path w w' w2 kept
        (λ other ne r'. fleet.isolates path other w' w2 req n response ne r r' a)

  -- The dongle at a path, watched together with all the others: it is ready while they are as they
  -- were in the world `w0`.
  abbrev pub watched : p.World → (path : String) → Chip p (some path)
  watched w0 path = record {
    ready = λ w. (chip path).ready w × OthersKept path w0 w;
    flash = (chip path).flash;
    counter = (chip path).counter;
    first = (chip path).first;
    last = (chip path).last;
    last_lt = (chip path).last_lt;
    reports_range = λ w r.
        let (w', a, r', f) = (chip path).reports_range w r.0 in
        (w', a, (r', Answers-OthersKept path w0 w w' _ _ _ r.1 r.0 a), f);
    sets_address = λ w addr r lo hi.
        let (w', a, r', at, f) = (chip path).sets_address w addr r.0 lo hi in
        (w', a, (r', Answers-OthersKept path w0 w w' _ _ _ r.1 r.0 a), at, f);
    writes_block = λ w block r size lo hi.
        let (w', a, r', at, f) = (chip path).writes_block w block r.0 size lo hi in
        (w', a, (r', Answers-OthersKept path w0 w w' _ _ _ r.1 r.0 a), at, f);
    reads_block = λ w r lo hi.
        let (w', a, r', at, f) = (chip path).reads_block w r.0 lo hi in
        (w', a, (r', Answers-OthersKept path w0 w w' _ _ _ r.1 r.0 a), at, f);
  }
