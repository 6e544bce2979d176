-- ===== src/Tests/Pair.antt =====
-- A platform with a dongle behind every path, of which some are found.
use text.Mathlib.Text.{◌==◌ as str_eq}
use text.Mathlib.TextEquality.{eq_iff}
use libfcd.Base.{
  ℕ, ◌+◌, ◌*◌, ◌^◌, ◌≤◌, ◌<◌, ◌≡◌, ◌≢◌, refl, sym, ap, ◌∙◌, true, Bool-cases, inl, inr, Option,
  none, some, List, [], ◌∷◌, ◌++◌, String, pos, if◌then◌else◌, ◌==◌, get_or, length, arith,
}
use libfcd.Word.{Endian}
use libfcd.Word.Wire.{le32}
use libfcd.Platform.{Platform, DeviceInfo, Sleeper, Errno, Sys}
use libfcd.Device.Transact.{ReadsCounted, request}
use libfcd.Device.Answers.{Answers}
use libfcd.Bootloader.Chip.{Chip, cells}
use libfcd.FlashTool.Fleet.{Fleet}
use libfcd.Tests.Bench.{
  Dongle, first, last, respond, padded, length-padded, padded_exact, small, sets_counter,
}

-- One dongle has changed.
abbrev pub store : (String → Dongle) → String → Dongle → String → Dongle
store w path d x = if str_eq path x then d else w x

pub store_same : (w : String → Dongle) (path : String) (d : Dongle) → store w path d path ≡ d
store_same w path d = rw ((eq_iff path path).1 refl) refl

pub store_other :
    (w : String → Dongle) (path other : String) (d : Dongle)
    → path ≢ other
    → store w path d other ≡ w other
store_other w path other d ne = elim (Bool-cases (str_eq path other)) [
  | inl same ↦ absurd (ne ((eq_iff path other).0 same))
  | inr differs ↦ rw differs refl
]

-- The dongle at "a" has one block of flash, and the others two.
abbrev pub last_of : String → ℕ
last_of path = if str_eq path "a" then 96 else 144

pub last_of-small : (path : String) → last_of path < 2 ^ 32
last_of-small path = ground arith

pub last_of-le : (path : String) → last_of path ≤ last
last_of-le path = ground arith

-- The reset command restarts a dongle, which does not answer it; the time since then is `slept`.
abbrev pub pair_respond : String → List ℕ → Dongle → Dongle
pair_respond path req d =
    let c = get_or req 1 0 in
    if c == 255
    then record d { slept = 0; reply = [] }
    else if c == 26
    then record d { reply = 26 ∷ 1 ∷ (le32 first ++ le32 (last_of path)) }
    else respond req d

-- A dongle is ready two seconds after it has restarted.
abbrev pub Awake : String → (String → Dongle) → Type 0
Awake path w = 2000000 ≤ (w path).slept

pub still-Awake :
    (w : String → Dongle) (path : String) (d : Dongle)
    → d.slept ≡ (w path).slept
    → Awake path w
    → Awake path (store w path d)
still-Awake w path d e r = rw ((eq_iff path path).1 refl) (omega (arith, e, r))

-- Such dongles, of which some are found, as the world has it.
module _ (found : (String → Dongle) → List DeviceInfo) where
  abbrev pub linked : Platform
  linked = record {
    World = String → Dongle;
    Handle = String;
    endian = Endian.little;
    sleeper = Sleeper.by_usleep;
    junk = λ n. 170;
    malloc = λ n w. (true, w);
    strdup = λ text w. (true, w);
    hid_enumerate = λ vid pid w. (found w, w);
    hid_free_enumeration = λ devs w. w;
    hid_open_path = λ path w. (path, w);
    hid_write = λ h req w. (pos (length req), store w h (pair_respond h req (w h)));
    hid_read = λ h n w. ((pos n, padded (w h).reply n), w);
    hid_close = λ h w. w;
    usleep = λ us w path. record (w path) { slept = (w path).slept + us };
    nap = λ ms w path. record (w path) { slept = (w path).slept + 1000 * ms };
  }

  pub linked_counted : ReadsCounted linked
  linked_counted = record {
    within = λ h n w. omega (arith, length-padded (w h).reply n);
    counted = λ h n w e. length-padded (w h).reply n;
  }

  abbrev pub linked_answers :
      (path : String) (w : String → Dongle) (req : List ℕ) (n : ℕ) (response : List ℕ)
      → padded (pair_respond path req (w path)).reply (n + 2) ≡ response
      → Answers linked (some path) w req n response (store w path (pair_respond path req (w path)))
  linked_answers path w req n response e = record {
    handle = path;
    opened = w;
    written = store w path (pair_respond path req (w path));
    closing = store w path (pair_respond path req (w path));
    opens = refl;
    writes = refl;
    reads =
        ap (λ r. ((pos (n + 2), r), store w path (pair_respond path req (w path))))
          (ap (λ d. padded d.reply (n + 2)) (store_same w path (pair_respond path req (w path)))
            ∙ e);
    closes = refl;
  }

  abbrev pub linked_chip : (path : String) → Chip linked (some path)
  linked_chip path = record {
    ready = λ w. Awake path w;
    flash = λ w. (w path).flash;
    counter = λ w. (w path).counter;
    first = first;
    last = last_of path;
    last_lt = last_of-small path;
    reports_range = λ w r. (
      store w path (pair_respond path (request 26 0 []) (w path)),
      linked_answers path w (request 26 0 []) 8 (26 ∷ 1 ∷ (le32 first ++ le32 (last_of path))) refl,
      still-Awake w path (pair_respond path (request 26 0 []) (w path)) refl r,
      λ x. ap (λ d. d.flash x) (store_same w path (pair_respond path (request 26 0 []) (w path))),
    );
    sets_address = λ w a r lo hi. (
      store w path (pair_respond path (request 25 0 (le32 a)) (w path)),
      linked_answers path w (request 25 0 (le32 a)) 0 (25 ∷ 1 ∷ []) refl,
      still-Awake w path (pair_respond path (request 25 0 (le32 a)) (w path)) refl r,
      ap (λ d. d.counter) (store_same w path (pair_respond path (request 25 0 (le32 a)) (w path)))
          ∙ sets_counter (w path) a (small a (omega (arith, hi, last_of-le path))),
      λ x.
          ap (λ d. d.flash x)
            (store_same w path (pair_respond path (request 25 0 (le32 a)) (w path))),
    );
    writes_block = λ w block r size lo hi. (
      store w path (pair_respond path (request 27 1 block) (w path)),
      linked_answers path w (request 27 1 block) 0 (27 ∷ 1 ∷ []) refl,
      still-Awake w path (pair_respond path (request 27 1 block) (w path)) refl r,
      ap (λ d. d.counter) (store_same w path (pair_respond path (request 27 1 block) (w path))),
      λ x.
          ap (λ d. d.flash x) (store_same w path (pair_respond path (request 27 1 block) (w path))),
    );
    reads_block = λ w r lo hi. (
      store w path (pair_respond path (request 28 0 []) (w path)),
      linked_answers path w (request 28 0 []) 48 (28 ∷ 1 ∷ cells (w path).flash (w path).counter 48)
          (padded_exact (28 ∷ 1 ∷ cells (w path).flash (w path).counter 48) 50 refl),
      still-Awake w path (pair_respond path (request 28 0 []) (w path)) refl r,
      ap (λ d. d.counter) (store_same w path (pair_respond path (request 28 0 []) (w path))),
      λ x. ap (λ d. d.flash x) (store_same w path (pair_respond path (request 28 0 []) (w path))),
    );
  }

  -- After a transaction, the world is the one before it with the one dongle changed.
  transacted :
      (path : String) (w w' : String → Dongle) (req : List ℕ) (n : ℕ) (response : List ℕ)
      → Answers linked (some path) w req n response w'
      → store w path (pair_respond path req (w path)) ≡ w'
  transacted path w w' req n response a =
      let handle : a.handle ≡ path = sym (ap (get_or_path path) (ap (λ r. r.0) a.opens)) in
      let opened : a.opened ≡ w = sym (ap (λ r. r.1) a.opens) in
      let written = ap (λ r. r.1) a.writes in
      let closing = ap (λ r. r.1) a.reads in rw (handle, opened) at (written ∙ closing ∙ a.closes)
    where
      get_or_path : String → Option String → String
      get_or_path d none = d
      get_or_path d (some x) = x

  pub same_other :
      (path other : String) (w w' : String → Dongle) (req : List ℕ) (n : ℕ) (response : List ℕ)
      → path ≢ other
      → Answers linked (some path) w req n response w'
      → w' other ≡ w other
  same_other path other w w' req n response ne a =
      ap (λ v. v other) (sym (transacted path w w' req n response a))
      ∙ store_other w path other (pair_respond path req (w path)) ne

  abbrev pub linked_fleet : Fleet linked
  linked_fleet = record {
    chip = linked_chip;
    allocates = λ n w. (refl, λ path r. (r, λ x. refl));
    copies = λ text w. (refl, λ path r. (r, λ x. refl));
    enumerates = λ vid pid w path r. (r, λ x. refl);
    frees = λ devs w path r. (r, λ x. refl);
    opens = λ path w r. (path, refl, λ other ro. (ro, λ x. refl));
    isolates = λ path other w w' req n response ne r ro a. (
      rw (same_other path other w w' req n response ne a) ro,
      λ x. ap (λ d. d.flash x) (same_other path other w w' req n response ne a),
    );
    erases = λ path w r. (
      store w path (pair_respond path (request 24 0 []) (w path)),
      linked_answers path w (request 24 0 []) 0 (24 ∷ 1 ∷ []) refl,
      still-Awake w path (pair_respond path (request 24 0 []) (w path)) refl r,
    );
  }

-- Two are found, and a device without a path.
abbrev pub both : (String → Dongle) → List DeviceInfo
both w = record { path = some "a" } ∷ record { path = none } ∷ record { path = some "b" } ∷ []

abbrev pub pair : Platform
pair = linked both

abbrev pub pair_counted : ReadsCounted pair
pair_counted = linked_counted both

abbrev pub pair_chip : (path : String) → Chip pair (some path)
pair_chip = linked_chip both

abbrev pub fleet : Fleet pair
fleet = linked_fleet both

abbrev pub pair_start : Sys pair
pair_start = record {
  world = λ path. record { flash = λ x. 255; counter = 0; reply = []; slept = 2000000 };
  errno = Errno.other 0;
  handles = 0;
  blocks = 0;
  printed = [];
}
