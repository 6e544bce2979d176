-- ===== src/Tests/Bench.antt =====
-- A platform to run the code on: one dongle that answers every command, with 96 bytes of flash.
use libfcd.Base.{
  ℕ, ◌+◌, ◌*◌, ◌^◌, ◌<◌, ◌≡◌, refl, ap, ◌∙◌, true, none, some, List, [], ◌∷◌, ◌++◌, pos, ◌==◌,
  if◌then◌else◌, get_or, take, drop, replicate, length, length-append, length-take,
  length-replicate, take-append_length, arith,
}
use libfcd.Word.{Endian}
use libfcd.Word.Wire.{le32, of_le32, of_le32-le32}
use libfcd.Platform.{Platform, Sleeper, Errno, Sys}
use libfcd.Device.{Fcd}
use libfcd.Device.Transact.{ReadsCounted, request}
use libfcd.Device.Answers.{Answers}
use libfcd.Bootloader.Chip.{Chip, cells, written_at}

pub record Dongle : Type 0 where
  pub flash : ℕ → ℕ
  pub counter : ℕ
  pub reply : List ℕ
  pub slept : ℕ

abbrev pub first : ℕ
first = 48

abbrev pub last : ℕ
last = 144

-- The frequency is 97300000 Hz, I is -2, Q is 300, the phase is -1 and the gain 40000.
abbrev pub stored : ℕ → List ℕ
stored c =
    if c == 1
    then 70 ∷ 67 ∷ 68 ∷ []
    else if c == 102
    then le32 97300000
    else if c == 107
    then 254 ∷ 255 ∷ 44 ∷ 1 ∷ []
    else if c == 109
    then 255 ∷ 255 ∷ 64 ∷ 156 ∷ []
    else 1 ∷ []

abbrev pub respond : List ℕ → Dongle → Dongle
respond req d =
    let c = get_or req 1 0 in
    if c == 25
    then record d { counter = of_le32 (drop 2 req); reply = 25 ∷ 1 ∷ [] }
    else if c == 26
    then record d { reply = 26 ∷ 1 ∷ (le32 first ++ le32 last) }
    else if c == 27
    then record d {
      flash = written_at d.flash d.counter (drop 3 req);
      counter = d.counter + 48;
      reply = 27 ∷ 1 ∷ [];
    }
    else if c == 28
    then record d { counter = d.counter + 48; reply = 28 ∷ 1 ∷ cells d.flash d.counter 48 }
    else record d { reply = c ∷ 1 ∷ stored c }

-- A response is padded with zeros.
abbrev pub padded : List ℕ → ℕ → List ℕ
padded reply n = take n (reply ++ replicate n 0)

-- A big-endian host. Any path can be opened; two devices with paths are enumerated, and one without.
abbrev pub bench : Platform
bench = record {
  World = Dongle;
  Handle = Unit {0};
  endian = Endian.big;
  sleeper = Sleeper.by_usleep;
  junk = λ n. 170;
  malloc = λ n w. (true, w);
  strdup = λ text w. (true, w);
  hid_enumerate = λ vid pid w.
      (record { path = some "a" } ∷ record { path = none } ∷ record { path = some "b" } ∷ [], w);
  hid_free_enumeration = λ devs w. w;
  hid_open_path = λ path w. (elim path [ none ↦ none | some text ↦ some tt ], w);
  hid_write = λ h req w. (pos (length req), respond req w);
  hid_read = λ h n w. ((pos n, padded w.reply n), w);
  hid_close = λ h w. w;
  usleep = λ us w. record w { slept = w.slept + us };
  nap = λ ms w. record w { slept = w.slept + 1000 * ms };
}

pub length-padded : (reply : List ℕ) (n : ℕ) → length (padded reply n) ≡ n
length-padded reply n = omega (
  arith,
  length-take n (reply ++ replicate n 0),
  length-append reply (replicate n 0),
  length-replicate {A = ℕ} n 0,
)

pub counted : ReadsCounted bench
counted = record {
  within = λ h n w. omega (arith, length-padded w.reply n);
  counted = λ h n w e. length-padded w.reply n;
}

pub padded_exact : (reply : List ℕ) (n : ℕ) → n ≡ length reply → padded reply n ≡ reply
padded_exact reply n e = take-append_length n reply (replicate n 0) e

abbrev pub dongle : Fcd
dongle = record { path = some "a" }

-- Whatever is sent, the dongle's next reply is read back, if it has the length asked for.
pub answers :
    (w : Dongle) (req : List ℕ) (n : ℕ) (response : List ℕ)
    → (respond req w).reply ≡ response
    → n + 2 ≡ length response
    → Answers bench (some "a") w req n response (respond req w)
answers w req n response e size = record {
  handle = tt;
  opened = w;
  written = respond req w;
  closing = respond req w;
  opens = refl;
  writes = refl;
  reads =
      ap (λ r. ((pos (n + 2), r), respond req w))
        (ap (λ r. padded r (n + 2)) e ∙ padded_exact response (n + 2) size);
  closes = refl;
}

pub last_small : last < 2 ^ 32
last_small = omega arith

pub small : (a : ℕ) → a < last → a < 2 ^ 32
small a h = omega arith

pub sets_counter :
    (w : Dongle) (a : ℕ) → a < 2 ^ 32 → (respond (request 25 0 (le32 a)) w).counter ≡ a
sets_counter w a h = of_le32-le32 a h

abbrev pub chip : Chip bench (some "a")
chip = record {
  ready = λ w. Unit {0};
  flash = λ w. w.flash;
  counter = λ w. w.counter;
  first = first;
  last = last;
  last_lt = last_small;
  reports_range = λ w r. (
    respond (request 26 0 []) w,
    answers w (request 26 0 []) 8 (26 ∷ 1 ∷ (le32 first ++ le32 last)) refl refl,
    tt,
    λ x. refl,
  );
  sets_address = λ w a r lo hi. (
    respond (request 25 0 (le32 a)) w,
    answers w (request 25 0 (le32 a)) 0 (25 ∷ 1 ∷ []) refl refl,
    tt,
    sets_counter w a (small a hi),
    λ x. refl,
  );
  writes_block = λ w block r size lo hi. (
    respond (request 27 1 block) w,
    answers w (request 27 1 block) 0 (27 ∷ 1 ∷ []) refl refl,
    tt,
    refl,
    λ x. refl,
  );
  reads_block = λ w r lo hi. (
    respond (request 28 0 []) w,
    answers w (request 28 0 []) 48 (28 ∷ 1 ∷ cells w.flash w.counter 48) refl refl,
    tt,
    refl,
    λ x. refl,
  );
}

-- The dongle at the start, its flash erased.
abbrev pub start : Sys bench
start = record {
  world = record { flash = λ x. 255; counter = 0; reply = []; slept = 0 };
  errno = Errno.other 0;
  handles = 0;
  blocks = 0;
  printed = [];
}
