-- ===== src/Tests/Attached.antt =====
-- The image file, the query and the restart of the pair of dongles.
use text.Mathlib.Text.{◌==◌ as str_eq}
use libfcd.Base.{
  leb, le→leb, none, Bool-cases, inl, inr, if◌then◌else◌, ℕ, ◌+◌, ◌≡◌, refl, ap, false, some, List,
  [], ◌∷◌, ◌++◌, String, pos, replicate, arith,
}
use libfcd.Platform.{Platform, DeviceInfo, Sys, Errno}
use libfcd.Device.Transact.{request}
use libfcd.FlashTool.{Host}
use libfcd.FlashTool.Fleet.{Undisturbed}
use libfcd.FlashTool.Upgrade.File.{Readable}
use libfcd.FlashTool.Upgrade.Reboot.{Calm, Reboots}
use libfcd.Sleep.Naps.{total, after_naps}
use libfcd.FlashTool.Upgrade.Full.{Finds}
use libfcd.DebugTool.Output.{Replies}
use libfcd.Tests.Bench.{Dongle, padded}
use libfcd.Tests.Pair.{
  pair, store, store_same, pair_respond, linked_answers, linked_counted, linked, linked_fleet, both,
  pair_chip, still-Awake,
}

-- A file of a size, all of whose bytes are 7.
abbrev pub host_of : (p : Platform) → ℕ → Host p
host_of p size = record {
  File = Unit {0};
  fopen = λ name w. (some tt, w);
  fseek_end = λ f w. (false, w);
  fseek_set = λ f w. (false, w);
  ftell = λ f w. (pos size, w);
  fread = λ f n w. ((1, replicate n 7), w);
  fclose = λ f w. w;
  strtoul = λ text. some 1000;
  strerror = λ w e. "error";
  package_name = "libfcd";
  package_version = "0";
}

abbrev pub pair_host : Host pair
pair_host = host_of pair 144

abbrev pub firmware : List ℕ
firmware = replicate 144 7

pub readable : Readable pair_host (Undisturbed pair_chip) "fw.bin" firmware
readable = record {
  file = tt;
  AtEnd = λ w. Unit {0};
  AtStart = λ w. Unit {0};
  opens = λ w. (refl, λ path r. (r, λ x. refl));
  ends = λ w. (refl, tt, λ path r. (r, λ x. refl));
  tells = λ w e. (refl, λ path r. (r, λ x. refl));
  rewinds = λ w. (refl, tt, λ path r. (r, λ x. refl));
  allocates = λ n w e. tt;
  reads = λ w e. (refl, λ path r. (r, λ x. refl));
  closes = λ w path r. (r, λ x. refl);
}

-- A file of 100 bytes: the image reaches the end of the range of the dongle at "a" only.
abbrev pub short_host : Host pair
short_host = host_of pair 100

pub short_file : Readable short_host (Undisturbed pair_chip) "fw.bin" (replicate 100 7)
short_file = record {
  file = tt;
  AtEnd = λ w. Unit {0};
  AtStart = λ w. Unit {0};
  opens = λ w. (refl, λ path r. (r, λ x. refl));
  ends = λ w. (refl, tt, λ path r. (r, λ x. refl));
  tells = λ w e. (refl, λ path r. (r, λ x. refl));
  rewinds = λ w. (refl, tt, λ path r. (r, λ x. refl));
  allocates = λ n w e. tt;
  reads = λ w e. (refl, λ path r. (r, λ x. refl));
  closes = λ w path r. (r, λ x. refl);
}

-- The text is FCD.
abbrev pub greeting : List ℕ
greeting = 70 ∷ 67 ∷ 68 ∷ []

abbrev pub greets : (path : String) → Replies (pair_chip path) greeting
greets path = record {
  padding = replicate 58 0;
  nonzero = (
    λ e. absurd (omega (arith, e)),
    ((λ e. absurd (omega (arith, e))), ((λ e. absurd (omega (arith, e))), tt)),
  );
  size = refl;
  queries = λ w r. (
    store w path (pair_respond path (request 1 0 []) (w path)),
    linked_answers both path w (request 1 0 []) 62 (1 ∷ 1 ∷ (greeting ++ 0 ∷ replicate 58 0)) refl,
    still-Awake w path (pair_respond path (request 1 0 []) (w path)) refl r,
    λ x. ap (λ d. d.flash x) (store_same w path (pair_respond path (request 1 0 []) (w path))),
  );
}

-- The dongles at "a" and "b" wait in application mode, and come back at "d" and "c".
abbrev pub moving_found : (String → Dongle) → List DeviceInfo
moving_found w =
    if leb 2000000 (w "c").slept
    then record { path = some "c" } ∷ record { path = some "d" } ∷ []
    else record { path = some "a" } ∷ record { path = none } ∷ record { path = some "b" } ∷ []

abbrev pub moving : Platform
moving = linked moving_found

abbrev pub moving_host : Host moving
moving_host = host_of moving 144

-- While they wait, nothing is at the new paths.
abbrev pub Unmoved : String → (String → Dongle) → Type 0
Unmoved path w = (w "c").slept ≡ 0

-- A dongle has not slept since it was told to restart.
abbrev pub Restarting : String → (String → Dongle) → Type 0
Restarting path w = (w path).slept ≡ 0

abbrev pub moved : String → String
moved path = if str_eq path "a" then "d" else "c"

-- The world after the reset command to a dongle.
abbrev pub told : String → (String → Dongle) → String → Dongle
told path w = store w path (record (w path) { slept = 0; reply = [] })

pub told-slept :
    (path other : String) (w : String → Dongle)
    → (w other).slept ≡ 0
    → (told path w other).slept ≡ 0
told-slept path other w e = elim (Bool-cases (str_eq path other)) [
  | inl same ↦ rw same refl
  | inr away ↦ rw away e
]

pub slept-after_naps :
    (ns : List ℕ) (w : String → Dongle) (path : String)
    → (after_naps moving ns w path).slept ≡ (w path).slept + total ns
slept-after_naps [] w path = omega arith
slept-after_naps (n ∷ ns) w path = omega (arith, slept-after_naps ns (moving.usleep n w) path)

abbrev pub reboots : Reboots moving (linked_fleet moving_found) 2000
reboots = record {
  Waits = Unmoved;
  Boots = Restarting;
  again = moved;
  allocates = λ n w path. (λ x. x, λ x. x);
  enumerates = λ w path. (λ x. x, λ x. x);
  frees = λ devs w path. (λ x. x, λ x. x);
  opens = λ path w x. (path, refl, λ other. (λ y. y, λ y. y));
  resets = λ path w x. (
    told path w,
    record {
      handle = path;
      opened = w;
      written = told path w;
      result = pos 2;
      got = padded (told path w path).reply 2;
      closing = told path w;
      opens = refl;
      writes = refl;
      reads = refl;
      closes = refl;
    },
    ap (λ d. d.slept) (store_same w path (record (w path) { slept = 0; reply = [] })),
    λ other ne. (λ y. told-slept path "c" w y, λ y. told-slept path other w y),
  );
  wakes = λ path w boots ns e. omega (arith, slept-after_naps ns w (moved path), e);
}

pub moving-Finds :
    Finds moving
      (linked_counted moving_found)
      moving_host
      (linked_fleet moving_found)
      2000
      reboots
      ("a" ∷ "b" ∷ [])
      ("c" ∷ "d" ∷ [])
moving-Finds = (
  λ w (x, _). rw x refl,
  λ w (_, (awake, _)). rw (le→leb 2000000 (w "c").slept awake) refl,
  (refl, (refl, tt)),
  (refl, (refl, tt)),
)

pub image_file : Readable moving_host (Calm reboots.Waits reboots.Boots) "fw.bin" firmware
image_file = record {
  file = tt;
  AtEnd = λ w. Unit {0};
  AtStart = λ w. Unit {0};
  opens = λ w. (refl, λ path. (λ x. x, λ x. x));
  ends = λ w. (refl, tt, λ path. (λ x. x, λ x. x));
  tells = λ w e. (refl, λ path. (λ x. x, λ x. x));
  rewinds = λ w. (refl, tt, λ path. (λ x. x, λ x. x));
  allocates = λ n w e. tt;
  reads = λ w e. (refl, λ path. (λ x. x, λ x. x));
  closes = λ w path. (λ x. x, λ x. x);
}

-- Both wait.
abbrev pub waiting_start : Sys moving
waiting_start = record {
  world = λ path. record { flash = λ x. 255; counter = 0; reply = []; slept = 0 };
  errno = Errno.other 0;
  handles = 0;
  blocks = 0;
  printed = [];
}
