-- ===== src/Tests/Keeper.antt =====
-- A platform with one dongle that keeps its settings, and the registers on it.
use libfcd.Base.{
  ℕ, ◌+◌, ◌-◌, ◌*◌, ◌/◌, ◌≡◌, refl, ap, ◌∙◌, true, some, List, [], ◌∷◌, ℤ, pos, minus, ◌==◌,
  if◌then◌else◌, get_or, drop, length, arith,
}
use libfcd.Word.{Endian, to_i16}
use libfcd.Platform.{Platform, Sleeper, Errno, Sys}
use libfcd.Platform.Returns.{Returns}
use libfcd.Device.Transact.{ReadsCounted, request}
use libfcd.Device.Answers.{Answers}
use libfcd.Application.{fcd_set_frequency_hz}
use libfcd.Application.Register.{Call, replies, replies_kept, serve}
use libfcd.Application.Settings.{Setting, dc_fits, iq_fits}
use libfcd.Application.Settings.Dc.{put_dc, fetch_dc, dc_correction-replies}
use libfcd.Application.Settings.Iq.{put_iq, fetch_iq, iq_correction-replies}
use libfcd.Application.Settings.Frequency.{tuned, fetch_frequency, frequency_hz-replies}
use libfcd.Tests.Bench.{padded, length-padded, padded_exact, dongle}

-- The bytes by the command that sets them.
record Memory : Type 0 where
  kept : ℕ → List ℕ
  reply : List ℕ

-- The dongle tunes to whole kHz.
abbrev in_khz : ℕ → ℕ
in_khz f = f / 1000 * 1000

-- 101, 106 and 108 set, and the command after each gets.
abbrev keep : List ℕ → Memory → Memory
keep req m =
    let c = get_or req 1 0 in
    if c == 101
    then record {
      kept = λ k. if k == 101 then tuned in_khz (drop 2 req) else m.kept k;
      reply = c ∷ 1 ∷ [];
    }
    else if c == 106
    then record { kept = λ k. if k == 106 then drop 2 req else m.kept k; reply = c ∷ 1 ∷ [] }
    else if c == 108
    then record { kept = λ k. if k == 108 then drop 2 req else m.kept k; reply = c ∷ 1 ∷ [] }
    else record m { reply = c ∷ 1 ∷ m.kept (c - 1) }

abbrev keeper : Platform
keeper = record {
  World = Memory;
  Handle = Unit {0};
  endian = Endian.big;
  sleeper = Sleeper.by_usleep;
  junk = λ n. 170;
  malloc = λ n w. (true, w);
  strdup = λ text w. (true, w);
  hid_enumerate = λ vid pid w. (record { path = some "a" } ∷ [], w);
  hid_free_enumeration = λ devs w. w;
  hid_open_path = λ path w. (some tt, w);
  hid_write = λ h req w. (pos (length req), keep req w);
  hid_read = λ h n w. ((pos n, padded w.reply n), w);
  hid_close = λ h w. w;
  usleep = λ us w. w;
  nap = λ ms w. w;
}

keeper_counted : ReadsCounted keeper
keeper_counted = record {
  within = λ h n w. omega (arith, length-padded w.reply n);
  counted = λ h n w e. length-padded w.reply n;
}

keeper_answers :
    (w : Memory) (req : List ℕ) (n : ℕ) (response : List ℕ)
    → (keep req w).reply ≡ response
    → n + 2 ≡ length response
    → Answers keeper (some "a") w req n response (keep req w)
keeper_answers w req n response e size = record {
  handle = tt;
  opened = w;
  written = keep req w;
  closing = keep req w;
  opens = refl;
  writes = refl;
  reads =
      ap (λ r. ((pos (n + 2), r), keep req w))
        (ap (λ r. padded r (n + 2)) e ∙ padded_exact response (n + 2) size);
  closes = refl;
}

-- The dongle is there while it holds four bytes for the setting.
abbrev dc_setting : Setting keeper (some "a") 106 107 4 (λ bytes. bytes)
dc_setting = record {
  ready = λ w. length (w.kept 106) ≡ 4;
  held = λ w. w.kept 106;
  sets = λ w bytes r size. (
    keep (request 106 0 bytes) w,
    keeper_answers w (request 106 0 bytes) 0 (106 ∷ 1 ∷ []) refl refl,
    size,
    refl,
  );
  gets = λ w r. (
    keep (request 107 0 []) w,
    keeper_answers w (request 107 0 []) 4 (107 ∷ 1 ∷ w.kept 106) refl (omega (arith, r)),
    r,
    refl,
  );
}

abbrev iq_setting : Setting keeper (some "a") 108 109 4 (λ bytes. bytes)
iq_setting = record {
  ready = λ w. length (w.kept 108) ≡ 4;
  held = λ w. w.kept 108;
  sets = λ w bytes r size. (
    keep (request 108 0 bytes) w,
    keeper_answers w (request 108 0 bytes) 0 (108 ∷ 1 ∷ []) refl refl,
    size,
    refl,
  );
  gets = λ w r. (
    keep (request 109 0 []) w,
    keeper_answers w (request 109 0 []) 4 (109 ∷ 1 ∷ w.kept 108) refl (omega (arith, r)),
    r,
    refl,
  );
}

abbrev frequency_setting : Setting keeper (some "a") 101 102 4 (tuned in_khz)
frequency_setting = record {
  ready = λ w. length (w.kept 101) ≡ 4;
  held = λ w. w.kept 101;
  sets = λ w bytes r size. (
    keep (request 101 0 bytes) w,
    keeper_answers w (request 101 0 bytes) 0 (101 ∷ 1 ∷ []) refl refl,
    refl,
    refl,
  );
  gets = λ w r. (
    keep (request 102 0 []) w,
    keeper_answers w (request 102 0 []) 4 (102 ∷ 1 ∷ w.kept 101) refl (omega (arith, r)),
    r,
    refl,
  );
}

abbrev keeper_start : Sys keeper
keeper_start = record {
  world = record { kept = λ k. 0 ∷ 0 ∷ 0 ∷ 0 ∷ []; reply = [] };
  errno = Errno.other 0;
  handles = 0;
  blocks = 0;
  printed = [];
}

-- The third call is refused.
abbrev dc_calls : List (Call (ℤ × ℤ))
dc_calls = Call.get ∷ Call.set (minus 2, pos 300) ∷ Call.set (pos 40000, pos 0) ∷ Call.get ∷ []

abbrev iq_calls : List (Call (ℤ × ℕ))
iq_calls = Call.set (minus 1, 40000) ∷ Call.set (pos 0, 65536) ∷ Call.get ∷ []

abbrev frequency_calls : List (Call ℕ)
frequency_calls = Call.set 97300000 ∷ Call.get ∷ Call.set 1500 ∷ Call.get ∷ []

dc_correction-replies_example :
    Returns
      (λ answers t. answers ≡ replies dc_fits dc_calls (pos 0, pos 0))
      (serve keeper (put_dc keeper dongle) (fetch_dc keeper dongle) dc_calls keeper_start)
unfolding to_i16
dc_correction-replies_example =
    dc_correction-replies keeper keeper_counted dongle dc_setting dc_calls (pos 0) (pos 0)
      keeper_start (refl, refl, ground arith, ground arith)

iq_correction-replies_example :
    Returns
      (λ answers t. answers ≡ replies iq_fits iq_calls (pos 0, 0))
      (serve keeper (put_iq keeper dongle) (fetch_iq keeper dongle) iq_calls keeper_start)
unfolding to_i16
iq_correction-replies_example =
    iq_correction-replies keeper keeper_counted dongle iq_setting iq_calls (pos 0) 0 keeper_start
      (refl, refl, ground arith, omega arith)

frequency_hz-replies_example :
    Returns
      (λ answers t. answers ≡ replies_kept in_khz (λ _. true) frequency_calls 0)
      (serve keeper
        (fcd_set_frequency_hz keeper (some dongle))
        (fetch_frequency keeper dongle)
        frequency_calls
        keeper_start)
frequency_hz-replies_example =
    frequency_hz-replies keeper keeper_counted dongle in_khz frequency_setting frequency_calls 0
      keeper_start (λ f small. omega (arith, small)) (omega arith, (omega arith, tt))
      (refl, refl, omega arith)
