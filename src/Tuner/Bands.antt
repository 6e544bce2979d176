-- ===== src/Tuner/Bands.antt =====
-- The bands and the RF filters of include/fcd_tuner.h: each band has its own filters under the same codes.
use libfcd.Base.{ℕ, ◌≡◌, refl, sym, ap, ◌∙◌, Option, none, some, List, [], ◌∷◌, get_or}

-- `FCD_TUNER_BAND_ENUM`.
pub data Band : Type 0 where
  vhf2 vhf3 uhf lband : Band

abbrev pub band_code : Band → ℕ
band_code Band.vhf2 = 0
band_code Band.vhf3 = 1
band_code Band.uhf = 2
band_code Band.lband = 3

-- `FCD_TUNER_RF_FILTER_ENUM`.
pub data RfFilter : Type 0 where
  lpf268mhz lpf299mhz lpf509mhz lpf656mhz bpf360mhz bpf380mhz : RfFilter
  bpf405mhz bpf425mhz bpf450mhz bpf475mhz bpf505mhz bpf540mhz : RfFilter
  bpf575mhz bpf615mhz bpf670mhz bpf720mhz bpf760mhz bpf840mhz : RfFilter
  bpf890mhz bpf970mhz bpf1300mhz bpf1320mhz bpf1360mhz bpf1410mhz : RfFilter
  bpf1445mhz bpf1460mhz bpf1490mhz bpf1530mhz bpf1560mhz bpf1590mhz : RfFilter
  bpf1640mhz bpf1660mhz bpf1680mhz bpf1700mhz bpf1720mhz bpf1750mhz : RfFilter

abbrev pub rf_filter_code : RfFilter → ℕ
rf_filter_code RfFilter.lpf268mhz = 0
rf_filter_code RfFilter.lpf299mhz = 8
rf_filter_code RfFilter.lpf509mhz = 0
rf_filter_code RfFilter.lpf656mhz = 8
rf_filter_code RfFilter.bpf360mhz = 0
rf_filter_code RfFilter.bpf380mhz = 1
rf_filter_code RfFilter.bpf405mhz = 2
rf_filter_code RfFilter.bpf425mhz = 3
rf_filter_code RfFilter.bpf450mhz = 4
rf_filter_code RfFilter.bpf475mhz = 5
rf_filter_code RfFilter.bpf505mhz = 6
rf_filter_code RfFilter.bpf540mhz = 7
rf_filter_code RfFilter.bpf575mhz = 8
rf_filter_code RfFilter.bpf615mhz = 9
rf_filter_code RfFilter.bpf670mhz = 10
rf_filter_code RfFilter.bpf720mhz = 11
rf_filter_code RfFilter.bpf760mhz = 12
rf_filter_code RfFilter.bpf840mhz = 13
rf_filter_code RfFilter.bpf890mhz = 14
rf_filter_code RfFilter.bpf970mhz = 15
rf_filter_code RfFilter.bpf1300mhz = 0
rf_filter_code RfFilter.bpf1320mhz = 1
rf_filter_code RfFilter.bpf1360mhz = 2
rf_filter_code RfFilter.bpf1410mhz = 3
rf_filter_code RfFilter.bpf1445mhz = 4
rf_filter_code RfFilter.bpf1460mhz = 5
rf_filter_code RfFilter.bpf1490mhz = 6
rf_filter_code RfFilter.bpf1530mhz = 7
rf_filter_code RfFilter.bpf1560mhz = 8
rf_filter_code RfFilter.bpf1590mhz = 9
rf_filter_code RfFilter.bpf1640mhz = 10
rf_filter_code RfFilter.bpf1660mhz = 11
rf_filter_code RfFilter.bpf1680mhz = 12
rf_filter_code RfFilter.bpf1700mhz = 13
rf_filter_code RfFilter.bpf1720mhz = 14
rf_filter_code RfFilter.bpf1750mhz = 15

-- The band under which the header lists a filter.
abbrev pub band_of : RfFilter → Band
band_of RfFilter.lpf268mhz = Band.vhf2
band_of RfFilter.lpf299mhz = Band.vhf2
band_of RfFilter.lpf509mhz = Band.vhf3
band_of RfFilter.lpf656mhz = Band.vhf3
band_of RfFilter.bpf360mhz = Band.uhf
band_of RfFilter.bpf380mhz = Band.uhf
band_of RfFilter.bpf405mhz = Band.uhf
band_of RfFilter.bpf425mhz = Band.uhf
band_of RfFilter.bpf450mhz = Band.uhf
band_of RfFilter.bpf475mhz = Band.uhf
band_of RfFilter.bpf505mhz = Band.uhf
band_of RfFilter.bpf540mhz = Band.uhf
band_of RfFilter.bpf575mhz = Band.uhf
band_of RfFilter.bpf615mhz = Band.uhf
band_of RfFilter.bpf670mhz = Band.uhf
band_of RfFilter.bpf720mhz = Band.uhf
band_of RfFilter.bpf760mhz = Band.uhf
band_of RfFilter.bpf840mhz = Band.uhf
band_of RfFilter.bpf890mhz = Band.uhf
band_of RfFilter.bpf970mhz = Band.uhf
band_of RfFilter.bpf1300mhz = Band.lband
band_of RfFilter.bpf1320mhz = Band.lband
band_of RfFilter.bpf1360mhz = Band.lband
band_of RfFilter.bpf1410mhz = Band.lband
band_of RfFilter.bpf1445mhz = Band.lband
band_of RfFilter.bpf1460mhz = Band.lband
band_of RfFilter.bpf1490mhz = Band.lband
band_of RfFilter.bpf1530mhz = Band.lband
band_of RfFilter.bpf1560mhz = Band.lband
band_of RfFilter.bpf1590mhz = Band.lband
band_of RfFilter.bpf1640mhz = Band.lband
band_of RfFilter.bpf1660mhz = Band.lband
band_of RfFilter.bpf1680mhz = Band.lband
band_of RfFilter.bpf1700mhz = Band.lband
band_of RfFilter.bpf1720mhz = Band.lband
band_of RfFilter.bpf1750mhz = Band.lband

-- The entry with an index.
abbrev filter_in : List (Option RfFilter) → ℕ → Option RfFilter
filter_in filters n = get_or filters n none

-- The filter of a band with a code.
abbrev filter_at : Band → ℕ → Option RfFilter
filter_at Band.vhf2 n =
    filter_in
      (some RfFilter.lpf268mhz
        ∷ none
        ∷ none
        ∷ none
        ∷ none
        ∷ none
        ∷ none
        ∷ none
        ∷ some RfFilter.lpf299mhz
        ∷ [])
      n
filter_at Band.vhf3 n =
    filter_in
      (some RfFilter.lpf509mhz
        ∷ none
        ∷ none
        ∷ none
        ∷ none
        ∷ none
        ∷ none
        ∷ none
        ∷ some RfFilter.lpf656mhz
        ∷ [])
      n
filter_at Band.uhf n =
    filter_in
      (some RfFilter.bpf360mhz
        ∷ some RfFilter.bpf380mhz
        ∷ some RfFilter.bpf405mhz
        ∷ some RfFilter.bpf425mhz
        ∷ some RfFilter.bpf450mhz
        ∷ some RfFilter.bpf475mhz
        ∷ some RfFilter.bpf505mhz
        ∷ some RfFilter.bpf540mhz
        ∷ some RfFilter.bpf575mhz
        ∷ some RfFilter.bpf615mhz
        ∷ some RfFilter.bpf670mhz
        ∷ some RfFilter.bpf720mhz
        ∷ some RfFilter.bpf760mhz
        ∷ some RfFilter.bpf840mhz
        ∷ some RfFilter.bpf890mhz
        ∷ some RfFilter.bpf970mhz
        ∷ [])
      n
filter_at Band.lband n =
    filter_in
      (some RfFilter.bpf1300mhz
        ∷ some RfFilter.bpf1320mhz
        ∷ some RfFilter.bpf1360mhz
        ∷ some RfFilter.bpf1410mhz
        ∷ some RfFilter.bpf1445mhz
        ∷ some RfFilter.bpf1460mhz
        ∷ some RfFilter.bpf1490mhz
        ∷ some RfFilter.bpf1530mhz
        ∷ some RfFilter.bpf1560mhz
        ∷ some RfFilter.bpf1590mhz
        ∷ some RfFilter.bpf1640mhz
        ∷ some RfFilter.bpf1660mhz
        ∷ some RfFilter.bpf1680mhz
        ∷ some RfFilter.bpf1700mhz
        ∷ some RfFilter.bpf1720mhz
        ∷ some RfFilter.bpf1750mhz
        ∷ [])
      n

filter_at-rf_filter_code : (f : RfFilter) → filter_at (band_of f) (rf_filter_code f) ≡ some f
filter_at-rf_filter_code RfFilter.lpf268mhz = refl
filter_at-rf_filter_code RfFilter.lpf299mhz = refl
filter_at-rf_filter_code RfFilter.lpf509mhz = refl
filter_at-rf_filter_code RfFilter.lpf656mhz = refl
filter_at-rf_filter_code RfFilter.bpf360mhz = refl
filter_at-rf_filter_code RfFilter.bpf380mhz = refl
filter_at-rf_filter_code RfFilter.bpf405mhz = refl
filter_at-rf_filter_code RfFilter.bpf425mhz = refl
filter_at-rf_filter_code RfFilter.bpf450mhz = refl
filter_at-rf_filter_code RfFilter.bpf475mhz = refl
filter_at-rf_filter_code RfFilter.bpf505mhz = refl
filter_at-rf_filter_code RfFilter.bpf540mhz = refl
filter_at-rf_filter_code RfFilter.bpf575mhz = refl
filter_at-rf_filter_code RfFilter.bpf615mhz = refl
filter_at-rf_filter_code RfFilter.bpf670mhz = refl
filter_at-rf_filter_code RfFilter.bpf720mhz = refl
filter_at-rf_filter_code RfFilter.bpf760mhz = refl
filter_at-rf_filter_code RfFilter.bpf840mhz = refl
filter_at-rf_filter_code RfFilter.bpf890mhz = refl
filter_at-rf_filter_code RfFilter.bpf970mhz = refl
filter_at-rf_filter_code RfFilter.bpf1300mhz = refl
filter_at-rf_filter_code RfFilter.bpf1320mhz = refl
filter_at-rf_filter_code RfFilter.bpf1360mhz = refl
filter_at-rf_filter_code RfFilter.bpf1410mhz = refl
filter_at-rf_filter_code RfFilter.bpf1445mhz = refl
filter_at-rf_filter_code RfFilter.bpf1460mhz = refl
filter_at-rf_filter_code RfFilter.bpf1490mhz = refl
filter_at-rf_filter_code RfFilter.bpf1530mhz = refl
filter_at-rf_filter_code RfFilter.bpf1560mhz = refl
filter_at-rf_filter_code RfFilter.bpf1590mhz = refl
filter_at-rf_filter_code RfFilter.bpf1640mhz = refl
filter_at-rf_filter_code RfFilter.bpf1660mhz = refl
filter_at-rf_filter_code RfFilter.bpf1680mhz = refl
filter_at-rf_filter_code RfFilter.bpf1700mhz = refl
filter_at-rf_filter_code RfFilter.bpf1720mhz = refl
filter_at-rf_filter_code RfFilter.bpf1750mhz = refl

some_injective : (f g : RfFilter) → some f ≡ some g → f ≡ g
some_injective f g e = ap (λ o. elim o [ none ↦ f | some h ↦ h ]) e

-- Two RF filters of one band with the same code are the same filter, although the bands share
-- their codes.
pub rf_filter_code_injective :
    (f g : RfFilter) → band_of f ≡ band_of g → rf_filter_code f ≡ rf_filter_code g → f ≡ g
rf_filter_code_injective f g same_band same_code = some_injective f g (
    sym (filter_at-rf_filter_code f)
    ∙ ap (λ b. filter_at b (rf_filter_code f)) same_band
    ∙ ap (filter_at (band_of g)) same_code
    ∙ filter_at-rf_filter_code g)
