-- ===== src/Asn1/Time/Early.antt =====
-- The cache of src/asn1/asn1time.c where it is built before the year 2000.
use slim_data_crypt.Common.{
  ℕ, ◌+◌, ◌-◌, ◌≤◌, ◌<◌, ◌≡◌, refl, ap, ◌∙◌, Bool, true, false, Option, none, some, ltb, leb, ◌&&◌,
  ◌==◌, Bool-cases, inl, inr, arith, if◌then◌else◌, get_or,
}
use slim_data_crypt.Asn1.Time.{
  days_in_year, add_up, Clock, cache_elements, get_current_year, fill_cache, build_cache,
  init_cache, days_before_year,
}
use slim_data_crypt.Asn1.Time.{timestamp_to_ymdhms}
use slim_data_crypt.Asn1.Time.Calendar.{timestamp_to_ymdhms-IsDate}
use slim_data_crypt.Asn1.Time.Loops.{total, add_up-total, total-add}
use slim_data_crypt.Asn1.Time.Calendar.{days_to_year}
use slim_data_crypt.Asn1.Time.Cache.{fill_cache-total}

early_entry :
    (start year : ℕ)
    → 1940 ≤ start
    → start < 1970
    → 1970 ≤ year
    → year ≤ 2000
    → get_or
        (fill_cache cache_elements start (add_up days_in_year (start - 1970) 1970 0))
        (year - start)
        0
      ≡ total days_in_year start (1970 - start) + days_to_year year
unfolding add_up total
early_entry start year from below lo hi =
    fill_cache-total cache_elements start _ (year - start) (omega arith)
    ∙ omega (
      arith,
      add_up-total days_in_year (start - 1970) 1970 0,
      ap (λ n. total days_in_year 1970 n) (let e : start - 1970 ≡ 0 = omega arith in e),
      total-add days_in_year (1970 - start) (year - 1970) start,
      ap (total days_in_year start)
          (let e : 1970 - start + (year - 1970) ≡ year - start = omega arith in e),
      ap (λ y. total days_in_year y (year - 1970))
          (let e : start + (1970 - start) ≡ 1970 = omega arith in e),
    )

year_from_epoch :
    (now : Option ℕ) (given : Bool) (t : ℕ)
    → (let year =
          if given
          then (timestamp_to_ymdhms t).year
          else (elim now [ none ↦ 0 | some t ↦ (timestamp_to_ymdhms t).year ]) in
        ¬ (year ≡ 0) → 1970 ≤ year)
year_from_epoch now true t known = (timestamp_to_ymdhms-IsDate t).from_epoch
year_from_epoch none false t known = absurd (known refl)
year_from_epoch (some t) false u known = (timestamp_to_ymdhms-IsDate t).from_epoch

get_current_year_from_epoch :
    (now : Option ℕ) (c : Clock) → ¬ (get_current_year now c ≡ 0) → 1970 ≤ get_current_year now c
unfolding get_current_year
get_current_year_from_epoch now c known = year_from_epoch now c.user_time_set c.user_timestamp known

early_cache :
    (now : Option ℕ) (c : Clock)
    → get_current_year now c < 2000
    → (let start = (build_cache now c).cache_start_year in
        (1940 ≤ start)
        × (start < 1970)
        × ((build_cache now c).days_cache
            ≡ fill_cache cache_elements start (add_up days_in_year (start - 1970) 1970 0)))
unfolding build_cache
early_cache now c h = elim (Bool-cases (get_current_year now c == 0)) [
  | inl e ↦ rw e (omega arith, omega arith, refl)
  | inr e ↦
      let from = get_current_year_from_epoch now c (ground arith) in
      rw e (omega (arith, from), omega arith, refl)
]

-- With no cache and a current year before 2000 (1970 where the time is unknown) the cache counts
-- from its own first year and not from 1970: the years up to 2000 get the days of the years
-- from that first year to 1970 on top.
pub days_before_year_early :
    (now : Option ℕ) (year : ℕ) (c : Clock)
    → c.cache_initialized ≡ false
    → get_current_year now c < 2000
    → 1970 ≤ year
    → year ≤ 2000
    → let (days, c') = days_before_year now year c in
      (c'.cache_start_year < 1970)
      × (days
          ≡ total days_in_year c'.cache_start_year (1970 - c'.cache_start_year) + days_to_year year)
unfolding days_before_year
days_before_year_early now year c e h lo hi =
    let built : init_cache now c ≡ build_cache now c = unfold init_cache in ground arith in
    let (from, below, filled) = early_cache now c h in
    let start = (build_cache now c).cache_start_year in
    let inside : (leb start year && ltb (year - start) cache_elements) ≡ true =
      ground (arith, from, below) in
    rw (built, inside)
      (
        below,
        ap (λ xs. get_or xs (year - start) 0) filled ∙ early_entry start year from below lo hi,
      )
