-- ===== src/Asn1/Time/Cache.antt =====
-- The cache of src/asn1/asn1time.c where the current year is 2000 or later, and
-- `sdc_asn1_time_to_timestamp` with it.
use mathlib.Core.Path.{subst}
use slim_data_crypt.Common.{
  ◌↔◌, ℕ, zero, suc, ◌+◌, ◌-◌, ◌≤◌, ◌<◌, ◌≡◌, refl, ap, sym, ◌∙◌, true, false, List, [], ◌∷◌,
  Option, ltb, leb, ◌&&◌, ◌==◌, Bool-cases, inl, inr, arith, if◌then◌else◌, get_or,
}
use slim_data_crypt.Asn1.Time.{
  Moment, month_lengths, is_leap_year, days_in_year, days_in_month, add_up, is_valid, seconds_at,
  Clock, cache_elements, get_current_year, fill_cache, build_cache, init_cache, days_before_year,
  time_to_timestamp, set_current, cache_refresh, get_cache_range,
}
use slim_data_crypt.Common.{All, ◌||◌}
use slim_data_crypt.Asn1.Time.Loops.{total, add_up-total, total-add, total-le}
use slim_data_crypt.Asn1.Time.Calendar.{
  days_to_year, timestamp_of, IsDate, days_in_year_bounds, month_in_year,
}

-- Entry `i` of the loop's result.
pub fill_cache-total :
    (n y days i : ℕ) → i < n → get_or (fill_cache n y days) i 0 ≡ days + total days_in_year y i
unfolding fill_cache total
fill_cache-total zero y days i h = absurd (omega arith)
fill_cache-total (suc n) y days zero h = omega arith
fill_cache-total (suc n) y days (suc i) h =
    omega (arith, fill_cache-total n (y + 1) (days + days_in_year y) i (omega arith))

-- An initialised cache starts in 1970 or later and holds the days before its years.
pub record IsCoherent (c : Clock) : Type 0 where
  pub start : c.cache_initialized ≡ true → 1970 ≤ c.cache_start_year
  pub entries :
      c.cache_initialized ≡ true
      → (i : ℕ) → i < cache_elements
      → get_or c.days_cache i 0 ≡ days_to_year (c.cache_start_year + i)

-- The year that a new cache would be built around.
unfoldable pub IsRecent : Option ℕ → Clock → Type 0
IsRecent now c = (c.cache_initialized ≡ false) → 2000 ≤ get_current_year now c

new_entries :
    (start i : ℕ)
    → 1970 ≤ start
    → i < cache_elements
    → get_or (fill_cache cache_elements start (add_up days_in_year (start - 1970) 1970 0)) i 0
      ≡ days_to_year (start + i)
new_entries start i h l =
    fill_cache-total cache_elements start _ i l
    ∙ omega (
      arith,
      add_up-total days_in_year (start - 1970) 1970 0,
      total-add days_in_year (start - 1970) i 1970,
      ap (λ y. total days_in_year y i) (let e : 1970 + (start - 1970) ≡ start = omega arith in e),
      ap (total days_in_year 1970) (let e : start - 1970 + i ≡ start + i - 1970 = omega arith in e),
    )

build_cache-IsCoherent :
    (now : Option ℕ) (c : Clock)
    → 2000 ≤ get_current_year now c
    → IsCoherent (build_cache now c) × ((build_cache now c).cache_initialized ≡ true)
unfolding build_cache
build_cache-IsCoherent now c recent =
    let seen = get_current_year now c in
    let start : (if seen == 0 then 1970 else seen) - 30 ≡ seen - 30 = ground arith in
    (
      record {
        start = λ _. omega (arith, start);
        entries = λ _ i h. new_entries _ i (omega (arith, start)) h;
      },
      refl,
    )

-- With a coherent cache, or with none and a current year from 2000 on, `init_cache` leaves an
-- initialised cache that is coherent.
pub init_cache-IsCoherent :
    (now : Option ℕ) (c : Clock)
    → IsCoherent c
    → IsRecent now c
    → IsCoherent (init_cache now c) × ((init_cache now c).cache_initialized ≡ true)
unfolding IsRecent
init_cache-IsCoherent now c k recent = elim (Bool-cases c.cache_initialized) [
  | inl e ↦
      let same : init_cache now c ≡ c = unfold init_cache in ground arith in
      subst (λ d. IsCoherent d × (d.cache_initialized ≡ true)) (sym same) (k, e)
  | inr e ↦
      let built : init_cache now c ≡ build_cache now c = unfold init_cache in ground arith in
      subst (λ d. IsCoherent d × (d.cache_initialized ≡ true)) (sym built)
        (build_cache-IsCoherent now c (recent e))
]

-- With the cache or without it, the days before a year.
pub days_before_year-days_to_year :
    (now : Option ℕ) (year : ℕ) (c : Clock)
    → IsCoherent c
    → IsRecent now c
    → (days_before_year now year c).0 ≡ days_to_year year
unfolding days_before_year
days_before_year-days_to_year now year c k recent =
    let (coherent, ready) = init_cache-IsCoherent now c k recent in
    let c' = init_cache now c in
    elim (Bool-cases
      (leb c'.cache_start_year year && ltb (year - c'.cache_start_year) cache_elements)) [
        | inl e ↦
            let place : c'.cache_start_year + (year - c'.cache_start_year) ≡ year = ground arith in
            rw e (
              coherent.entries ready (year - c'.cache_start_year) (ground arith)
              ∙ ap days_to_year place)
        | inr e ↦ rw e (omega (arith, add_up-total days_in_year (year - 1970) 1970 0))
      ]

pub seconds_at-timestamp_of :
    (m : Moment) → IsDate m → m.year ≤ 9999 → seconds_at (days_to_year m.year) m ≡ timestamp_of m
unfolding seconds_at timestamp_of
seconds_at-timestamp_of m d h = omega (
  arith,
  add_up-total (days_in_month m.year) (m.month - 1) 1 (days_to_year m.year),
  total-le days_in_year 366 (λ j. (days_in_year_bounds j).1) (m.year - 1970) 1970,
  month_in_year m.year (m.month - 1) (omega (arith, d.month_from, d.month_to)),
  (days_in_year_bounds m.year).1,
  d.day_to,
  d.month_from,
  ap (days_in_month m.year)
      (let e : 1 + (m.month - 1) ≡ m.month = omega (arith, d.month_from) in e),
  d.hour_to,
  d.minute_to,
  d.second_to,
)

get_or-le : (b : ℕ) (xs : List ℕ) (i : ℕ) → All (λ x. x ≤ b) xs → get_or xs i 0 ≤ b
get_or-le b [] i h = omega arith
get_or-le b (x ∷ xs) zero h = h.0
get_or-le b (x ∷ xs) (suc i) h = get_or-le b xs i h.1

pub days_in_month-le : (y m : ℕ) → days_in_month y m ≤ 31
unfolding days_in_month
days_in_month-le y m =
    let listed : get_or month_lengths (m - 1) 0 ≤ 31 =
      get_or-le 31 month_lengths (m - 1) (omega arith) in
    elim (Bool-cases (ltb m 1 || ltb 12 m)) [
      | inl e ↦ rw e (omega arith)
      | inr e ↦ rw e (elim (Bool-cases (m == 2 && is_leap_year y)) [
        | inl f ↦ rw f (omega arith)
        | inr f ↦ rw f listed
      ])
    ]

-- The guards let through what `IsDate` holds of up to the year 9999, and nothing else.
pub is_valid-IsDate : (m : Moment) → (is_valid m ≡ true) ↔ (IsDate m × (m.year ≤ 9999))
unfolding is_valid
is_valid-IsDate m = (
  λ e. (
    record {
      from_epoch = ground arith;
      month_from = ground arith;
      month_to = ground arith;
      day_from = ground arith;
      day_to = ground arith;
      hour_to = ground arith;
      minute_to = ground arith;
      second_to = ground arith;
    },
    ground arith,
  ),
  λ (d, h). ground (
    arith,
    d.from_epoch,
    d.month_from,
    d.month_to,
    d.day_from,
    d.day_to,
    d.hour_to,
    d.minute_to,
    d.second_to,
    days_in_month-le m.year m.month,
  ),
)

-- Whatever the clock, with a coherent cache, or with none and a current year from 2000 on:
-- `sdc_asn1_time_to_timestamp` returns the number of a date that its guards accept, else 0.
pub time_to_timestamp-timestamp_of :
    (now : Option ℕ) (m : Moment) (c : Clock)
    → IsCoherent c
    → IsRecent now c
    → (time_to_timestamp now m c).0 ≡ (if is_valid m then timestamp_of m else 0)
unfolding time_to_timestamp
time_to_timestamp-timestamp_of now m c k recent = elim (Bool-cases (is_valid m)) [
  | inl e ↦
      let (d, h) = (is_valid-IsDate m).0 e in
      rw (e, days_before_year-days_to_year now m.year c k recent) (seconds_at-timestamp_of m d h)
  | inr e ↦ rw e
]

-- With a coherent cache, or with none and a current year from 2000 on,
-- `sdc_asn1_time_to_timestamp` leaves a coherent cache, whatever the date.
pub time_to_timestamp-IsCoherent :
    (now : Option ℕ) (m : Moment) (c : Clock)
    → IsCoherent c
    → IsRecent now c
    → IsCoherent (time_to_timestamp now m c).1
unfolding time_to_timestamp days_before_year
time_to_timestamp-IsCoherent now m c k recent =
    let kept = (init_cache-IsCoherent now c k recent).0 in
    elim (Bool-cases (is_valid m)) [
      | inl e ↦
          elim (Bool-cases (
            leb (init_cache now c).cache_start_year m.year
            && ltb (m.year - (init_cache now c).cache_start_year) cache_elements)) [
              | inl f ↦ rw (e, f) kept
              | inr f ↦ rw (e, f) kept
            ]
      | inr e ↦ rw e k
    ]

-- A clock whose cache was dropped is coherent.
pub set_current-IsCoherent : (t : ℕ) (c : Clock) → IsCoherent (set_current t c)
unfolding set_current
set_current-IsCoherent t c = record { start = λ e. cc; entries = λ e. cc }

pub cache_refresh-IsCoherent : (c : Clock) → IsCoherent (cache_refresh c)
unfolding cache_refresh
cache_refresh-IsCoherent c = record { start = λ e. cc; entries = λ e. cc }

pub get_cache_range-IsCoherent :
    (now : Option ℕ) (c : Clock)
    → IsCoherent c
    → IsRecent now c
    → IsCoherent (get_cache_range now c).1
unfolding get_cache_range
get_cache_range-IsCoherent now c k recent = (init_cache-IsCoherent now c k recent).0
