-- ===== src/Retry/Bounds.antt =====
-- The intervals of a retry policy are in order, whatever the texts say.
use semaphore_xds.Prelude.{
  ℕ, if◌then◌else◌, Bool-cases, inl, inr, String, ◌≡◌, refl, false, Option, none, some, arith, ◌*◌,
  ◌<◌, ◌^◌,
}
use semaphore_xds.Prelude.Decimal.{pos, negsuc}
use semaphore_xds.Retry.{Duration, parse_retry_back_off, lt, times_ten, millisecond, or_default}

lt_irrefl : (a : Duration) → lt a a ≡ false
unfolding lt
lt_irrefl (pos n) = ground arith
lt_irrefl (negsuc n) = ground arith

lt_at_least : (a b : Duration) → lt (if lt a b then b else a) b ≡ false
lt_at_least a b = elim (Bool-cases (lt a b)) [ inl e ↦ rw e (lt_irrefl b) | inr e ↦ rw (e, e) refl ]

times_ten_lem : (n : ℕ) → 10 * n < 2 ^ 63 → times_ten (pos n) ≡ pos (10 * n)
unfolding times_ten
times_ten_lem n h = ground arith

-- The largest interval is never below the base interval, also where the tenfold base overflows.
pub max_interval-ge-base_interval :
    (parse_duration : String → Option Duration) (base max : String)
    → lt
        (parse_retry_back_off parse_duration base max).max_interval
        (parse_retry_back_off parse_duration base max).base_interval
      ≡ false
unfolding parse_retry_back_off
max_interval-ge-base_interval parse_duration base max =
    let b : Duration = or_default (parse_duration base) (pos (25 * millisecond)) in
    lt_at_least (or_default (parse_duration max) (times_ten b)) b

-- A base interval that can be read is kept; with no readable largest interval, a base from 0 up to
-- 2^63 / 10 nanoseconds gives ten times as much.
pub default_max_interval :
    (parse_duration : String → Option Duration) (base max : String) (n : ℕ)
    → parse_duration base ≡ some (pos n)
    → parse_duration max ≡ none
    → 10 * n < 2 ^ 63
    → parse_retry_back_off parse_duration base max
      ≡ record { base_interval = pos n; max_interval = pos (10 * n) }
unfolding parse_retry_back_off
default_max_interval parse_duration base max n hb hm fits = rw (hb, hm) (ground arith)
