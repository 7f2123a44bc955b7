-- ===== src/Retry.antt =====
-- Retry policies: ParseRetryOn, ParseNumRetries and ParseRetryBackOff of xds/utils.go.
-- A time.Duration is an int64 of nanoseconds, here a ℤ. Of the standard library, time.ParseDuration
-- (whose fractions go by floats), strings.ToLower and strings.TrimSpace (which go by Unicode's
-- tables) are arguments. A protobuf Duration is the time.Duration that it is made from.
pub mod Bounds
use Prim.Native.String.{◌++◌}
use semaphore_xds.Prelude.{
  ℕ, zero, suc, ◌+◌, ◌-◌, ◌*◌, ◌%◌, ◌^◌, String, Bool, true, false, Option, none, some, List, [],
  ◌∷◌, map, ltb, if◌then◌else◌,
}
use semaphore_xds.Prelude.Decimal.{ℤ, pos, negsuc}

abbrev pub Duration : Type 0
Duration = ℤ

-- routev3.RetryPolicy_RetryBackOff
pub record RetryBackOff : Type 0 where
  pub base_interval : Duration
  pub max_interval : Duration

-- routev3.RetryPolicy
pub record RetryPolicy : Type 0 where
  pub retry_on : String
  pub num_retries : ℕ
  pub retry_back_off : RetryBackOff

-- the int64 with the low 64 bits of a number
unfoldable pub wrap64 : ℤ → ℤ
wrap64 (pos n) = let u = n % 2 ^ 64 in if ltb u (2 ^ 63) then pos u else negsuc (2 ^ 64 - 1 - u)
wrap64 (negsuc n) = let u = n % 2 ^ 64 in if ltb u (2 ^ 63) then negsuc u else pos (2 ^ 64 - 1 - u)

-- 10 * x in int64
unfoldable pub times_ten : ℤ → ℤ
unfolding wrap64
times_ten (pos n) = wrap64 (pos (10 * n))
times_ten (negsuc n) = wrap64 (negsuc (10 * n + 9))

-- a < b
unfoldable pub lt : ℤ → ℤ → Bool
lt (pos a) (pos b) = ltb a b
lt (pos a) (negsuc b) = false
lt (negsuc a) (pos b) = true
lt (negsuc a) (negsuc b) = ltb b a

abbrev pub millisecond : ℕ
millisecond = 1000000

-- strings.Join
unfoldable pub join : List String → String → String
join [] sep = ""
join (x ∷ []) sep = x
join (x ∷ y ∷ xs) sep = x ++ sep ++ join (y ∷ xs) sep

unfoldable pub parse_retry_on : (String → String) → (String → String) → List String → String
unfolding join
parse_retry_on to_lower trim_space on = join (map (λ s. trim_space (to_lower s)) on) ","

unfoldable pub parse_num_retries : Option ℕ → ℕ
parse_num_retries none = 1
parse_num_retries (some num) = num

-- d, err := time.ParseDuration(s), with `d` replaced where `err` is not nil
abbrev pub or_default : Option Duration → Duration → Duration
or_default none d = d
or_default (some x) d = x

unfoldable pub parse_retry_back_off : (String → Option Duration) → String → String → RetryBackOff
unfolding times_ten lt
parse_retry_back_off parse_duration base max =
    let base_duration : Duration = or_default (parse_duration base) (pos (25 * millisecond)) in
    let max_duration : Duration = or_default (parse_duration max) (times_ten base_duration) in
    record {
      base_interval = base_duration;
      max_interval = if lt max_duration base_duration then base_duration else max_duration;
    }
