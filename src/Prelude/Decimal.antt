-- ===== src/Prelude/Decimal.antt =====
-- Go's `int32`, and what `strconv.Itoa` and `fmt.Sprint` print for it. An int32 is a ℤ in the
-- range of `IsInt32`.
pub mod Injective
use Prim.Native.Nat.{ℕ, zero, suc, ◌+◌, ◌-◌, ◌*◌, ◌/◌, ◌%◌, ◌^◌, ◌≤◌, ◌<◌}
use Prim.Native.Char.{Char, code}
use Prim.Native.String.{String, ◌++◌}
use mathlib.Core.Path.{◌≡◌, ◌∙◌, refl, sym, ap}
use mathlib.Core.Logic.{◌≢◌, inl, inr}
use mathlib.Core.Bool.{true, false}
use native.Mathlib.Omega.{arith}
use semaphore_xds.Prelude.Tests.{if◌then◌else◌, nat_beq, Bool-cases}

-- `negsuc n` is -(n + 1).
pub data ℤ : Type 0 where
  pos : ℕ → ℤ
  negsuc : ℕ → ℤ

-- x + 1 in int32: the largest value wraps around to the least.
unfoldable pub inc32 : ℤ → ℤ
inc32 (pos n) = if nat_beq (n + 1) (2 ^ 31) then negsuc (2 ^ 31 - 1) else pos (n + 1)
inc32 (negsuc zero) = pos 0
inc32 (negsuc (suc n)) = negsuc n

-- uint32(x)
unfoldable pub to_uint32 : ℤ → ℕ
to_uint32 (pos n) = n % 2 ^ 32
to_uint32 (negsuc n) = 2 ^ 32 - 1 - n % 2 ^ 32

-- the range of int32
abbrev pub IsInt32 : ℤ → Type 0
IsInt32 (pos n) = n < 2 ^ 31
IsInt32 (negsuc n) = n < 2 ^ 31

unfoldable pub digit : ℕ → Char
digit zero = "0"
digit (suc zero) = "1"
digit (suc (suc zero)) = "2"
digit (suc (suc (suc zero))) = "3"
digit (suc (suc (suc (suc zero)))) = "4"
digit (suc (suc (suc (suc (suc zero))))) = "5"
digit (suc (suc (suc (suc (suc (suc zero)))))) = "6"
digit (suc (suc (suc (suc (suc (suc (suc zero))))))) = "7"
digit (suc (suc (suc (suc (suc (suc (suc (suc zero)))))))) = "8"
digit _ = "9"

-- The loop that divides by ten; `n` rounds are more than it makes.
unfoldable pub digits : ℕ → ℕ → String → String
unfolding digit
digits zero n out = out
digits (suc f) n out =
    let rest = digits f (n / 10) (String.◌∷◌ (digit (n % 10)) out) in
    if nat_beq n 0 then out else rest

unfoldable pub format : ℕ → String
unfolding digits
format n = if nat_beq n 0 then "0" else digits n n ""

-- strconv.Itoa
unfoldable pub itoa : ℤ → String
unfolding format
itoa (pos n) = format n
itoa (negsuc n) = "-" ++ format (n + 1)

itoa_samples : (itoa (pos 50051) ≡ "50051") × (itoa (negsuc 11) ≡ "-12") × (itoa (pos 0) ≡ "0")
unfolding itoa
itoa_samples = (refl, refl, refl)
