-- ===== src/Prelude/Decimal/Injective.antt =====
-- Printed numbers can be told apart.
use Prim.Native.Nat.{ℕ, zero, suc, ◌+◌, ◌-◌, ◌*◌, ◌/◌, ◌%◌, ◌≤◌, ◌<◌}
use Prim.Native.Char.{code}
use Prim.Native.String.{String, ◌++◌}
use mathlib.Core.Path.{◌≡◌, ◌∙◌, refl, sym, ap, subst}
use mathlib.Core.Logic.{◌≢◌, inl, inr}
use native.Mathlib.Omega.{arith}
use text.Mathlib.TextLemmas.{append_cancel_left, cons-append}
use semaphore_xds.Prelude.Tests.{nat_beq, Bool-cases}
use semaphore_xds.Prelude.Decimal.{ℤ, pos, negsuc, digit, digits, format, itoa, inc32}

-- The number that a text of digits stands for, read after `acc`.
abbrev scan : ℕ → String → ℕ
scan acc String.[] = acc
scan acc (String.◌∷◌ c s) = scan (acc * 10 + code c - 48) s

code-digit : (d : ℕ) → d < 10 → code (digit d) ≡ 48 + d
unfolding digit
code-digit zero h = refl
code-digit (suc zero) h = refl
code-digit (suc (suc zero)) h = refl
code-digit (suc (suc (suc zero))) h = refl
code-digit (suc (suc (suc (suc zero)))) h = refl
code-digit (suc (suc (suc (suc (suc zero))))) h = refl
code-digit (suc (suc (suc (suc (suc (suc zero)))))) h = refl
code-digit (suc (suc (suc (suc (suc (suc (suc zero))))))) h = refl
code-digit (suc (suc (suc (suc (suc (suc (suc (suc zero)))))))) h = refl
code-digit (suc (suc (suc (suc (suc (suc (suc (suc (suc zero))))))))) h = refl
code-digit (suc (suc (suc (suc (suc (suc (suc (suc (suc (suc n)))))))))) h = absurd (omega arith)

-- Reading the last digit after the others gives the number back.
scan_last : (n : ℕ) → n / 10 * 10 + code (digit (n % 10)) - 48 ≡ n
scan_last n = omega (arith, code-digit (n % 10) (omega arith))

scan-digits : (f n : ℕ) (out : String) → n ≤ f → scan 0 (digits f n out) ≡ scan n out
unfolding digits
scan-digits zero n out h = let e : n ≡ 0 = omega arith in rw e
scan-digits (suc f) n out h = elim (Bool-cases (nat_beq n 0)) [
  | inl done ↦ let e : n ≡ 0 = ground arith in rw (done, e)
  | inr more ↦ rw more (
      scan-digits f (n / 10) (String.◌∷◌ (digit (n % 10)) out) (ground arith)
      ∙ ap (λ m. scan m out) (scan_last n))
]

scan-format : (n : ℕ) → scan 0 (format n) ≡ n
unfolding format
scan-format n = elim (Bool-cases (nat_beq n 0)) [
  | inl done ↦ let e : n ≡ 0 = ground arith in rw (done, e)
  | inr more ↦ rw more (scan-digits n n "" (omega arith))
]

pub format-injective : (m n : ℕ) → format m ≡ format n → m ≡ n
format-injective m n h = sym (scan-format m) ∙ ap (scan 0) h ∙ scan-format n

-- Every character is a digit or above.
abbrev Digits : String → Type 0
Digits String.[] = Unit
Digits (String.◌∷◌ c s) = (48 ≤ code c) × Digits s

digits-Digits : (f n : ℕ) (out : String) → Digits out → Digits (digits f n out)
unfolding digits
digits-Digits zero n out h = h
digits-Digits (suc f) n out h = elim (Bool-cases (nat_beq n 0)) [
  | inl done ↦ rw done h
  | inr more ↦ rw more (
      digits-Digits f (n / 10) (String.◌∷◌ (digit (n % 10)) out)
        (omega (arith, code-digit (n % 10) (omega arith)), h))
]

format-Digits : (n : ℕ) → Digits (format n)
unfolding format
format-Digits n = elim (Bool-cases (nat_beq n 0)) [
  | inl done ↦ rw done (omega arith, tt)
  | inr more ↦ rw more (digits-Digits n n "" tt)
]

not-Digits : (s : String) → ¬ Digits ("-" ++ s)
not-Digits s h =
    let d : Digits (String.◌∷◌ "-" ("" ++ s)) = subst Digits (cons-append "-" "" s) h in
    absurd (omega (arith, d.0))

-- Two numbers that print alike are equal.
pub itoa-injective : (a b : ℤ) → itoa a ≡ itoa b → a ≡ b
unfolding itoa
itoa-injective (pos m) (pos n) h = ap pos (format-injective m n h)
itoa-injective (pos m) (negsuc n) h =
    absurd (not-Digits (format (n + 1)) (subst Digits h (format-Digits m)))
itoa-injective (negsuc m) (pos n) h =
    absurd (not-Digits (format (m + 1)) (subst Digits (sym h) (format-Digits n)))
itoa-injective (negsuc m) (negsuc n) h =
    let e : m + 1 ≡ n + 1 = format-injective _ _ (append_cancel_left "-" _ _ h) in
    let e' : m ≡ n = omega arith in ap negsuc e'

inc32-ne : (v : ℤ) → inc32 v ≢ v
unfolding inc32
inc32-ne (pos n) h = ground arith
inc32-ne (negsuc zero) h = cc
inc32-ne (negsuc (suc n)) h = ground arith

-- A version number prints differently after an increment, also where it wraps around.
pub itoa-inc32_ne : (v : ℤ) → itoa (inc32 v) ≢ itoa v
itoa-inc32_ne v h = inc32-ne v (itoa-injective _ _ h)
