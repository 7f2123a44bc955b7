-- ===== src/Prelude/Result.antt =====
-- What a Go call comes to: a value, an error beside a value that is not used, or a panic (a nil
-- pointer that is followed), which ends the process.
use Prim.Native.String.{String}
use mathlib.Core.Path.{◌≡◌, refl}
use mathlib.Core.Logic.{◌⊎◌, inl, inr}

-- An error carries its message.
pub data Result {ℓ} (A : Type ℓ) : Type ℓ where
  ok : A → Result A
  err : String → Result A
  panic : Result A

pub ok_inj {ℓ} : {A : Type ℓ} {a b : A} → ok a ≡ ok b → a ≡ b
ok_inj h = cc

-- To split on a computed result and keep the equation.
pub Result-cases {ℓ} :
    {A : Type ℓ} (m : Result A)
    → ((a : A) × (m ≡ ok a)) ⊎ (((e : String) × (m ≡ err e)) ⊎ (m ≡ panic))
Result-cases (ok a) = inl (a, refl)
Result-cases (err e) = inr (inl (e, refl))
Result-cases panic = inr (inr refl)

infixl 5 ◌>>=◌
abbrev pub ◌>>=◌ {ℓ μ} : {A : Type ℓ} {B : Type μ} → Result A → (A → Result B) → Result B
panic >>= next = panic
err e >>= next = err e
ok a >>= next = next a

pub >>=-eq-ok {ℓ κ} :
    {A : Type ℓ} {B : Type κ} (r : Result A) (next : A → Result B) {b : B}
    → (r >>= next) ≡ ok b
    → (a : A) × (r ≡ ok a) × (next a ≡ ok b)
>>=-eq-ok (ok a) next h = (a, refl, h)
>>=-eq-ok (err e) next h = cc
>>=-eq-ok panic next h = cc
