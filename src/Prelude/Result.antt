-- ===== src/Prelude/Result.antt =====
-- Go's `(T, error)` pairs as values.

use mathlib.Core.Path.{◌≡◌, refl}
use mathlib.Core.Logic.{◌⊎◌, inl, inr}
use mathlib.Core.Bool.{Bool, true, false}
use suzuran.Prelude.Error.{Error}

pub data Result {ℓ} (T : Type ℓ) : Type ℓ where
  err : Error → Result T
  ok : T → Result T

infixl 5 ◌>>=◌ ◌>>◌
module _ {ℓ κ} {T : Type ℓ} {U : Type κ} where
  -- `if err != nil { return err }`, then the rest with the value
  abbrev pub ◌>>=◌ : Result T → (T → Result U) → Result U
  ◌>>=◌ (err x) rest = err x
  ◌>>=◌ (ok t) rest = rest t

abbrev pub ◌>>◌ {κ} : {U : Type κ} → Result (Unit {0}) → Result U → Result U
check >> rest = check >>= λ done. rest

-- `if bad { return err }`
abbrev pub reject_if : Bool → Error → Result (Unit {0})
reject_if true e = err e
reject_if false e = ok tt

pub Result-cases {ℓ} :
    {A : Type ℓ} (r : Result A) → ((a : A) × (r ≡ ok a)) ⊎ ((e : Error) × (r ≡ err e))
Result-cases (ok a) = inl (a, refl)
Result-cases (err e) = inr (e, refl)

pub ok-injective {ℓ} : {A : Type ℓ} {a b : A} → ok a ≡ ok b → a ≡ b
ok-injective e = cc

-- What a chain that succeeds went through.
module _ {ℓ} {A : Type ℓ} where
  pub reject_if-ok :
      (bad : Bool) (x : Error) (rest : Result A) (a : A)
      → (reject_if bad x >> rest) ≡ ok a
      → (bad ≡ false) × (rest ≡ ok a)
  reject_if-ok true x rest a h = cc
  reject_if-ok false x rest a h = (refl, h)

  pub >>=-ok {κ} :
      {B : Type κ} (r : Result B) (f : B → Result A) (a : A)
      → (r >>= f) ≡ ok a
      → (b : B) × (r ≡ ok b) × (f b ≡ ok a)
  >>=-ok (ok b) f a h = (b, refl, h)
  >>=-ok (err x) f a h = cc
