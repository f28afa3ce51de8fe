-- ===== src/Prelude/Exec/Cases.antt =====
-- To follow one run of a chain: a property of its outcome, by the outcome of each step.
use mathlib.Core.Path.{◌≡◌, refl}
use mathlib.Core.Bool.{Bool, true, false}
use suzuran.Prelude.Error.{Error}
use suzuran.Prelude.Result.{Result, ok, err}
use suzuran.Prelude.Exec.{Exec, raise_if, lift, continue, ◌>>=◌}

module _ {S A B : Type 0} (G : Result B × S → Type 0) where
  continue-cases :
      (r : Result A) (f : A → Exec S B) (s : S)
      → ((x : Error) → r ≡ err x → G (err x, s))
      → ((a : A) → r ≡ ok a → G (f a s))
      → G (continue r f s)
  continue-cases (ok a) f s fails goes = goes a refl
  continue-cases (err x) f s fails goes = fails x refl

  pub bind_cases :
      (m : Exec S A) (f : A → Exec S B) (s : S)
      → ((x : Error) → (m s).0 ≡ err x → G (err x, (m s).1))
      → ((a : A) → (m s).0 ≡ ok a → G (f a (m s).1))
      → G ((m >>= f) s)
  unfolding ◌>>=◌
  bind_cases m f s fails goes = continue-cases (m s).0 f (m s).1 fails goes

  pub lift_cases :
      (r : Result A) (f : A → Exec S B) (s : S)
      → ((x : Error) → r ≡ err x → G (err x, s))
      → ((a : A) → r ≡ ok a → G (f a s))
      → G ((lift r >>= f) s)
  unfolding ◌>>=◌
  lift_cases r f s fails goes = continue-cases r f s fails goes

module _ {S B : Type 0} (G : Result B × S → Type 0) where
  pub guard_cases :
      (bad : Bool) (x : Error) (f : Unit {0} → Exec S B) (s : S)
      → (bad ≡ true → G (err x, s))
      → (bad ≡ false → G (f tt s))
      → G ((raise_if bad x >>= f) s)
  unfolding ◌>>=◌
  guard_cases true x f s fails goes = fails refl
  guard_cases false x f s fails goes = goes refl
