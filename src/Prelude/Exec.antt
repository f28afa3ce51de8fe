-- ===== src/Prelude/Exec.antt =====
-- Code that changes a store and may fail, outside a transaction: an error undoes nothing, so a
-- failing action returns the store as it then is.
pub mod Rules
pub mod Fails
pub mod Cases
pub mod Reads
use mathlib.Core.Path.{◌≡◌}
use mathlib.Core.Bool.{Bool, true, false}
use mathlib.Core.Option.{Option, none, some}
use suzuran.Prelude.Error.{Error}
use suzuran.Prelude.Result.{Result, ok, err}

abbrev pub Exec {ℓ} : Type ℓ → Type ℓ → Type ℓ
Exec S A = S → Result A × S

module _ {ℓ} {S A : Type ℓ} where
  -- `if x == nil { return err }`
  pub require : Error → Option A → Exec S A
  require e none db = (err e, db)
  require e (some a) db = (ok a, db)

  pub raise : Error → Exec S A
  raise e db = (err e, db)

  -- a computation that touches no state
  pub lift : Result A → Exec S A
  lift r db = (r, db)

  pub pure : A → Exec S A
  pure a db = (ok a, db)

-- `if bad { return err }`
pub raise_if : {S : Type 0} → Bool → Error → Exec S (Unit {0})
raise_if true e s = (err e, s)
raise_if false e s = (ok tt, s)

module _ {ℓ} {S A B : Type ℓ} where
  abbrev pub continue : Result A → (A → Exec S B) → Exec S B
  continue (err x) rest db = (err x, db)
  continue (ok a) rest db = rest a db

  infixl 5 ◌>>=◌ ◌>>◌
  -- Opening this opens the actions above too.
  unfoldable pub ◌>>=◌ : Exec S A → (A → Exec S B) → Exec S B
  unfolding raise_if require raise lift pure
  ◌>>=◌ m rest db = continue (m db).0 rest (m db).1

  abbrev pub ◌>>◌ : Exec S A → Exec S B → Exec S B
  ◌>>◌ m rest = m >>= λ done. rest

  -- `_ = m`: the error is dropped, and what was written stays.
  unfoldable pub ignoring : Exec S A → Exec S B → Exec S B
  ignoring m k s = k (m s).1

-- `m` keeps the invariant `P` of the store, whether it fails or not, and a result that it returns
-- has the property `Q`.
pub record Ensures {ℓ} {S A : Type ℓ} (P : S → Type ℓ) (Q : A → Type ℓ) (m : Exec S A)
    : Type ℓ where
  pub keeps : (s : S) → P s → P (m s).1
  pub returns : (s : S) → P s → (a : A) → (m s).0 ≡ ok a → Q a

abbrev pub Anything {ℓ} : {A : Type ℓ} → A → Type ℓ
Anything a = Unit
