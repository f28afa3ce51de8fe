-- ===== src/Prelude/Exec/Fails.antt =====
-- The errors that an action can end with, one rule for each way to build an action.
use mathlib.Core.Path.{◌≡◌, refl, subst}
use mathlib.Core.Option.{Option, some}
use suzuran.Prelude.Error.{Error}
use suzuran.Prelude.Result.{Result, ok, err}
use suzuran.Prelude.Exec.{Exec, pure, raise, lift, require, continue, ◌>>=◌}

-- From every state, an error of `m` has the property `Q`.
pub record FailsOnly {S A : Type 0} (Q : Error → Type 0) (m : Exec S A) : Type 0 where
  pub failure : (s : S) (x : Error) → (m s).0 ≡ err x → Q x

module _ {S A : Type 0} {Q : Error → Type 0} where
  pub FailsOnly-pure : (a : A) → FailsOnly Q (pure {S = S} a)
  unfolding pure
  FailsOnly-pure a = record { failure = λ s x e. cc }

  pub FailsOnly-raise : (y : Error) → Q y → FailsOnly Q (raise {S = S} {A = A} y)
  unfolding raise
  FailsOnly-raise y q = record { failure = λ s x e. subst Q (let p : y ≡ x = cc in p) q }

module _ {S A B : Type 0} {Q : Error → Type 0} where
  fails-continue :
      (r : Result A) (f : A → Exec S B)
      → ((x : Error) → r ≡ err x → Q x)
      → ((a : A) → r ≡ ok a → FailsOnly Q (f a))
      → (s : S) (x : Error) → (continue r f s).0 ≡ err x
      → Q x
  fails-continue (ok a) f hr hf s x e = (hf a refl).failure s x e
  fails-continue (err y) f hr hf s x e = subst Q (let p : y ≡ x = cc in p) (hr y refl)

  pub FailsOnly-bind :
      {m : Exec S A} {f : A → Exec S B}
      → FailsOnly Q m
      → ((a : A) → FailsOnly Q (f a))
      → FailsOnly Q (m >>= f)
  unfolding ◌>>=◌
  FailsOnly-bind {m} {f} hm hf = record {
    failure = λ s x e. fails-continue (m s).0 f (hm.failure s) (λ a _. hf a) (m s).1 x e;
  }

  -- The rest may use what the result is.
  pub FailsOnly-bind_lift :
      (r : Result A) (f : A → Exec S B)
      → ((x : Error) → r ≡ err x → Q x)
      → ((a : A) → r ≡ ok a → FailsOnly Q (f a))
      → FailsOnly Q (lift r >>= f)
  unfolding ◌>>=◌
  FailsOnly-bind_lift r f hr hf = record { failure = fails-continue r f hr hf }

  pub FailsOnly-bind_require :
      (y : Error) (o : Option A) (a : A) (f : A → Exec S B)
      → o ≡ some a
      → FailsOnly Q (f a)
      → FailsOnly Q (require y o >>= f)
  unfolding ◌>>=◌
  FailsOnly-bind_require y o a f e hf = record { failure = λ s x q. hf.failure s x (rw e at q) }
