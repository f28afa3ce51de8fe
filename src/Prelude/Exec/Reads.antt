-- ===== src/Prelude/Exec/Reads.antt =====
-- Actions that only read, and actions that stop with an error before they write anything: one rule
-- for each way to build an action.
use mathlib.Core.Path.{◌≡◌, refl, ap, ◌∙◌}
use mathlib.Core.Bool.{Bool, true, false}
use mathlib.Core.Option.{Option, none, some}
use suzuran.Prelude.Tests.{if◌then◌else◌}
use suzuran.Prelude.Error.{Error}
use suzuran.Prelude.Result.{Result, ok, err}
use suzuran.Prelude.Exec.{Exec, pure, raise, lift, require, raise_if, continue, ◌>>=◌}

-- `m` leaves what `view` shows of the store as it is, whether it fails or not.
pub record Reads {S V A : Type 0} (view : S → V) (m : Exec S A) : Type 0 where
  pub leaves : (s : S) → view (m s).1 ≡ view s

-- From every store, `m` fails and leaves the store as it is.
pub record Stops {S A : Type 0} (m : Exec S A) : Type 0 where
  pub stops : (s : S) → (x : Error) × (m s ≡ (err x, s))

module _ {S V A : Type 0} {view : S → V} where
  pub Reads-pure : (a : A) → Reads view (pure a)
  unfolding pure
  Reads-pure a = record { leaves = λ s. refl }

  pub Reads-raise : (x : Error) → Reads view (raise {A = A} x)
  unfolding raise
  Reads-raise x = record { leaves = λ s. refl }

  pub Reads-lift : (r : Result A) → Reads view (lift r)
  unfolding lift
  Reads-lift r = record { leaves = λ s. refl }

  pub Reads-require : (x : Error) (o : Option A) → Reads view (require x o)
  unfolding require
  Reads-require x none = record { leaves = λ s. refl }
  Reads-require x (some a) = record { leaves = λ s. refl }

  -- an action that is written as what it answers beside the store it was given
  pub Reads-query : (f : S → Result A) → Reads view (λ s. (f s, s))
  Reads-query f = record { leaves = λ s. refl }

  pub Reads-if :
      (b : Bool) (m n : Exec S A) → Reads view m → Reads view n → Reads view (if b then m else n)
  Reads-if true m n hm hn = hm
  Reads-if false m n hm hn = hn

pub Reads-raise_if :
    {S V : Type 0} {view : S → V} (b : Bool) (x : Error) → Reads view (raise_if b x)
unfolding raise_if
Reads-raise_if true x = record { leaves = λ s. refl }
Reads-raise_if false x = record { leaves = λ s. refl }

module _ {S V A B : Type 0} {view : S → V} where
  leaves-continue :
      (r : Result A) (f : A → Exec S B) (s : S)
      → ((a : A) → Reads view (f a))
      → view (continue r f s).1 ≡ view s
  leaves-continue (ok a) f s h = (h a).leaves s
  leaves-continue (err x) f s h = refl

  pub Reads-bind :
      (m : Exec S A) (f : A → Exec S B)
      → Reads view m
      → ((a : A) → Reads view (f a))
      → Reads view (m >>= f)
  unfolding ◌>>=◌
  Reads-bind m f hm hf = record { leaves = λ s. leaves-continue (m s).0 f (m s).1 hf ∙ hm.leaves s }

module _ {S V A B : Type 0} {view : S → V} where
  pub Reads-elim :
      (o : Option A) (m : Exec S B) (f : A → Exec S B)
      → Reads view m
      → ((a : A) → Reads view (f a))
      → Reads view (elim o as (λ _. Exec S B) [ none ↦ m | some a ↦ f a ])
  Reads-elim none m f hm hf = hm
  Reads-elim (some a) m f hm hf = hf a

pub ruleset reads_rules = (
  Reads-pure, Reads-raise, Reads-lift, Reads-require, Reads-query, Reads-if, Reads-raise_if,
  Reads-bind,
)

module _ {S A B : Type 0} where
  Stops-continue :
      (o : Result A × S) (f : A → Exec S B) (s : S)
      → o.1 ≡ s
      → ((a : A) → Stops (f a))
      → (x : Error) × (continue o.0 f o.1 ≡ (err x, s))
  Stops-continue (ok a, t) f s q h = let (x, p) = (h a).stops t in (x, p ∙ ap (λ u. (err x, u)) q)
  Stops-continue (err x, t) f s q h = (x, ap (λ u. (err x, u)) q)

  pub Stops-first : (m : Exec S A) (f : A → Exec S B) → Stops m → Stops (m >>= f)
  unfolding ◌>>=◌
  Stops-first m f h = record {
    stops = λ s. let (x, p) = h.stops s in (x, ap (λ o. continue o.0 f o.1) p);
  }

  pub Stops-later :
      (m : Exec S A) (f : A → Exec S B)
      → Reads (λ (s : S). s) m
      → ((a : A) → Stops (f a))
      → Stops (m >>= f)
  unfolding ◌>>=◌
  Stops-later m f hm hf = record { stops = λ s. Stops-continue (m s) f s (hm.leaves s) hf }
