-- ===== src/Prelude/Exec/Rules.antt =====
-- One rule of `Ensures` for each way to build an action.
use mathlib.Core.Path.{◌≡◌, refl, sym, ap, subst, ◌∙◌}
use mathlib.Core.Bool.{Bool, true, false}
use mathlib.Core.Option.{Option, none, some}
use suzuran.Prelude.Tests.{if◌then◌else◌}
use suzuran.Prelude.Error.{Error}
use suzuran.Prelude.Result.{Result, ok, err, ok-injective}
use suzuran.Prelude.Exec.{Exec, Ensures, pure, raise, lift, require, raise_if, continue, ◌>>=◌}

module _ {S A : Type 0} {P : S → Type 0} where
  pub Ensures-pure : {Q : A → Type 0} (a : A) → Q a → Ensures P Q (pure a)
  unfolding pure
  Ensures-pure {Q} a q = record {
    keeps = λ s h. h;
    returns = λ s h b e. subst Q (ok-injective e) q;
  }

  pub Ensures-raise : {Q : A → Type 0} (x : Error) → Ensures P Q (raise x)
  unfolding raise
  Ensures-raise x = record { keeps = λ s h. h; returns = λ s h b e. cc }

  pub Ensures-lift : (r : Result A) → Ensures P (λ a. r ≡ ok a) (lift r)
  unfolding lift
  Ensures-lift r = record { keeps = λ s h. h; returns = λ s h b e. e }

  pub Ensures-require : (x : Error) (o : Option A) → Ensures P (λ a. o ≡ some a) (require x o)
  unfolding require
  Ensures-require x none = record { keeps = λ s h. h; returns = λ s h b e. cc }
  Ensures-require x (some a) = record { keeps = λ s h. h; returns = λ s h b e. cc }

  pub Ensures-if :
      {Q : A → Type 0} (b : Bool) (m n : Exec S A)
      → (b ≡ true → Ensures P Q m)
      → (b ≡ false → Ensures P Q n)
      → Ensures P Q (if b then m else n)
  Ensures-if true m n hm hn = hm refl
  Ensures-if false m n hm hn = hn refl

pub Ensures-raise_if :
    {S : Type 0} {P : S → Type 0} (b : Bool) (x : Error)
    → Ensures P (λ _. b ≡ false) (raise_if {S = S} b x)
unfolding raise_if
Ensures-raise_if true x = record { keeps = λ s h. h; returns = λ s h b e. cc }
Ensures-raise_if false x = record { keeps = λ s h. h; returns = λ s h b e. refl }

module _ {S A B : Type 0} {P : S → Type 0} {R : B → Type 0} where
  keeps-continue :
      (r : Result A) (f : A → Exec S B) (s : S)
      → P s
      → ((a : A) → r ≡ ok a → Ensures P R (f a))
      → P (continue r f s).1
  keeps-continue (ok a) f s h k = (k a refl).keeps s h
  keeps-continue (err x) f s h k = h

  returns-continue :
      (r : Result A) (f : A → Exec S B) (s : S)
      → P s
      → ((a : A) → r ≡ ok a → Ensures P R (f a))
      → (b : B) → (continue r f s).0 ≡ ok b
      → R b
  returns-continue (ok a) f s h k b e = (k a refl).returns s h b e
  returns-continue (err x) f s h k b e = cc

module _ {S A B : Type 0} {P : S → Type 0} {Q : A → Type 0} {R : B → Type 0} where
  pub Ensures-bind :
      {m : Exec S A} {f : A → Exec S B}
      → Ensures P Q m
      → ((a : A) → Q a → Ensures P R (f a))
      → Ensures P R (m >>= f)
  unfolding ◌>>=◌
  Ensures-bind {m} {f} hm hf = record {
    keeps =
        λ s h. keeps-continue (m s).0 f (m s).1 (hm.keeps s h) (λ a e. hf a (hm.returns s h a e));
    returns =
        λ s h. returns-continue (m s).0 f (m s).1 (hm.keeps s h) (λ a e. hf a (hm.returns s h a e));
  }

-- What a chain that succeeds went through.
module _ {S A B : Type 0} where
  continue-ok :
      (r : Result A) (f : A → Exec S B) (s : S) (b : B)
      → (continue r f s).0 ≡ ok b
      → (a : A) × (r ≡ ok a) × (continue r f s ≡ f a s)
  continue-ok (ok a) f s b h = (a, refl, refl)
  continue-ok (err x) f s b h = cc

  pub >>=-ok :
      (m : Exec S A) (f : A → Exec S B) (s : S) {b : B}
      → ((m >>= f) s).0 ≡ ok b
      → (a : A) × ((m s).0 ≡ ok a) × ((m >>= f) s ≡ f a (m s).1)
  unfolding ◌>>=◌
  >>=-ok m f s {b} h = continue-ok (m s).0 f (m s).1 b h

  -- The result of a chain is that of its second part, at a result of the first.
  pub >>=-returns :
      (m : Exec S A) (f : A → Exec S B) (s : S) {b : B}
      → ((m >>= f) s).0 ≡ ok b
      → (a : A) × (t : S) × ((m s).0 ≡ ok a) × ((f a t).0 ≡ ok b)
  >>=-returns m f s h = let (a, e, q) = >>=-ok m f s h in (a, (m s).1, e, sym (ap (λ t. t.0) q) ∙ h)

pub ruleset ensures_rules = (
  Ensures-pure, Ensures-raise, Ensures-lift, Ensures-require, Ensures-if, Ensures-raise_if,
  Ensures-bind,
)
