-- ===== src/Prelude/Lists.antt =====
-- Lists measured by native numbers, searched and filtered by Boolean tests, and the predicate that
-- holds of all members.
use Prim.Native.Nat.{ℕ, suc, ◌+◌}
use mathlib.Core.Bool.{Bool, true, false}
use mathlib.Core.Option.{Option, none, some}
use mathlib.Core.Path.{◌≡◌, refl, ap}
use mathlib.Core.Logic.{inl, inr}
use mathlib.Core.List.{List, [], ◌∷◌, ◌++◌}
use native.Mathlib.Omega.{arith}
use suzuran.Prelude.Tests.{if◌then◌else◌, Bool-cases}

module _ {ℓ} {A : Type ℓ} where
  abbrev pub length : List A → ℕ
  length [] = 0
  length (x ∷ xs) = suc (length xs)

  abbrev pub find? : (A → Bool) → List A → Option A
  find? p [] = none
  find? p (x ∷ xs) = if p x then some x else find? p xs

  abbrev pub filter : (A → Bool) → List A → List A
  filter p [] = []
  filter p (x ∷ xs) = let rest = filter p xs in if p x then x ∷ rest else rest

  abbrev pub All {κ} : (A → Type κ) → List A → Type κ
  All P [] = Unit
  All P (x ∷ xs) = P x × All P xs

  pub All-zip {κ μ} :
      (P : A → Type κ) (Q : A → Type μ) (xs : List A)
      → All P xs
      → All Q xs
      → All (λ x. P x × Q x) xs
  All-zip P Q [] p q = tt
  All-zip P Q (x ∷ xs) p q = ((p.0, q.0), All-zip P Q xs p.1 q.1)

  pub All-map {κ μ} :
      (P : A → Type κ) (Q : A → Type μ) (xs : List A) → ((x : A) → P x → Q x) → All P xs → All Q xs
  All-map P Q [] f a = tt
  All-map P Q (x ∷ xs) f a = (f x a.0, All-map P Q xs f a.1)

  pub All-filter {κ} :
      (P : A → Type κ) (p : A → Bool) (xs : List A) → All P xs → All P (filter p xs)
  All-filter P p [] a = tt
  All-filter P p (x ∷ xs) a = elim (Bool-cases (p x)) [
    | inl e ↦ rw e (a.0, All-filter P p xs a.1)
    | inr e ↦ rw e (All-filter P p xs a.1)
  ]

  -- What a filter keeps passes its test.
  pub filter-holds : (p : A → Bool) (xs : List A) → All (λ x. p x ≡ true) (filter p xs)
  filter-holds p [] = tt
  filter-holds p (x ∷ xs) = elim (Bool-cases (p x)) [
    | inl e ↦ rw e (e, filter-holds p xs)
    | inr e ↦ rw e (filter-holds p xs)
  ]

  pub All-append_one {κ} :
      (P : A → Type κ) (xs : List A) (x : A) → All P xs → P x → All P (xs ++ x ∷ [])
  All-append_one P [] x a h = (h, tt)
  All-append_one P (y ∷ xs) x a h = (a.0, All-append_one P xs x a.1 h)

  pub find?-none : (p : A → Bool) (xs : List A) → find? p xs ≡ none → All (λ x. p x ≡ false) xs
  find?-none p [] h = tt
  find?-none p (x ∷ xs) h = elim (Bool-cases (p x)) [
    | inl e ↦ absurd (let bad : ⊥ = ground arith in bad)
    | inr e ↦ (e, find?-none p xs (rw e at h))
  ]

  -- Two filters in either order.
  pub filter-filter_comm :
      (p q : A → Bool) (xs : List A) → filter p (filter q xs) ≡ filter q (filter p xs)
  filter-filter_comm p q [] = refl
  filter-filter_comm p q (x ∷ xs) = ground (arith, filter-filter_comm p q xs)

  -- A test that every member passes filters nothing out.
  pub filter-All : (p : A → Bool) (xs : List A) → All (λ x. p x ≡ true) xs → filter p xs ≡ xs
  filter-All p [] a = refl
  filter-All p (x ∷ xs) a = rw a.0 (ap (λ t. x ∷ t) (filter-All p xs a.1))

  -- the head of a filtered list, kept or not
  pub filter-kept :
      (p : A → Bool) (x : A) (xs : List A) → p x ≡ true → x ∷ filter p xs ≡ filter p (x ∷ xs)
  filter-kept p x xs h = ground arith

  pub filter-dropped :
      (p : A → Bool) (x : A) (xs : List A) → p x ≡ false → filter p xs ≡ filter p (x ∷ xs)
  filter-dropped p x xs h = ground arith

  pub length-append : (xs ys : List A) → length (xs ++ ys) ≡ length xs + length ys
  length-append [] ys = omega arith
  length-append (x ∷ xs) ys = omega (arith, length-append xs ys)
