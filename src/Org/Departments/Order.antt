-- ===== src/Org/Departments/Order.antt =====
-- The order of backend/internal/repository/department_repository.go's query keeps its rows.
use suzuran.Prelude.{◌≢◌, sym, inl, inr, Bool, List, [], ◌∷◌, All, All-filter, filter, Bool-cases}
use suzuran.Gorm.Rows.{Unique}
use suzuran.Org.Model.{Department}
use suzuran.Org.Departments.Build.{comes_first, put_in_order, in_order}

pub All-put_in_order :
    (P : Department → Type 0) (d : Department) (t : List Department)
    → P d
    → All P t
    → All P (put_in_order d t)
All-put_in_order P d [] h a = (h, tt)
All-put_in_order P d (x ∷ t) h a = elim (Bool-cases (comes_first d x)) [
  | inl e ↦ rw e (h, a)
  | inr e ↦ rw e (a.0, All-put_in_order P d t h a.1)
]

pub All-in_order : (P : Department → Type 0) (t : List Department) → All P t → All P (in_order t)
All-in_order P [] a = tt
All-in_order P (d ∷ t) a = All-put_in_order P d (in_order t) a.0 (All-in_order P t a.1)

Unique-put_in_order :
    (d : Department) (t : List Department)
    → All (λ y. y.id ≢ d.id) t
    → Unique (λ (y : Department). y.id) t
    → Unique (λ (y : Department). y.id) (put_in_order d t)
Unique-put_in_order d [] a u = (tt, tt)
Unique-put_in_order d (x ∷ t) a u = elim (Bool-cases (comes_first d x)) [
  | inl e ↦ rw e (a, u)
  | inr e ↦ rw e (
    All-put_in_order (λ y. y.id ≢ x.id) d t (λ q. a.0 (sym q)) u.0,
    Unique-put_in_order d t a.1 u.1,
  )
]

pub Unique-in_order :
    (t : List Department)
    → Unique (λ (y : Department). y.id) t
    → Unique (λ (y : Department). y.id) (in_order t)
Unique-in_order [] u = tt
Unique-in_order (d ∷ t) u =
    Unique-put_in_order d (in_order t) (All-in_order (λ y. y.id ≢ d.id) t u.0)
      (Unique-in_order t u.1)

pub Unique-filter :
    (p : Department → Bool) (t : List Department)
    → Unique (λ (y : Department). y.id) t
    → Unique (λ (y : Department). y.id) (filter p t)
Unique-filter p [] u = tt
Unique-filter p (d ∷ t) u = elim (Bool-cases (p d)) [
  | inl e ↦ rw e (All-filter (λ y. y.id ≢ d.id) p t u.0, Unique-filter p t u.1)
  | inr e ↦ rw e (Unique-filter p t u.1)
]
