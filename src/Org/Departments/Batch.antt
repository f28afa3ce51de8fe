-- ===== src/Org/Departments/Batch.antt =====
-- The departments that BuildTree of backend/internal/service/department_service.go reads, and how it
-- groups them.
use suzuran.Prelude.{
  ℕ, ◌<◌, ◌≤◌, ◌≡◌, ◌≢◌, ◌⊎◌, ◌↔◌, inl, inr, refl, ap, ◌∙◌, Bool, true, false, some, List, [], ◌∷◌,
  length, filter, All, All-map, Bool-cases, Option-cases, arith, ◌==◌, ==_iff,
}
use suzuran.Gorm.Rows.{row_at}
use suzuran.Org.Model.{Department}
use suzuran.Org.Departments.Build.{
  comes_first, put_in_order, in_order, has_id, parent_in, names, children_of, is_none, roots,
}
use suzuran.Org.Departments.Order.{All-put_in_order}

-- Lower levels come first, and lower keys among the same level.
abbrev pub Before : Department → Department → Type 0
Before a b = (a.level < b.level) ⊎ ((a.level ≡ b.level) × (a.id ≤ b.id))

abbrev pub IsSorted : List Department → Type 0
IsSorted [] = Unit
IsSorted (d ∷ t) = All (Before d) t × IsSorted t

Before-trans : (a b c : Department) → Before a b → Before b c → Before a c
Before-trans a b c p q = ground (arith, p, q)

first-Before : (a b : Department) → comes_first a b ≡ true → Before a b
first-Before a b h = ground arith

later-Before : (a b : Department) → comes_first a b ≡ false → Before b a
later-Before a b h = ground arith

put_in_order-IsSorted :
    (d : Department) (t : List Department) → IsSorted t → IsSorted (put_in_order d t)
put_in_order-IsSorted d [] h = (tt, tt)
put_in_order-IsSorted d (x ∷ t) h = elim (Bool-cases (comes_first d x)) [
  | inl q ↦
      let first = first-Before d x q in
      rw q ((first, All-map (Before x) (Before d) t (λ y. Before-trans d x y first) h.0), h)
  | inr q ↦
      rw q (All-put_in_order (Before x) d t (later-Before d x q) h.0, put_in_order-IsSorted d t h.1)
]

in_order-IsSorted : (t : List Department) → IsSorted (in_order t)
in_order-IsSorted [] = tt
in_order-IsSorted (d ∷ t) = put_in_order-IsSorted d (in_order t) (in_order-IsSorted t)

count-put_in_order :
    (p : Department → Bool) (d : Department) (t : List Department)
    → length (filter p (put_in_order d t)) ≡ length (filter p (d ∷ t))
count-put_in_order p d [] = refl
count-put_in_order p d (x ∷ t) = ground (arith, count-put_in_order p d t)

count-in_order :
    (p : Department → Bool) (t : List Department)
    → length (filter p (in_order t)) ≡ length (filter p t)
count-in_order p [] = refl
count-in_order p (d ∷ t) = count-put_in_order p d (in_order t) ∙ ground (arith, count-in_order p t)

-- The department names `p` as its parent, and `p` is one of these departments.
abbrev pub IsParent : List Department → Department → ℕ → Type 0
IsParent depts d p =
    (d.parent_id ≡ some p)
    × (p ≢ 0)
    × ((x : Department) × (row_at (λ (y : Department). y.id) p depts ≡ some x))

has_id-row :
    (k : ℕ) (t : List Department)
    → (has_id k t ≡ true) ↔ ((x : Department) × (row_at (λ (y : Department). y.id) k t ≡ some x))
has_id-row k [] = ((λ h. ground arith), (λ (x, h). ground arith))
has_id-row k (d ∷ t) = elim (Bool-cases (d.id == k)) [
  | inl q ↦ rw q ((λ h. (d, refl)), (λ h. refl))
  | inr q ↦ rw q (has_id-row k t)
]

parent_in-IsParent :
    (depts : List Department) (d : Department) (k : ℕ)
    → (names k (parent_in depts d) ≡ true) ↔ IsParent depts d k
parent_in-IsParent depts d k = elim (Option-cases d.parent_id) [
  | inl q ↦ rw q (
    (λ h. absurd (let bad : ⊥ = ground arith in bad)),
    (λ h. absurd (let bad : ⊥ = ground (arith, h.0) in bad)),
  )
  | inr (p, q) ↦ rw q (elim (Bool-cases (has_id p depts)) [
    | inl here ↦ rw here (
      (λ h.
          let same : p ≡ k = ground (arith, ==_iff p k, h) in
          (
            ap some same,
            (λ z. ground (arith, ==_iff p k, h)),
            (has_id-row k depts).0 (rw same at here),
          )),
      (λ (e, z, row). ground (arith, e, z, ==_iff p k)),
    )
    | inr gone ↦ rw gone (
      (λ h. absurd (let bad : ⊥ = ground (arith, h) in bad)),
      (λ (e, z, row).
          let there = (has_id-row k depts).1 row in
          let same : p ≡ k = ground (arith, e) in
          absurd (let bad : ⊥ = ground (arith, rw (← same) at there) in bad)),
    )
  ])
]

-- What a batch for the tree is: the rows `t`, in order; a department is a root exactly if none of them
-- is its parent, and a child of exactly its parent.
pub record IsBatch (t depts : List Department) : Type 0 where
  pub sorted : IsSorted depts
  pub same_rows : (p : Department → Bool) → length (filter p depts) ≡ length (filter p t)
  pub is_top : Department → Bool
  pub tops : roots depts ≡ filter is_top depts
  pub top_iff : (d : Department) → (is_top d ≡ true) ↔ ((k : ℕ) → ¬ IsParent depts d k)
  pub is_child : ℕ → Department → Bool
  pub kids : (k : ℕ) → children_of depts k ≡ filter (is_child k) depts
  pub child_iff : (k : ℕ) (d : Department) → (is_child k d ≡ true) ↔ IsParent depts d k

no_parent_lem :
    (depts : List Department) (d : Department)
    → (is_none (parent_in depts d) ≡ true) ↔ ((k : ℕ) → ¬ IsParent depts d k)
no_parent_lem depts d = elim (Option-cases (parent_in depts d)) [
  | inl q ↦ rw q (
    (λ h k p.
        let hit = (parent_in-IsParent depts d k).1 p in
        let bad : ⊥ = ground (arith, rw q at hit) in bad),
    (λ h. refl),
  )
  | inr (k, q) ↦
      let mine = (parent_in-IsParent depts d k).0 (rw q ((==_iff k k).1 refl)) in
      rw q ((λ h. ground arith), (λ h. absurd (h k mine)))
]

pub in_order-IsBatch : (t : List Department) → IsBatch t (in_order t)
in_order-IsBatch t = record {
  sorted = in_order-IsSorted t;
  same_rows = λ p. count-in_order p t;
  is_top = λ d. is_none (parent_in (in_order t) d);
  tops = refl;
  top_iff = no_parent_lem (in_order t);
  is_child = λ k d. names k (parent_in (in_order t) d);
  kids = λ k. refl;
  child_iff = λ k d. parent_in-IsParent (in_order t) d k;
}
