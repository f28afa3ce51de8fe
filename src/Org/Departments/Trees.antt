-- ===== src/Org/Departments/Trees.antt =====
-- The tree that BuildTree of backend/internal/service/department_service.go returns: a path from a
-- root never comes back, so the recursion ends.
use mathlib.Core.Option.{some-injective}
use suzuran.Prelude.{
  subst, ◌∙◌, ℕ, zero, suc, ◌≤◌, ◌≡◌, ◌≢◌, inl, inr, refl, sym, ap, true, false, not, Option, none,
  some, List, [], ◌∷◌, length, filter, filter-holds, All, All-map, All-zip, All-filter, Bool-cases,
  arith, ◌==◌, ==_iff,
}
use suzuran.Prelude.Result.{Result, ok}
use suzuran.Gorm.Rows.{row_at, Unique}
use suzuran.Org.Model.{Department}
use suzuran.Org.Departments.Build.{
  DepartmentNodes, no_nodes, node, has_id, parent_in, names, is_none, children_of, roots,
  build_kids, build_list, build,
}

-- The row of `d` is the one that its key leads to.
abbrev Own : List Department → Department → Type 0
Own depts d = row_at (λ (x : Department). x.id) d.id depts ≡ some d

All-Own :
    (depts : List Department) → Unique (λ (x : Department). x.id) depts → All (Own depts) depts
All-Own [] u = tt
All-Own (x ∷ t) u = (
  ground arith,
  All-map (λ y. (y.id ≢ x.id) × Own t y) (Own (x ∷ t)) t (λ y h. ground (arith, h.0, h.1))
      (All-zip (λ y. y.id ≢ x.id) (Own t) t u.0 (All-Own t u.1)),
)

-- how many departments the visited ones leave
abbrev unvisited : List Department → List Department → ℕ
unvisited depts seen = length (filter (λ d. not (has_id d.id seen)) depts)

unvisited_mono :
    (depts seen : List Department) (d : Department)
    → unvisited depts (d ∷ seen) ≤ unvisited depts seen
unvisited_mono [] seen d = omega arith
unvisited_mono (x ∷ t) seen d = ground (arith, unvisited_mono t seen d)

unvisited_step :
    (depts seen : List Department) (d : Department)
    → Own depts d
    → has_id d.id seen ≡ false
    → suc (unvisited depts (d ∷ seen)) ≤ unvisited depts seen
unvisited_step [] seen d own fresh = ground arith
unvisited_step (x ∷ t) seen d own fresh = elim (Bool-cases (x.id == d.id)) [
  | inl e ↦
      let same : x.id ≡ d.id = (==_iff _ _).0 e in
      let new : has_id x.id seen ≡ false = rw same fresh in
      let hit : (d.id == x.id) ≡ true = (==_iff _ _).1 (sym same) in
      ground (arith, unvisited_mono t seen d, new, hit)
  | inr e ↦
      let deeper : Own t d = rw e at own in
      let miss : (d.id == x.id) ≡ false = ground arith in
      ground (arith, unvisited_step t seen d deeper fresh, miss)
]

unvisited_all : (depts : List Department) → unvisited depts [] ≤ length depts
unvisited_all [] = omega arith
unvisited_all (x ∷ t) = omega (arith, unvisited_all t)

names-parent : (k : ℕ) (o : Option ℕ) → names k o ≡ true → o ≡ some k
names-parent k none h = ground arith
names-parent k (some p) h = ap some ((==_iff p k).0 h)

no_parent : (o : Option ℕ) (p : ℕ) → is_none o ≡ true → o ≡ some p → ⊥
no_parent none p h q = cc
no_parent (some x) p h q = cc

module _ (depts : List Department) where
  -- A way down from a root, its last department first.
  abbrev Descent : List Department → Type 0
  Descent [] = Unit
  Descent (d ∷ above) =
      (has_id d.id above ≡ false)
      × Own depts d
      × ((p : ℕ) → parent_in depts d ≡ some p → has_id p above ≡ true)
      × Descent above

  -- A department whose parent is not on a path is not on it.
  off-Descent :
      (path : List Department) (k : ℕ) (x : Department)
      → Descent path
      → has_id k path ≡ false
      → Own depts x
      → parent_in depts x ≡ some k
      → has_id x.id path ≡ false
  off-Descent [] k x h off own up = refl
  off-Descent (v ∷ path) k x h off own up = elim (Bool-cases (v.id == x.id)) [
    | inl e ↦
        let at_v : row_at (λ (y : Department). y.id) x.id depts ≡ some v =
          subst (λ i. row_at (λ (y : Department). y.id) i depts ≡ some v) ((==_iff _ _).0 e) h.1 in
        let same : v ≡ x = some-injective v x (sym at_v ∙ own) in
        let seen : has_id k path ≡ true = h.2 k (rw same up) in
        absurd (let bad : ⊥ = ground arith in bad)
    | inr e ↦
        let off_tail : has_id k path ≡ false = ground arith in
        rw e (off-Descent path k x h.3 off_tail own up)
  ]

  -- A child of the last department of a path prolongs it.
  Descent-child :
      (v : Department) (path : List Department) (d : Department)
      → Descent (v ∷ path)
      → Own depts d
      → parent_in depts d ≡ some v.id
      → Descent (d ∷ v ∷ path)
  Descent-child v path d h own up = (
    elim (Bool-cases (v.id == d.id)) [
      | inl e ↦
          let at_v : row_at (λ (y : Department). y.id) d.id depts ≡ some v =
            subst (λ i. row_at (λ (y : Department). y.id) i depts ≡ some v) ((==_iff _ _).0 e)
              h.1 in
          let same : v ≡ d = some-injective v d (sym at_v ∙ own) in
          let seen : has_id v.id path ≡ true =
            h.2 v.id (subst (λ x. parent_in depts x ≡ some v.id) (sym same) up) in
          absurd (let bad : ⊥ = ground arith in bad)
      | inr e ↦ rw e (off-Descent path v.id d h.3 h.0 own up)
    ],
    own,
    (λ p q. let hit : v.id ≡ p = ground (arith, q, up) in ground (arith, (==_iff v.id p).1 hit)),
    h,
  )

  -- The list of nodes for the departments `ds`: one for each, in order, and the children of each
  -- are all the departments of the batch whose parent it is.
  unfoldable pub Assembled : List Department → DepartmentNodes → Type 0
  Assembled [] no_nodes = Unit
  Assembled [] (node e kids rest) = ⊥
  Assembled (d ∷ ds) no_nodes = ⊥
  Assembled (d ∷ ds) (node e kids rest) =
      (e ≡ d) × Assembled (children_of depts d.id) kids × Assembled ds rest

  abbrev Built : (List Department → Result DepartmentNodes) → List Department → Type 0
  Built rec ds = (f : DepartmentNodes) × (rec ds ≡ ok f) × Assembled ds f

  Built-build_kids :
      (rec : List Department → Result DepartmentNodes) (ks : List Department)
      → ((k : Department) (t : List Department) → ks ≡ k ∷ t → Built rec (k ∷ t))
      → Built (build_kids rec) ks
  unfolding Assembled
  Built-build_kids rec [] h = (no_nodes, refl, tt)
  Built-build_kids rec (k ∷ t) h = h k t refl

  Built-build_list :
      (rec : List Department → Result DepartmentNodes) (ds : List Department)
      → All (λ d. Built (build_kids rec) (children_of depts d.id)) ds
      → Built (build_list rec depts) ds
  unfolding build_list Assembled
  Built-build_list rec [] a = (no_nodes, refl, tt)
  Built-build_list rec (d ∷ ds) a =
      let (f, q, h) = a.0 in
      let (rest, r, i) = Built-build_list rec ds a.1 in
      (node d f rest, rw (q, r) refl, (refl, h, i))

  module _ (unique : Unique (λ (x : Department). x.id) depts) where
    All-children :
        (v : Department) (path : List Department)
        → Descent (v ∷ path)
        → All (λ d. Descent (d ∷ v ∷ path)) (children_of depts v.id)
    All-children v path h =
        All-map (λ d. Own depts d × (names v.id (parent_in depts d) ≡ true))
          (λ d. Descent (d ∷ v ∷ path)) (children_of depts v.id)
          (λ d q. Descent-child v path d h q.0 (names-parent v.id (parent_in depts d) q.1))
          (All-zip (Own depts) (λ d. names v.id (parent_in depts d) ≡ true) (children_of depts v.id)
            (All-filter (Own depts) (λ d. names v.id (parent_in depts d)) depts
              (All-Own depts unique))
            (filter-holds (λ d. names v.id (parent_in depts d)) depts))

    Built-build :
        (n : ℕ) (path ds : List Department)
        → All (λ d. Descent (d ∷ path)) ds
        → suc (unvisited depts path) ≤ n
        → Built (build n depts) ds
    unfolding build
    Built-build zero path ds a fuel = absurd (let bad : ⊥ = omega (arith, fuel) in bad)
    Built-build (suc n) path ds a fuel = Built-build_list (build n depts) ds (
        All-map (λ d. Descent (d ∷ path))
          (λ d. Built (build_kids (build n depts)) (children_of depts d.id)) ds
          (λ d h. Built-build_kids (build n depts) (children_of depts d.id) (λ k t q.
            subst (Built (build n depts)) q (
              Built-build n (d ∷ path) (children_of depts d.id) (All-children d path h)
                (omega (arith, fuel, unvisited_step depts path d h.1 h.0)))))
          a)

    pub Built-roots : Built (build (suc (length depts)) depts) (roots depts)
    Built-roots =
        Built-build (suc (length depts)) [] (roots depts)
          (All-map (λ d. Own depts d × (is_none (parent_in depts d) ≡ true)) (λ d. Descent (d ∷ []))
            (roots depts)
            (λ d q. (refl, q.0, (λ p e. absurd (no_parent (parent_in depts d) p q.1 e)), tt))
            (All-zip (Own depts) (λ d. is_none (parent_in depts d) ≡ true) (roots depts)
              (All-filter (Own depts) (λ d. is_none (parent_in depts d)) depts
                (All-Own depts unique))
              (filter-holds (λ d. is_none (parent_in depts d)) depts)))
          (omega (arith, unvisited_all depts))
