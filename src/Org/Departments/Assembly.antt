-- ===== src/Org/Departments/Assembly.antt =====
-- What BuildTree and SetManager of backend/internal/service/department_service.go do to the table.
use suzuran.Prelude.{ℕ, ◌≡◌, ◌⊎◌, inl, inr, refl, List, filter, ◌==◌}
use suzuran.Prelude.Error.{Error}
use suzuran.Prelude.Result.{ok, err}
use suzuran.Prelude.Exec.{◌>>=◌}
use suzuran.Gorm.{Gorm, IsGorm}
use suzuran.Gorm.Rows.{Unique}
use suzuran.Org.Model.{Department}
use suzuran.Org.Departments.Build.{DepartmentNodes, in_order, roots}
use suzuran.Org.Departments.Service.{get_depts_by_org_id, build_tree}
use suzuran.Org.Departments.Order.{Unique-in_order, Unique-filter}
use suzuran.Org.Departments.Batch.{IsBatch, in_order-IsBatch}
use suzuran.Org.Departments.Trees.{Assembled, Built-roots}

-- the departments of an organisation, in the order that BuildTree reads them in
abbrev pub batch : ℕ → List Department → List Department
batch org t = in_order (filter (λ d. d.org_id == org) t)

module _ (g : Gorm) (law : IsGorm g) where
  -- BuildTree ends for every table whose keys are unique, also one whose parents form a cycle: it
  -- reports the database's error, or returns one node for each root of the organisation, in order of
  -- level and key, where the children of every node are exactly the departments of the organisation
  -- whose parent it is, in that order. A root is a department whose parent is none, 0, or no
  -- department of the organisation. It never writes.
  pub build_tree_assembles :
      (org : ℕ) (t : List Department)
      → Unique (λ (d : Department). d.id) t
      → (build_tree g org t ≡ (err Error.db, t))
        ⊎ ((f : DepartmentNodes) × (build_tree g org t ≡ (ok f, t))
            × Assembled (batch org t) (roots (batch org t)) f
            × IsBatch (filter (λ d. d.org_id == org) t) (batch org t))
  unfolding build_tree get_depts_by_org_id ◌>>=◌
  build_tree_assembles org t u = elim (law.find_law (λ d. d.org_id == org) t) [
    | inl e ↦ inl (rw e refl)
    | inr e ↦
        let all : List Department = batch org t in
        let (f, q, h) =
          Built-roots all (Unique-in_order _ (Unique-filter (λ d. d.org_id == org) t u)) in
        inr (f, rw e (rw q refl), h, in_order-IsBatch _)
  ]
