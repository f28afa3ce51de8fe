-- ===== src/Org/Departments/Examples.antt =====
-- An organisation with a root, its child and two departments that are each other's parent, and the
-- theorems of the tree at it.
use suzuran.Prelude.{filter, ◌==◌, ℕ, ◌≡◌, ◌⊎◌, refl, Option, none, some, List, [], ◌∷◌, arith}
use suzuran.Prelude.Error.{Error}
use suzuran.Prelude.Result.{ok, err}
use suzuran.Prelude.Exec.{◌>>=◌}
use suzuran.Gorm.Memory.{memory, memory-IsGorm}
use suzuran.Org.Model.{Department}
use suzuran.Org.Departments.Build.{DepartmentNodes, no_nodes, node, roots, build, build_list}
use suzuran.Org.Departments.Service.{get_depts_by_org_id, build_tree}
use suzuran.Org.Departments.Trees.{Assembled}
use suzuran.Org.Departments.Batch.{IsBatch}
use suzuran.Org.Departments.Assembly.{batch, build_tree_assembles}

abbrev dept : ℕ → ℕ → Option ℕ → Department
dept id level parent = record {
  id = id;
  org_id = 1;
  name = "";
  parent_id = parent;
  level = level;
  manager_user_id = none;
  description = "";
  dingtalk_dept_id = none;
  sort_order = 0;
}

abbrev cyclic : List Department
cyclic = dept 2 2 (some 1) ∷ dept 1 1 (some 0) ∷ dept 3 1 (some 4) ∷ dept 4 2 (some 3) ∷ []

build_tree_assembles_example :
    (build_tree memory 1 cyclic ≡ (err Error.db, cyclic))
    ⊎ ((f : DepartmentNodes) × (build_tree memory 1 cyclic ≡ (ok f, cyclic))
        × Assembled (batch 1 cyclic) (roots (batch 1 cyclic)) f
        × IsBatch (filter (λ (d : Department). d.org_id == 1) cyclic) (batch 1 cyclic))
build_tree_assembles_example = build_tree_assembles memory memory-IsGorm 1 cyclic (ground arith)

-- The two departments of the cycle are in no node.
cycle_vanishes :
    build_tree memory 1 cyclic
    ≡ (ok (node (dept 1 1 (some 0)) (node (dept 2 2 (some 1)) no_nodes no_nodes) no_nodes), cyclic)
unfolding build_tree get_depts_by_org_id build build_list ◌>>=◌
cycle_vanishes = refl
