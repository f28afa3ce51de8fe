-- ===== src/Org/Departments/Build.antt =====
-- The tree of departments: BuildTree of backend/internal/service/department_service.go after its
-- query, and the order of that query.
use suzuran.Prelude.{
  ℕ, zero, suc, Bool, true, false, not, ◌&&◌, ◌||◌, Option, none, some, List, [], ◌∷◌, filter, ltb,
  ◌==◌, if◌then◌else◌,
}
use suzuran.Prelude.Error.{unfinished}
use suzuran.Prelude.Result.{Result, ok, err, ◌>>=◌}
use suzuran.Org.Model.{Department}

-- A list of nodes: the department of the first one, its children, and the nodes after it.
pub data DepartmentNodes : Type 0 where
  no_nodes : DepartmentNodes
  node : Department → DepartmentNodes → DepartmentNodes → DepartmentNodes

-- ORDER BY level ASC, id ASC
abbrev pub comes_first : Department → Department → Bool
comes_first a b = ltb a.level b.level || (a.level == b.level && ltb a.id b.id)

abbrev pub put_in_order : Department → List Department → List Department
put_in_order d [] = d ∷ []
put_in_order d (x ∷ t) =
    let rest = put_in_order d t in if comes_first d x then d ∷ x ∷ t else x ∷ rest

abbrev pub in_order : List Department → List Department
in_order [] = []
in_order (d ∷ t) = put_in_order d (in_order t)

-- the map `exists`
abbrev pub has_id : ℕ → List Department → Bool
has_id k [] = false
has_id k (d ∷ t) = d.id == k || has_id k t

-- The parent in this batch that a department is grouped under; a root has none.
abbrev pub parent_in : List Department → Department → Option ℕ
parent_in depts d = elim d.parent_id [
  | none ↦ none
  | some p ↦ if not (p == 0) && has_id p depts then some p else none
]

abbrev pub names : ℕ → Option ℕ → Bool
names k none = false
names k (some p) = p == k

-- `childrenOf[id]`
abbrev pub children_of : List Department → ℕ → List Department
children_of depts k = filter (λ d. names k (parent_in depts d)) depts

abbrev pub is_none : Option ℕ → Bool
is_none none = true
is_none (some p) = false

abbrev pub roots : List Department → List Department
roots depts = filter (λ d. is_none (parent_in depts d)) depts

-- `if kids := childrenOf[d.ID]; len(kids) > 0`
abbrev pub build_kids :
    (List Department → Result DepartmentNodes) → List Department → Result DepartmentNodes
build_kids rec [] = ok no_nodes
build_kids rec (k ∷ kids) = rec (k ∷ kids)

-- the loop of `build`, with its recursive call
unfoldable pub build_list :
    (List Department → Result DepartmentNodes)
    → List Department
    → List Department
    → Result DepartmentNodes
build_list rec depts [] = ok no_nodes
build_list rec depts (d ∷ ds) = do
  kids ← build_kids rec (children_of depts d.id)
  rest ← build_list rec depts ds
  ok (node d kids rest)

-- `build`, with fuel for its depth
unfoldable pub build : ℕ → List Department → List Department → Result DepartmentNodes
build zero depts ds = err unfinished
build (suc n) depts ds = build_list (build n depts) depts ds
