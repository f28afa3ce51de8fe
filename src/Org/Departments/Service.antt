-- ===== src/Org/Departments/Service.antt =====
-- backend/internal/service/department_service.go, over
-- backend/internal/repository/department_repository.go. The store is the table of departments.
use suzuran.Prelude.{ℕ, suc, ◌&&◌, Option, none, some, List, length, ◌==◌, if◌then◌else◌}
use suzuran.Prelude.Result.{Result, ok, err}
use suzuran.Prelude.Exec.{Exec, lift, ◌>>=◌}
use suzuran.Gorm.{Gorm}
use suzuran.Org.Model.{Department}
use suzuran.Org.Departments.Build.{DepartmentNodes, in_order, names, roots, build}

module _ (g : Gorm) where
  -- DepartmentRepository, and the calls of the service that only pass on to it

  unfoldable pub create_dept : (ℕ → Department) → Exec (List Department) Department
  create_dept mk t = g.create (λ d. d.id) mk t

  unfoldable pub get_dept_by_id : ℕ → Exec (List Department) (Option Department)
  get_dept_by_id id t = (g.first (λ d. d.id == id) t, t)

  abbrev sorted : Result (List Department) → Result (List Department)
  sorted (ok t) = ok (in_order t)
  sorted (err x) = err x

  unfoldable pub get_depts_by_org_id : ℕ → Exec (List Department) (List Department)
  get_depts_by_org_id org t = (sorted (g.find (λ d. d.org_id == org) t), t)

  unfoldable pub get_by_ding_talk_dept_id : ℕ → ℕ → Exec (List Department) (Option Department)
  get_by_ding_talk_dept_id org dept t =
      (g.first (λ d. d.org_id == org && names dept d.dingtalk_dept_id) t, t)

  unfoldable pub update_dept : Department → Exec (List Department) (Unit {0})
  update_dept d t = g.save (λ (x : Department). x.id) d t

  unfoldable pub delete_dept : ℕ → Exec (List Department) (Unit {0})
  delete_dept id t = g.delete (λ d. d.id == id) t

  -- 0 clears the manager.
  abbrev pub manager_column : ℕ → Option ℕ
  manager_column user = if user == 0 then none else some user

  unfoldable pub set_manager : ℕ → ℕ → Exec (List Department) (Unit {0})
  set_manager dept user t =
      g.update (λ d. d.id == dept) (λ d. record d { manager_user_id = manager_column user }) t

  unfoldable pub build_tree : ℕ → Exec (List Department) DepartmentNodes
  build_tree org = do
    depts ← get_depts_by_org_id org
    lift (build (suc (length depts)) depts (roots depts))
