-- ===== src/Workflow/Service/Stuck.antt =====
-- Definitions that the engine accepts and that cannot run.
use suzuran.Prelude.{
  ℕ, zero, suc, ◌≡◌, ◌≢◌, ◌⊎◌, inl, inr, refl, ap, ◌∙◌, none, some, List, [], ◌∷◌, ◌==◌, ◌&&◌,
  arith,
}
use suzuran.Prelude.Int.{ℤ}
use suzuran.Prelude.Error.{unfinished, db}
use suzuran.Prelude.Result.{ok, err, Result-cases}
use suzuran.Prelude.Exec.{◌>>=◌}
use suzuran.Gorm.{IsGorm, upsert}
use suzuran.Gorm.Rows.{Holds, Holds-first}
use suzuran.Org.Model.{OrgUserBond}
use suzuran.Prelude.Text.{Text}
use suzuran.Workflow.Model.{WorkflowDef, WorkflowStep, condition, Variables}
use suzuran.Workflow.Validate.{kind_of, find_step, decode_definition}
use suzuran.Workflow.Store.{
  Env, Store, Definition, Instance, get_definition, save_instance, get_bonds,
}
use suzuran.Workflow.Service.{
  role_users, evaluate_conditions, resolve_role_assignees, visit, advance, start_instance,
}

module _ (e : Env) (law : IsGorm e.gorm) where
  -- A condition step that leads to itself: however long the run, it ends only if the database
  -- refuses a statement.
  pub advance_loops :
      (fuel now : ℕ) (wf : WorkflowDef) (step : WorkflowStep) (i : Instance e) (s : Store e)
      → find_step wf step.name ≡ some step
      → kind_of step ≡ condition
      → evaluate_conditions e step.conditions i.variables ≡ ok step.name
      → ((advance e fuel now wf step.name i s).0 ≡ err unfinished)
        ⊎ ((advance e fuel now wf step.name i s).0 ≡ err db)
  unfolding advance visit save_instance ◌>>=◌
  advance_loops zero now wf step i s found kind self = inl refl
  advance_loops (suc fuel) now wf step i s found kind self =
      let j : Instance e = record i { current_step = step.name } in
      rw (found, kind)
        (elim (law.save_law (λ (j : Instance e). j.id) j s.instances) [
          | inl q ↦ inr (rw q)
          | inr q ↦
              rw (q, self)
                (advance_loops fuel now wf step j
                  (record s { instances = upsert (λ j. j.id) j s.instances }) found kind self)
        ])

  role_users-nil : (role : Text) (bonds : List OrgUserBond) → role_users role bonds ≡ []
  role_users-nil role [] = refl
  role_users-nil role (b ∷ bonds) = role_users-nil role bonds

  -- The assignees of a role are never found, whoever the members of the organisation are.
  pub resolve_role_assignees-ne-ok :
      (org : ℕ) (role : Text) (s : Store e) (users : List ℤ)
      → (resolve_role_assignees e org role s).0 ≢ ok users
  unfolding resolve_role_assignees get_bonds ◌>>=◌
  resolve_role_assignees-ne-ok org role s users h =
      elim (Result-cases (e.gorm.find (λ b. b.org_id == org) s.bonds)) [
        | inl (bonds, q) ↦ ground (arith, role_users-nil role bonds)
        | inr (x, q) ↦ ground arith
      ]

  -- A definition without a step that is named "start" is never started, whether or not one of its
  -- steps has the type "start": the code looks the start step up by its name.
  pub start_instance-ne-ok :
      (fuel now org user : ℕ) (vars : Variables e.float.Carrier) (s : Store e) (d : Definition e)
      (j : e.Json) (wf : WorkflowDef)
      → Holds (λ d. d.id) d.id d s.definitions
      → d.definition ≡ some j
      → e.unmarshal j ≡ some wf
      → find_step wf "start" ≡ none
      → (i : Instance e) → (start_instance e fuel now org d.id user vars s).0 ≢ ok i
  unfolding start_instance get_definition decode_definition ◌>>=◌
  start_instance-ne-ok fuel now org user vars s d j wf held raw decoded missing i h =
      elim (Result-cases (e.gorm.first (λ x. x.org_id == org && x.id == d.id) s.definitions)) [
        | inl (none, q) ↦ ground arith
        | inl (some r, q) ↦
            let (test, same) =
              Holds-first e.gorm law (λ x. x.id) d.id d s.definitions
                (λ x. x.org_id == org && x.id == d.id) r q held in
            let it : r ≡ d = same (ground (arith, test)) in
            let js : r.definition ≡ some j = ap (λ (x : Definition e). x.definition) it ∙ raw in
            ground (arith, js, decoded, missing)
        | inr (x, q) ↦ ground arith
      ]
