-- ===== src/Workflow/Service/Guards.antt =====
-- Who may act on a task, and what a successful act leaves in the table of tasks.
use suzuran.Prelude.{
  ℕ, ◌≡◌, inl, inr, String, none, some, str_eq, str_eq_iff, Bool-cases, arith, ◌==◌, ◌&&◌,
  if◌then◌else◌,
}
use suzuran.Prelude.Int.{pos, int_eq}
use mathlib.Core.Path.{subst}
use suzuran.Prelude.Error.{Error, task_not_found, already_acted, not_assigned, instance_not_found}
use suzuran.Prelude.Result.{ok, err, Result-cases}
use suzuran.Prelude.Exec.{Exec, Ensures, Anything, pure, require, ◌>>=◌}
use suzuran.Prelude.Exec.Rules.{Ensures-pure, Ensures-require, Ensures-if, Ensures-bind}
use suzuran.Gorm.{IsGorm, upsert}
use suzuran.Gorm.Rows.{Holds, Holds-first, Holds-upsert}
use suzuran.Workflow.Model.{WorkflowTask}
use suzuran.Workflow.Store.{Env, Store, Instance, get_task, get_instance, save_task}
use suzuran.Workflow.Service.{Decision, decision_text, route, act_on_task}
use suzuran.Workflow.Service.Acted.{HoldsTask, gets_instance, routes, int_eq-eq}

-- The task is one that the user may act on.
abbrev pub MayAct : ℕ → ℕ → WorkflowTask → Type 0
MayAct o u x = (x.org_id ≡ o) × (x.status ≡ "pending") × (x.assignee_id ≡ pos u)

module _ (e : Env) (law : IsGorm e.gorm) (fuel now org user : ℕ) (comment : String)
    (decision : Decision) where
  -- A call upon a task that is not pending, not the caller's or of another organisation fails and
  -- changes nothing.
  pub act_on_task_refused :
      (x : WorkflowTask) (s : Store e)
      → Holds (λ t. t.id) x.id x s.tasks
      → ¬ MayAct org user x
      → (y : Error) × (act_on_task e fuel now org x.id user comment decision s ≡ (err y, s))
  unfolding act_on_task get_task ◌>>=◌
  act_on_task_refused x s held closed =
      elim (Result-cases (e.gorm.first (λ t. t.org_id == org && t.id == x.id) s.tasks)) [
        | inl (none, q) ↦ (task_not_found, rw q)
        | inl (some t, q) ↦
            let (test, same) =
              Holds-first e.gorm law (λ t. t.id) x.id x s.tasks
                (λ t. t.org_id == org && t.id == x.id) t q held in
            let it : t ≡ x = same (ground (arith, test)) in
            elim (Bool-cases (str_eq t.status "pending")) [
              | inr over ↦ (already_acted, rw (q, over))
              | inl pending ↦ elim (Bool-cases (int_eq t.assignee_id (pos user))) [
                | inr other ↦ (not_assigned, rw (q, pending, other))
                | inl mine ↦ absurd (
                    closed (
                      subst (MayAct org user) it (
                        ground (arith, test),
                        (str_eq_iff t.status "pending").0 pending,
                        int_eq-eq t.assignee_id (pos user) mine,
                      )))
              ]
            ]
        | inr (y, q) ↦ (y, rw q)
      ]

  -- The part of `actOnTask` after the task was written.
  abbrev resolve : WorkflowTask → Exec (Store e) (Instance e)
  resolve t = do
    holder ← get_instance e org t.instance_id
    inst ← require instance_not_found holder
    if str_eq inst.status "running" then route e fuel now org t decision inst else pure inst

  resolve-keeps : (k : ℕ) (x t : WorkflowTask) → Ensures (HoldsTask e law k x) Anything (resolve t)
  resolve-keeps k x t = Ensures-bind (gets_instance e law k x org t.instance_id) λ holder _.
      Ensures-bind (Ensures-require _ holder) λ j _.
        Ensures-if (str_eq j.status "running") _ _ (λ _. routes e law k x fuel now org t decision j)
          (λ _. Ensures-pure j tt)

  -- The task with the decision written into it.
  abbrev pub decided : WorkflowTask → WorkflowTask
  decided t = record t { status = decision_text decision; comment = comment; acted_at = some now }

  -- An act that succeeds was the assignee's own, upon a pending task of the organisation; the table
  -- of tasks then holds that task with the decision, the comment and the time.
  pub act_on_task_records :
      (x : WorkflowTask) (s : Store e) (i : Instance e)
      → Holds (λ t. t.id) x.id x s.tasks
      → (act_on_task e fuel now org x.id user comment decision s).0 ≡ ok i
      → MayAct org user x
        × Holds
            (λ t. t.id)
            x.id
            (decided x)
            (act_on_task e fuel now org x.id user comment decision s).1.tasks
  unfolding act_on_task get_task save_task ◌>>=◌
  act_on_task_records x s i held done =
      elim (Result-cases (e.gorm.first (λ t. t.org_id == org && t.id == x.id) s.tasks)) [
        | inl (none, q) ↦ absurd (let bad : ⊥ = ground arith in bad)
        | inl (some t, q) ↦
            let (test, same) =
              Holds-first e.gorm law (λ t. t.id) x.id x s.tasks
                (λ t. t.org_id == org && t.id == x.id) t q held in
            let ids : t.id ≡ x.id = ground (arith, test) in
            let acted : WorkflowTask = decided t in
            let put : Holds (λ t. t.id) x.id acted (upsert (λ t. t.id) acted s.tasks) =
              subst (λ n. Holds (λ t. t.id) n acted (upsert (λ t. t.id) acted s.tasks)) ids
                (Holds-upsert (λ t. t.id) acted s.tasks held.unique) in
            elim (Bool-cases (str_eq t.status "pending")) [
              | inr over ↦ absurd (let bad : ⊥ = ground arith in bad)
              | inl pending ↦ elim (Bool-cases (int_eq t.assignee_id (pos user))) [
                | inr other ↦ absurd (let bad : ⊥ = ground arith in bad)
                | inl mine ↦ elim (law.save_law (λ t. t.id) acted s.tasks) [
                  | inl w ↦ absurd (let bad : ⊥ = ground arith in bad)
                  | inr w ↦ (
                    subst (MayAct org user) (same ids) (
                      ground (arith, test),
                      (str_eq_iff t.status "pending").0 pending,
                      int_eq-eq t.assignee_id (pos user) mine,
                    ),
                    subst
                        (λ u.
                          Holds (λ t. t.id) x.id (decided u)
                            (act_on_task e fuel now org x.id user comment decision s).1.tasks)
                        (same ids)
                        (rw (q, pending, mine, w) ((resolve-keeps x.id acted t).keeps _ put)),
                  )
                ]
              ]
            ]
        | inr (y, q) ↦ absurd (let bad : ⊥ = ground arith in bad)
      ]
