-- ===== src/Workflow/History.antt =====
-- Any sequence of calls of the workflow service (backend/internal/service/workflow_service.go), by
-- any users of any organisations; a call that fails leaves what it had written.

use suzuran.Prelude.{ℕ, ◌≡◌, ◌≢◌, ◌⊎◌, inl, inr, refl, String, Bool, Option, List, [], ◌∷◌, All}
use suzuran.Prelude.Int.{pos}
use suzuran.Gorm.{IsGorm}
use suzuran.Gorm.Rows.{Holds}
use suzuran.Workflow.Model.{Variables, WorkflowTask}
use suzuran.Workflow.Store.{Env, Store, Instance}
use suzuran.Workflow.Service.{
  Decision, define_workflow, archive_definition, start_instance, cancel_instance, act_on_task,
}
use suzuran.Workflow.Service.Settled.{
  define_workflow-Ensures, archive_definition-Ensures, start_instance-Ensures,
  cancel_instance-Ensures, act_on_task-Ensures,
}
use suzuran.Workflow.Service.Acted.{
  define_workflow-keeps_task, archive_definition-keeps_task, start_instance-keeps_task,
  cancel_instance-keeps_task, act_on_task-keeps_task,
}

-- The calls that write, with their organisation first. `act` is ApproveTask or RejectTask.
pub data Call (e : Env) : Type 0 where
  define : ℕ → ℕ → String → String → Option e.Json → Call e
  archive : ℕ → ℕ → Call e
  start : ℕ → ℕ → ℕ → ℕ → ℕ → Variables e.float.Carrier → Call e
  cancel : ℕ → ℕ → ℕ → ℕ → Bool → Call e
  act : ℕ → ℕ → ℕ → ℕ → ℕ → String → Decision → Call e

module _ (e : Env) where
  unfoldable pub perform : Call e → Store e → Store e
  perform (define org user name description json) s =
      (define_workflow e org user name description json s).1
  perform (archive org id) s = (archive_definition e org id s).1
  perform (start org fuel now def_id user vars) s =
      (start_instance e fuel now org def_id user vars s).1
  perform (cancel org now id user is_admin) s = (cancel_instance e now org id user is_admin s).1
  perform (act org fuel now task_id user comment decision) s =
      (act_on_task e fuel now org task_id user comment decision s).1

  abbrev pub replay : List (Call e) → Store e → Store e
  replay [] s = s
  replay (c ∷ calls) s = replay calls (perform c s)

  abbrev pub org_of : Call e → ℕ
  org_of (define org user name description json) = org
  org_of (archive org id) = org
  org_of (start org fuel now def_id user vars) = org
  org_of (cancel org now id user is_admin) = org
  org_of (act org fuel now task_id user comment decision) = org

  -- The call is the act of the user upon a task of the organisation.
  abbrev pub ActsAs : Call e → ℕ → ℕ → Type 0
  ActsAs (act org fuel now task_id user comment decision) o u = (org ≡ o) × (user ≡ u)
  ActsAs _ o u = ⊥

  -- The instances have distinct keys, and the one with the key `k` is `x`.
  abbrev pub HasInstance : ℕ → Instance e → Store e → Type 0
  HasInstance k x s = Holds (λ j. j.id) k x s.instances

  -- The tasks have distinct keys, and the one with the key `k` is `x`.
  abbrev pub HasTask : ℕ → WorkflowTask → Store e → Type 0
  HasTask k x s = Holds (λ t. t.id) k x s.tasks

  module _ (law : IsGorm e.gorm) where
    perform-instance :
        (k : ℕ) (x : Instance e) (c : Call e) (s : Store e)
        → (x.org_id ≢ org_of c) ⊎ (x.status ≢ "running")
        → HasInstance k x s
        → HasInstance k x (perform c s)
    unfolding perform
    perform-instance k x (define org user name description json) s d =
        (define_workflow-Ensures e law k x org user name description json).keeps s
    perform-instance k x (archive org id) s d =
        (archive_definition-Ensures e law k x org id).keeps s
    perform-instance k x (start org fuel now def_id user vars) s d =
        (start_instance-Ensures e law k x fuel now org def_id user vars).keeps s
    perform-instance k x (cancel org now id user is_admin) s d =
        (cancel_instance-Ensures e law k x org d now id user is_admin).keeps s
    perform-instance k x (act org fuel now task_id user comment decision) s d =
        (act_on_task-Ensures e law k x org d fuel now task_id user comment decision).keeps s

    -- An instance that is no longer running stays as it is, whatever calls anybody makes, provided
    -- that the instances had distinct keys at the start.
    pub replay-settled :
        (k : ℕ) (x : Instance e) (calls : List (Call e)) (s : Store e)
        → x.status ≢ "running"
        → HasInstance k x s
        → HasInstance k x (replay calls s)
    replay-settled k x [] s over h = h
    replay-settled k x (c ∷ calls) s over h =
        replay-settled k x calls (perform c s) over (perform-instance k x c s (inr over) h)

    -- The calls of other organisations leave an instance as it is, whatever its status, provided
    -- that the instances had distinct keys at the start.
    pub replay-isolated :
        (k : ℕ) (x : Instance e) (calls : List (Call e)) (s : Store e)
        → All (λ c. x.org_id ≢ org_of c) calls
        → HasInstance k x s
        → HasInstance k x (replay calls s)
    replay-isolated k x [] s others h = h
    replay-isolated k x (c ∷ calls) s others h =
        replay-isolated k x calls (perform c s) others.1 (perform-instance k x c s (inl others.0) h)

    perform-task :
        (k : ℕ) (x : WorkflowTask) (c : Call e) (s : Store e)
        → (x.status ≢ "pending")
          ⊎ ((o u : ℕ) → ActsAs c o u → (x.org_id ≢ o) ⊎ (x.assignee_id ≢ pos u))
        → HasTask k x s
        → HasTask k x (perform c s)
    unfolding perform
    perform-task k x (define org user name description json) s d =
        (define_workflow-keeps_task e law k x org user name description json).keeps s
    perform-task k x (archive org id) s d = (archive_definition-keeps_task e law k x org id).keeps s
    perform-task k x (start org fuel now def_id user vars) s d =
        (start_instance-keeps_task e law k x fuel now org def_id user vars).keeps s
    perform-task k x (cancel org now id user is_admin) s d =
        (cancel_instance-keeps_task e law k x now org id user is_admin).keeps s
    perform-task k x (act org fuel now task_id user comment decision) s d =
        (act_on_task-keeps_task e law k x org user (closed d) fuel now task_id comment
            decision).keeps
          s
      where
        closed :
            (x.status ≢ "pending")
              ⊎ ((o u : ℕ) → (org ≡ o) × (user ≡ u) → (x.org_id ≢ o) ⊎ (x.assignee_id ≢ pos u))
            → (x.org_id ≢ org) ⊎ (x.status ≢ "pending") ⊎ (x.assignee_id ≢ pos user)
        closed (inl over) = inr (inl over)
        closed (inr other) = elim (other org user (refl, refl)) [
          | inl a ↦ inl a
          | inr b ↦ inr (inr b)
        ]

    -- A task that was approved or rejected stays as it is, whatever calls anybody makes, provided
    -- that the tasks had distinct keys at the start: nobody acts on a task twice.
    pub replay-acted_once :
        (k : ℕ) (x : WorkflowTask) (calls : List (Call e)) (s : Store e)
        → x.status ≢ "pending"
        → HasTask k x s
        → HasTask k x (replay calls s)
    replay-acted_once k x [] s over h = h
    replay-acted_once k x (c ∷ calls) s over h =
        replay-acted_once k x calls (perform c s) over (perform-task k x c s (inl over) h)

    -- A task stays as it is through calls among which its assignee does not act in its
    -- organisation, provided that the tasks had distinct keys at the start.
    pub replay-only_assignee :
        (k : ℕ) (x : WorkflowTask) (calls : List (Call e)) (s : Store e)
        → All (λ c. (o u : ℕ) → ActsAs c o u → (x.org_id ≢ o) ⊎ (x.assignee_id ≢ pos u)) calls
        → HasTask k x s
        → HasTask k x (replay calls s)
    replay-only_assignee k x [] s others h = h
    replay-only_assignee k x (c ∷ calls) s others h =
        replay-only_assignee k x calls (perform c s) others.1
          (perform-task k x c s (inr others.0) h)
