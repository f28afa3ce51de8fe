-- ===== src/App/Runtime/Steps.antt =====
-- The machine that backend/internal/runtime/manager.go moves an application's row through: its
-- status and its container.
use suzuran.Prelude.{
  ◌≡◌, ◌≢◌, ◌⊎◌, inl, inr, refl, sym, ◌∙◌, Bool, true, false, Option, none, some, String, List, [],
  ◌∷◌, find?, str_eq, str_eq_iff, Bool-cases, arith,
}
use suzuran.Gorm.{update_where}
use suzuran.App.Model.{Application}
use suzuran.App.Store.{has_app_id, with_status}

-- the status and the container of an application
abbrev pub Phase : Type 0
Phase = String × String

abbrev pub phase_of : Option Application → Option Phase
phase_of none = none
phase_of (some a) = some (a.status, a.container_id)

abbrev pub phase : String → List Application → Option Phase
phase k t = phase_of (find? (has_app_id k) t)

pub data Call : Type 0 where
  deploy : String → Application → Call
  start stop restart delete : String → Call

abbrev pub subject : Call → String
subject (deploy key app) = app.id
subject (start id) = id
subject (stop id) = id
subject (restart id) = id
subject (delete id) = id

-- The steps that a call may make: nothing, or its own change of the phase.
pub data Step : Call → Phase → Phase → Type 0 where
  stays : (c : Call) (p : Phase) → Step c p p
  deploys :
      (key : String) (app : Application) (p : Phase) (id : String)
      → id ≢ ""
      → Step (deploy key app) p ("running", id)
  starts : (k s id : String) → id ≢ "" → Step (start k) (s, id) ("running", id)
  stops : (k s id : String) → id ≢ "" → Step (stop k) (s, id) ("stopped", id)
  restarts : (k s id : String) → id ≢ "" → Step (restart k) (s, id) ("running", id)
  deletes : (k : String) (p : Phase) → Step (delete k) p ("deleted", "")

-- A row's phase makes a step of the call, and only the row of the call's application may move.
abbrev pub Moves : Call → String → Option Phase → Option Phase → Type 0
Moves c k none q = q ≡ none
Moves c k (some p) q = (p' : Phase) × (q ≡ some p') × Step c p p' × (k ≢ subject c → p' ≡ p)

abbrev moved : Bool → Phase → Option Phase → Option Phase
moved true p (some q) = some p
moved true p none = none
moved false p o = o

str_eq_other : (a k id : String) → str_eq a id ≡ false → str_eq a k ≡ true → str_eq id k ≡ false
str_eq_other a k id e d = elim (Bool-cases (str_eq id k)) [
  | inr f ↦ f
  | inl f ↦
      let same : a ≡ id = (str_eq_iff a k).0 d ∙ sym ((str_eq_iff id k).0 f) in
      let bad : ⊥ = ground (arith, (str_eq_iff a id).1 same, e) in absurd bad
]

phase-update_where :
    (k id status container : String) (t : List Application)
    → phase k (update_where (has_app_id id) (with_status status container) t)
      ≡ moved (str_eq id k) (status, container) (phase k t)
phase-update_where k id status container [] = ground arith
phase-update_where k id status container (a ∷ t) = elim (Bool-cases (str_eq a.id id)) [
  | inl e ↦ elim (Bool-cases (str_eq a.id k)) [
    | inl d ↦ rw (e, d, (rw ((str_eq_iff a.id id).0 e) at d)) refl
    | inr d ↦ rw (e, d) (phase-update_where k id status container t)
  ]
  | inr e ↦ elim (Bool-cases (str_eq a.id k)) [
    | inl d ↦ rw (e, d, str_eq_other a.id k id e d) refl
    | inr d ↦ rw (e, d) (phase-update_where k id status container t)
  ]
]

-- A call leaves the rows, or sets the status and the container of its application's row to what a
-- step leads to.
abbrev pub Sets : Call → List Application → List Application → Type 0
Sets c t t' =
    (t' ≡ t)
    ⊎ ((status : String) × (container : String) × (t'
          ≡ update_where (has_app_id (subject c)) (with_status status container) t)
        × ((p : Phase) → phase (subject c) t ≡ some p → Step c p (status, container)))

Moves-self : (c : Call) (k : String) (o : Option Phase) → Moves c k o o
Moves-self c k none = refl
Moves-self c k (some p) = (p, refl, stays c p, λ ne. refl)

pub Moves-Sets :
    (c : Call) (t t' : List Application) (k : String)
    → Sets c t t'
    → Moves c k (phase k t) (phase k t')
Moves-Sets c t t' k (inl e) = rw e (Moves-self c k (phase k t))
Moves-Sets c t t' k (inr (status, container, e, step)) =
    rw (e, phase-update_where k (subject c) status container t)
      (elim (Bool-cases (str_eq (subject c) k)) [
        | inr d ↦ rw d (Moves-self c k (phase k t))
        | inl d ↦ rw d (
            go (phase k t) ((str_eq_iff (subject c) k).0 d)
              (λ p q. step p (rw ((str_eq_iff (subject c) k).0 d) q)))
      ])
  where
    go :
        (o : Option Phase)
        → subject c ≡ k
        → ((p : Phase) → o ≡ some p → Step c p (status, container))
        → Moves c k o (moved true (status, container) o)
    go none same step = refl
    go (some p) same step = ((status, container), refl, step p refl, λ ne. absurd (ne (sym same)))
