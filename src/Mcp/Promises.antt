-- ===== src/Mcp/Promises.antt =====
-- What a tool may promise, and the rules that show it for the readers of arguments and the wrappers
-- of backend/internal/mcp/helpers.go.
use suzuran.Prelude.{
  ◌≡◌, ◌⊎◌, inl, inr, refl, false, none, some, String, List, [], ◌∷◌, All, Option-cases,
}
use suzuran.Prelude.Error.{Error, missing_argument, wrong_argument, no_app_id}
use suzuran.Prelude.Result.{Result, ok, err}
use suzuran.Prelude.Exec.{Exec, lift, ◌>>=◌}
use suzuran.Prelude.Exec.Reads.{
  Reads, Reads-pure, Reads-lift, Reads-bind, Stops, Stops-first, Stops-later,
}
use suzuran.Mcp.Access.{member}
use suzuran.Mcp.Request.{
  Numbers, Json, Args, Caller, Request, Tool, find_member, get_int_arg, get_string_arg, get_object,
  get_array, get_app_id, returning, answering,
}

-- the parts of a promise about each tool of a list
infixr 3 ◌also◌
abbrev pub ◌also◌ : {A B : Type 0} → A → B → A × B
◌also◌ a b = (a, b)

abbrev pub read_scopes : List String
read_scopes = "org.read" ∷ "data.read" ∷ "workflow.read" ∷ "file.read" ∷ "audit.read" ∷ []

-- A tool requires another scope, or it only reads.
abbrev pub ReadsOnly : {n : Numbers} {S V R : Type 0} → (S → V) → Tool n S R → Type 0
ReadsOnly {n} view t =
    (member t.required_scope read_scopes ≡ false) ⊎ ((r : Request n) → Reads view (t.handler r))

-- The call was declined, by an error of Go or by an error response, and changed nothing.
pub record Declines {S R : Type 0} (m : Exec S (Result R)) : Type 0 where
  pub declines :
      (s : S) → ((x : Error) × (m s ≡ (err x, s))) ⊎ ((x : Error) × (m s ≡ (ok (err x), s)))

-- A call has the argument, or it is declined.
abbrev pub Demand : {n : Numbers} {S R : Type 0} → Tool n S R → String → Type 0
Demand {n} t key =
    (r : Request n)
    → ((v : Json n.Number) × (find_member key r.args ≡ some v)) ⊎ Declines (t.handler r)

-- A call has every argument that the schema requires, or it is declined.
abbrev pub Demands : {n : Numbers} {S R : Type 0} → Tool n S R → Type 0
Demands t = All (Demand t) t.required

demand :
    {n : Numbers} {S R : Type 0} {handler : Request n → Exec S (Result R)} (key : String)
    → ((r : Request n) → find_member key r.args ≡ none → Declines (handler r))
    → (r : Request n)
    → ((v : Json n.Number) × (find_member key r.args ≡ some v)) ⊎ Declines (handler r)
demand key h r = elim (Option-cases (find_member key r.args)) [
  | inl q ↦ inr (h r q)
  | inr found ↦ inl found
]

module _ {S V R : Type 0} {view : S → V} where
  pub Reads-returning : (m : Exec S R) → Reads view m → Reads view (returning m)
  unfolding returning
  Reads-returning m h = Reads-bind m _ h (λ r. Reads-pure (ok r))

  pub Reads-answering : (m : Exec S R) → Reads view m → Reads view (answering m)
  unfolding answering
  Reads-answering m h = record { leaves = h.leaves }

module _ {S R : Type 0} where
  pub Declines-returning : (m : Exec S R) → Stops m → Declines (returning m)
  unfolding returning ◌>>=◌
  Declines-returning m h = record { declines = λ s. let (x, p) = h.stops s in inl (x, rw p refl) }

  pub Declines-answering : (m : Exec S R) → Stops m → Declines (answering m)
  unfolding answering
  Declines-answering m h = record { declines = λ s. let (x, p) = h.stops s in inr (x, rw p refl) }

module _ {n : Numbers} {S R : Type 0} where
  pub Demand-returning :
      (key : String) (m : Request n → Exec S R)
      → ((r : Request n) → find_member key r.args ≡ none → Stops (m r))
      → (r : Request n)
      → ((v : Json n.Number) × (find_member key r.args ≡ some v)) ⊎ Declines (returning (m r))
  Demand-returning key m h = demand key (λ r absent. Declines-returning (m r) (h r absent))

  pub Demand-answering :
      (key : String) (m : Request n → Exec S R)
      → ((r : Request n) → find_member key r.args ≡ none → Stops (m r))
      → (r : Request n)
      → ((v : Json n.Number) × (find_member key r.args ≡ some v)) ⊎ Declines (answering (m r))
  Demand-answering key m h = demand key (λ r absent. Declines-answering (m r) (h r absent))

pub Stops-err : {S A : Type 0} (r : Result A) (x : Error) → r ≡ err x → Stops (lift {S = S} r)
unfolding ◌>>=◌
Stops-err r x q = record { stops = λ s. (x, rw q refl) }

module _ {S : Type 0} (n : Numbers) (args : Args n) (key : String)
    (absent : find_member key args ≡ none) where
  pub Stops-int : Stops (lift {S = S} (get_int_arg n args key))
  unfolding get_int_arg
  Stops-int = Stops-err (get_int_arg n args key) (missing_argument key) (rw absent refl)

  pub Stops-string : Stops (lift {S = S} (get_string_arg n args key))
  unfolding get_string_arg
  Stops-string = Stops-err (get_string_arg n args key) (missing_argument key) (rw absent refl)

  pub Stops-object : Stops (lift {S = S} (get_object n args key))
  unfolding get_object
  Stops-object = Stops-err (get_object n args key) (wrong_argument key) (rw absent refl)

  pub Stops-array : Stops (lift {S = S} (get_array n args key))
  unfolding get_array
  Stops-array = Stops-err (get_array n args key) (wrong_argument key) (rw absent refl)

pub Stops-app : {S : Type 0} (c : Caller) → c.app_id ≡ none → Stops (lift {S = S} (get_app_id c))
unfolding get_app_id
Stops-app c absent = Stops-err (get_app_id c) no_app_id (rw absent refl)

pub ruleset stops_rules =
    (Stops-first, Stops-later, Stops-int, Stops-string, Stops-object, Stops-array, Reads-lift)
