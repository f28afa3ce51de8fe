-- ===== src/Data/Bindings.antt =====
-- The placeholders of the statements of backend/internal/repository/data_repository.go stand for the
-- values that they are meant for.
use mathlib.Core.List.{append_assoc, append-nil}
use suzuran.Prelude.{
  ℕ, zero, suc, ◌≤◌, ◌≡◌, refl, sym, ap, ◌∙◌, Option, none, some, List, [], ◌∷◌, ◌++◌, length,
  length-append, All, All-map, All-append_one, arith,
}
use suzuran.Prelude.Text.{Text}
use suzuran.Data.Model.{Env}
use suzuran.Data.Statements.{
  pg_quote, Data, Bindings, bind, bind_all, org_column, conditions, inserted, assigned,
  insert_bindings, set_bindings,
}

-- the value of the placeholder `$n`
abbrev pub value_at {ℓ} : {A : Type ℓ} → ℕ → List A → Option A
value_at n [] = none
value_at zero (v ∷ t) = none
value_at (suc zero) (v ∷ t) = some v
value_at (suc (suc n)) (v ∷ t) = value_at (suc n) t

module _ (e : Env) where
  -- each clause with the value that its placeholder stands for
  abbrev pub meaning : List (Text × ℕ) → List e.Value → List (Text × Option e.Value)
  meaning [] values = []
  meaning ((column, n) ∷ t) values = (column, value_at n values) ∷ meaning t values

  -- each entry of a map as a quoted column with its value
  abbrev pub entries : Data e → List (Text × Option e.Value)
  entries [] = []
  entries ((k, v) ∷ t) = (pg_quote k, some (e.marshal v)) ∷ entries t

  -- Every number is one of a value that is there.
  abbrev Numbered : Bindings e → Type 0
  Numbered (clauses, values) = All (λ c. c.1 ≤ length values) clauses

  value_at-append :
      (n : ℕ) (values more : List e.Value)
      → n ≤ length values
      → value_at n (values ++ more) ≡ value_at n values
  value_at-append zero [] [] h = refl
  value_at-append zero [] (m ∷ more) h = refl
  value_at-append zero (v ∷ values) more h = refl
  value_at-append (suc n) [] more h = absurd (let bad : ⊥ = omega (arith, h) in bad)
  value_at-append (suc zero) (v ∷ values) more h = refl
  value_at-append (suc (suc n)) (v ∷ values) more h =
      value_at-append (suc n) values more (omega (arith, h))

  value_at_last :
      (values : List e.Value) (v : e.Value)
      → value_at (suc (length values)) (values ++ v ∷ []) ≡ some v
  value_at_last [] v = refl
  value_at_last (x ∷ values) v = value_at_last values v

  -- More values leave what the clauses mean.
  meaning-append :
      (clauses : List (Text × ℕ)) (values more : List e.Value)
      → All (λ c. c.1 ≤ length values) clauses
      → meaning clauses (values ++ more) ≡ meaning clauses values
  meaning-append [] values more h = refl
  meaning-append ((column, n) ∷ t) values more h =
      rw (value_at-append n values more h.0)
        (ap (λ x. (column, value_at n values) ∷ x) (meaning-append t values more h.1))

  meaning-split :
      (xs ys : List (Text × ℕ)) (values : List e.Value)
      → meaning (xs ++ ys) values ≡ meaning xs values ++ meaning ys values
  meaning-split [] ys values = refl
  meaning-split (x ∷ xs) ys values =
      ap (λ t. (x.0, value_at x.1 values) ∷ t) (meaning-split xs ys values)

  -- A clause that is added means its value, and the others mean what they did.
  bind_lem :
      (b : Bindings e) (column : Text) (value : e.Value)
      → Numbered b
      → Numbered (bind e b column value)
        × (meaning (bind e b column value).0 (bind e b column value).1
            ≡ meaning b.0 b.1 ++ (column, some value) ∷ [])
  bind_lem (clauses, values) column value h = (
    All-append_one (λ c. c.1 ≤ length (values ++ value ∷ [])) clauses (column, suc (length values))
        (All-map (λ c. c.1 ≤ length values) (λ c. c.1 ≤ length (values ++ value ∷ [])) clauses
          (λ c q. omega (arith, q, length-append values (value ∷ []))) h)
        (omega (arith, length-append values (value ∷ []))),
    meaning-split clauses _ (values ++ value ∷ [])
        ∙ rw (meaning-append clauses values (value ∷ []) h, value_at_last values value) refl,
  )

  bind_all_lem :
      (b : Bindings e) (row : Data e)
      → Numbered b
      → Numbered (bind_all e b row)
        × (meaning (bind_all e b row).0 (bind_all e b row).1 ≡ meaning b.0 b.1 ++ entries row)
  bind_all_lem b [] h = (h, sym (append-nil (meaning b.0 b.1)))
  bind_all_lem b ((k, v) ∷ t) h =
      let (n, m) = bind_lem b (pg_quote k) (e.marshal v) h in
      let (n2, m2) = bind_all_lem (bind e b (pg_quote k) (e.marshal v)) t n in
      (n2, m2 ∙ ap (λ x. x ++ entries t) m ∙ append_assoc (meaning b.0 b.1) _ (entries t))

  org_bound :
      (before : List e.Value) (org : ℕ) (filters : Data e)
      → let b = bind_all e (bind e ([], before) (org_column e) (e.of_int org)) filters in
        meaning b.0 b.1 ≡ (org_column e, some (e.of_int org)) ∷ entries filters
  org_bound before org filters =
      let (n, m) = bind_lem ([], before) (org_column e) (e.of_int org) tt in
      (bind_all_lem (bind e ([], before) (org_column e) (e.of_int org)) filters n).1
      ∙ ap (λ x. x ++ entries filters) m

  -- Binding adds to the values that are there.
  bind_all-values :
      (b : Bindings e) (row : Data e) → (more : List e.Value) × ((bind_all e b row).1 ≡ b.1 ++ more)
  bind_all-values b [] = ([], sym (append-nil b.1))
  bind_all-values b ((k, v) ∷ t) =
      let (more, q) = bind_all-values (bind e b (pg_quote k) (e.marshal v)) t in
      (e.marshal v ∷ more, q ∙ append_assoc b.1 (e.marshal v ∷ []) more)

  -- The assignments of an update keep their values when the conditions add theirs.
  sets_bound :
      (org : ℕ) (filters row : Data e)
      → meaning (set_bindings e row).0 (conditions e (set_bindings e row).1 org filters).1
        ≡ entries (assigned e row)
  unfolding conditions set_bindings
  sets_bound org filters row =
      let sets : Bindings e = bind_all e ([], []) (assigned e row) in
      let (n, m) = bind_all_lem ([], []) (assigned e row) tt in
      let (more, q) = bind_all-values (bind e ([], sets.1) (org_column e) (e.of_int org)) filters in
      ap (meaning sets.0) (q ∙ append_assoc sets.1 (e.of_int org ∷ []) more)
      ∙ meaning-append sets.0 sets.1 (e.of_int org ∷ more) n
      ∙ m

  -- Every statement for the rows of an application's table is bound to the organisation of the
  -- caller, and every placeholder stands for the value of its own column: the conditions of a query,
  -- an update, a deletion or a count mean the organisation and then the filters, whatever values come
  -- before them; an inserted row gets the organisation and then the entries of the caller that are
  -- not reserved; an update sets the entries of the caller that are neither `id` nor `org_id`.
  pub statements_bind :
      (before : List e.Value) (org : ℕ) (filters row : Data e)
      → (meaning (conditions e before org filters).0 (conditions e before org filters).1
          ≡ (org_column e, some (e.of_int org)) ∷ entries filters)
        × (meaning (insert_bindings e org row).0 (insert_bindings e org row).1
            ≡ (org_column e, some (e.of_int org)) ∷ entries (inserted e row))
        × (meaning (set_bindings e row).0 (conditions e (set_bindings e row).1 org filters).1
            ≡ entries (assigned e row))
  unfolding conditions insert_bindings
  statements_bind before org filters row =
      (org_bound before org filters, org_bound [] org (inserted e row), sets_bound org filters row)
