-- ===== src/DingTalk/Counts.antt =====
-- The numbers that SyncOrganization of backend/internal/service/dingtalk_sync_service.go reports.
use suzuran.Prelude.{
  ℕ, suc, ◌+◌, ◌≡◌, refl, sym, ap, subst, ◌∙◌, inl, inr, true, false, ◌||◌, Option, String, List,
  [], ◌∷◌, ◌++◌, length, length-append, str_eq, Bool-cases, arith,
}
use suzuran.Prelude.Result.{Result, ok, err, ok-injective}
use suzuran.Prelude.Exec.{Exec, lift, pure, ignoring, ◌>>=◌}
use suzuran.Prelude.Exec.Rules.{>>=-returns}
use suzuran.Org.Model.{Department}
use suzuran.Org.Tables.{Env}
use suzuran.DingTalk.Model.{SourceDepartment, DeptUser, Source, SyncStats, Messages, Store}
use suzuran.DingTalk.Sync.{
  DeptMap, get_dept, seen, skipped, sync_dept_users, sync_users, sync_departments, do_sync,
  sync_organization, create_log, new_log, logged, closed, upsert_user, upsert_bond,
}

-- the identifiers that are not empty, each where it first occurs and was not known before
abbrev pub distinct : List String → List String → List String
distinct known [] = []
distinct known (x ∷ t) = elim (str_eq x "" || seen x known) [
  | true ↦ distinct known t
  | false ↦ x ∷ distinct (x ∷ known) t
]

abbrev known_after : List String → List String → List String
known_after known [] = known
known_after known (x ∷ t) = elim (str_eq x "" || seen x known) [
  | true ↦ known_after known t
  | false ↦ known_after (x ∷ known) t
]

distinct-append :
    (known xs ys : List String)
    → distinct known (xs ++ ys) ≡ distinct known xs ++ distinct (known_after known xs) ys
distinct-append known [] ys = refl
distinct-append known (x ∷ xs) ys = elim (Bool-cases (str_eq x "" || seen x known)) [
  | inl q ↦ rw (distinct, known_after, q) (distinct-append known xs ys)
  | inr q ↦ rw (distinct, known_after, q) (ap (λ t. x ∷ t) (distinct-append (x ∷ known) xs ys))
]

known_after-append :
    (known xs ys : List String)
    → known_after known (xs ++ ys) ≡ known_after (known_after known xs) ys
known_after-append known [] ys = refl
known_after-append known (x ∷ xs) ys = elim (Bool-cases (str_eq x "" || seen x known)) [
  | inl q ↦ rw (known_after, q) (known_after-append known xs ys)
  | inr q ↦ rw (known_after, q) (known_after-append (x ∷ known) xs ys)
]

abbrev pub ids : List DeptUser → List String
ids [] = []
ids (du ∷ users) = du.user_id ∷ ids users

-- the identifiers that DingTalk lists for the departments
abbrev pub listed : Source → List SourceDepartment → List String
listed source [] = []
listed source (d ∷ depts) =
    elim (source.list_users_by_dept d.id) [ err x ↦ [] | ok users ↦ ids users ]
    ++ listed source depts

-- what a loop over these identifiers has counted
abbrev Counted : List String × ℕ → List String → List String × ℕ → Type 0
Counted acc xs r = (r.0 ≡ known_after acc.0 xs) × (r.1 ≡ acc.1 + length (distinct acc.0 xs))

Counted-append :
    (acc mid r : List String × ℕ) (xs ys : List String)
    → Counted acc xs mid
    → Counted mid ys r
    → Counted acc (xs ++ ys) r
Counted-append acc mid r xs ys (k, n) (l, o) = (
  l ∙ rw (k, known_after-append acc.0 xs ys) refl,
  rw
      (
        o,
        n,
        k,
        distinct-append acc.0 xs ys,
        length-append (distinct acc.0 xs) (distinct (known_after acc.0 xs) ys),
      )
      (omega arith),
)

listed-ok :
    (source : Source) (d : SourceDepartment) (depts : List SourceDepartment) (users : List DeptUser)
    → source.list_users_by_dept d.id ≡ ok users
    → ids users ++ listed source depts ≡ listed source (d ∷ depts)
listed-ok source d depts users q = rw (listed, q) refl

Counted-skip :
    (acc r : List String × ℕ) (x : String) (xs : List String)
    → (str_eq x "" || seen x acc.0) ≡ true
    → Counted acc xs r
    → Counted acc (x ∷ xs) r
Counted-skip acc r x xs q c = rw (known_after, distinct, q) c

Counted-keep :
    (acc r : List String × ℕ) (x : String) (xs : List String)
    → (str_eq x "" || seen x acc.0) ≡ false
    → Counted (x ∷ acc.0, suc acc.1) xs r
    → Counted acc (x ∷ xs) r
Counted-keep acc r x xs q c = rw (known_after, distinct, q) (c.0, omega arith)

none_before : (n : ℕ) → 0 + n ≡ n
none_before n = omega arith

abbrev report : DeptMap → List String × ℕ → Exec Store SyncStats
report map counted =
    pure (record { departments = length map; users = counted.1; bonds = counted.1 })

module _ (e : Env) (m : Messages) where
  dept_users_skip :
      (org : ℕ) (dept : Option Department) (du : DeptUser) (users : List DeptUser)
      (acc : List String × ℕ) (s : Store)
      → skipped du acc.0 ≡ true
      → sync_dept_users e m org dept (du ∷ users) acc s ≡ sync_dept_users e m org dept users acc s
  unfolding sync_dept_users
  dept_users_skip org dept du users acc s q = rw (sync_dept_users, q) refl

  dept_users_keep :
      (org : ℕ) (dept : Option Department) (du : DeptUser) (users : List DeptUser)
      (acc : List String × ℕ) (s : Store)
      → skipped du acc.0 ≡ false
      → sync_dept_users e m org dept (du ∷ users) acc s
        ≡ (upsert_user e m du >>= λ user. upsert_bond e m org user.id dept >>= λ _.
              sync_dept_users e m org dept users (du.user_id ∷ acc.0, suc acc.1))
            s
  unfolding sync_dept_users
  dept_users_keep org dept du users acc s q = rw (sync_dept_users, q) refl

  dept_users-Counted :
      (org : ℕ) (dept : Option Department) (users : List DeptUser) (acc r : List String × ℕ)
      (s : Store)
      → (sync_dept_users e m org dept users acc s).0 ≡ ok r
      → Counted acc (ids users) r
  unfolding sync_dept_users ◌>>=◌
  dept_users-Counted org dept [] acc r s h =
      subst (λ t. Counted acc [] t) (ok-injective h) (refl, omega arith)
  dept_users-Counted org dept (du ∷ users) acc r s h = elim (Bool-cases (skipped du acc.0)) [
    | inl q ↦ Counted-skip acc r du.user_id (ids users) q (
        dept_users-Counted org dept users acc r s
          (sym (ap (λ t. t.0) (dept_users_skip org dept du users acc s q)) ∙ h))
    | inr q ↦
        let (user, s1, e1, h1) =
          >>=-returns (upsert_user e m du)
            (λ user. upsert_bond e m org user.id dept >>= λ _.
              sync_dept_users e m org dept users (du.user_id ∷ acc.0, suc acc.1))
            s (sym (ap (λ t. t.0) (dept_users_keep org dept du users acc s q)) ∙ h) in
        let (_, s2, e2, h2) =
          >>=-returns (upsert_bond e m org user.id dept)
            (λ _. sync_dept_users e m org dept users (du.user_id ∷ acc.0, suc acc.1)) s1 h1 in
        Counted-keep acc r du.user_id (ids users) q
          (dept_users-Counted org dept users (du.user_id ∷ acc.0, suc acc.1) r s2 h2)
  ]

  users-Counted :
      (source : Source) (org : ℕ) (depts : List SourceDepartment) (map : DeptMap)
      (acc r : List String × ℕ) (s : Store)
      → (sync_users e m source org depts map acc s).0 ≡ ok r
      → Counted acc (listed source depts) r
  unfolding sync_users ◌>>=◌
  users-Counted source org [] map acc r s h =
      subst (λ t. Counted acc [] t) (ok-injective h) (refl, omega arith)
  users-Counted source org (d ∷ depts) map acc r s h =
      let (users, s1, e1, h1) =
        >>=-returns (lift (source.list_users_by_dept d.id))
          (λ users. sync_dept_users e m org (get_dept d.id map) users acc >>= λ next.
            sync_users e m source org depts map next)
          s h in
      let (next, s2, e2, h2) =
        >>=-returns (sync_dept_users e m org (get_dept d.id map) users acc)
          (λ next. sync_users e m source org depts map next) s1 h1 in
      let first = dept_users-Counted org (get_dept d.id map) users acc next s1 e2 in
      let rest = users-Counted source org depts map next r s2 h2 in
      subst (λ t. Counted acc t r) (listed-ok source d depts users e1)
        (Counted-append acc next r (ids users) (listed source depts) first rest)

  do_sync_counts :
      (source : Source) (org : ℕ) (s : Store) (stats : SyncStats)
      → (do_sync e m source org s).0 ≡ ok stats
      → (depts : List SourceDepartment) × (source.list_departments ≡ ok depts)
        × (stats.users ≡ length (distinct [] (listed source depts)))
        × (stats.bonds ≡ stats.users)
  unfolding do_sync ◌>>=◌
  do_sync_counts source org s stats h =
      let (depts, s1, e1, h1) =
        >>=-returns (lift source.list_departments)
          (λ depts. sync_departments e m org depts [] >>= λ map.
            sync_users e m source org depts map ([], 0) >>= λ counted. report map counted)
          s h in
      let (map, s2, e2, h2) =
        >>=-returns (sync_departments e m org depts [])
          (λ map. sync_users e m source org depts map ([], 0) >>= λ counted. report map counted) s1
          h1 in
      let (counted, s3, e3, h3) =
        >>=-returns (sync_users e m source org depts map ([], 0)) (λ counted. report map counted) s2
          h2 in
      let c = users-Counted source org depts map ([], 0) counted s2 e3 in
      subst
        (λ t.
          (depts : List SourceDepartment) × (source.list_departments ≡ ok depts)
          × (t.users ≡ length (distinct [] (listed source depts)))
          × (t.bonds ≡ t.users))
        (ok-injective h3)
        (depts, e1, c.1 ∙ none_before (length (distinct [] (listed source depts))), refl)

  closed-ok :
      (log : ℕ) (r : Result SyncStats) (s : Store) (stats : SyncStats)
      → (closed e m log r s).0 ≡ ok stats
      → r ≡ ok stats
  unfolding ignoring ◌>>=◌
  closed-ok log (err x) s stats h = cc
  closed-ok log (ok y) s stats h = h

  -- A synchronisation that succeeds reports as many users, and as many bonds, as there are different
  -- identifiers that are not empty among those that DingTalk lists for the departments.
  pub sync_organization_counts :
      (source : Source) (org : ℕ) (s : Store) (stats : SyncStats)
      → (sync_organization e m source org s).0 ≡ ok stats
      → (depts : List SourceDepartment) × (source.list_departments ≡ ok depts)
        × (stats.users ≡ length (distinct [] (listed source depts)))
        × (stats.bonds ≡ stats.users)
  unfolding sync_organization
  sync_organization_counts source org s stats h =
      let (log, s1, e1, h1) =
        >>=-returns (create_log e m (new_log org)) (λ log. logged e m source org log.id) s h in
      do_sync_counts source org s1 stats
        (closed-ok log.id (do_sync e m source org s1).0 (do_sync e m source org s1).1 stats h1)
