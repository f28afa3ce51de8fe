-- ===== src/App/Service/Imports.antt =====
-- What ImportApp of backend/internal/service/app_import_service.go leaves behind.

use suzuran.Prelude.{
  ℕ, ◌≡◌, ◌⊎◌, inl, inr, refl, ap, ◌∙◌, Bool, true, false, ◌&&◌, String, List, [], ◌∷◌, ◌++◌,
  length, filter, ltb, All, str_eq, str_eq_refl, ◌==◌, Bool-cases, if◌then◌else◌, arith,
}
use suzuran.Prelude.Error.{Error, storage_unavailable}
use suzuran.Prelude.Result.{Result, ok, err, ok-injective}
use suzuran.Prelude.Exec.{Exec, continue, ignoring, pure, ◌>>=◌}
use suzuran.Prelude.Exec.Cases.{bind_cases, lift_cases, guard_cases}
use suzuran.Prelude.Text.{Text}
use suzuran.Gorm.{IsGorm, update_where, delete_where}
use suzuran.App.Model.{Application}
use suzuran.App.Package.{AppManifest, parse_app_zip}
use suzuran.App.Runtime.Manager.{cleaned, on_error}
use suzuran.App.Store.{
  Env, Store, on_objects, has_app_id, create_app_row, exists_by_name, update_source_key,
  delete_app_row,
}
use suzuran.App.Service.{
  CreateAppRequest, new_app, request_of, create_app, object_key, store_package, keep_package,
  import_app,
}

cleaned_cases :
    {S A B C : Type 0} (G : Result B × S → Type 0) (r : Result A) (cleanup : Exec S C)
    (f : A → Exec S B) (s : S)
    → ((x : Error) → r ≡ err x → G (err x, (cleanup s).1))
    → ((a : A) → r ≡ ok a → G (f a s))
    → G (continue (cleaned r cleanup s).0 f (cleaned r cleanup s).1)
cleaned_cases G (ok a) cleanup f s fails goes = goes a refl
cleaned_cases G (err x) cleanup f s fails goes = fails x refl

on_error_cases :
    {S A B C : Type 0} (G : Result B × S → Type 0) (m : Exec S A) (cleanup : Exec S C)
    (f : A → Exec S B) (s : S)
    → ((x : Error) → (m s).0 ≡ err x → G (err x, (cleanup (m s).1).1))
    → ((a : A) → (m s).0 ≡ ok a → G (f a (m s).1))
    → G ((on_error m cleanup >>= f) s)
unfolding on_error ◌>>=◌
on_error_cases G m cleanup f s fails goes = cleaned_cases G (m s).0 cleanup f (m s).1 fails goes

if_cases :
    {A : Type 0} (P : A → Type 0) (b : Bool) (x y : A)
    → (b ≡ true → P x)
    → (b ≡ false → P y)
    → P (if b then x else y)
if_cases P true x y hx hy = hx refl
if_cases P false x y hx hy = hy refl

-- No application has the identifier yet.
abbrev pub IsFresh : String → List Application → Type 0
IsFresh id t = All (λ a. has_app_id id a ≡ false) t

update_where-fresh :
    (id : String) (f : Application → Application) (t : List Application) (app : Application)
    → IsFresh id t
    → has_app_id id app ≡ true
    → update_where (has_app_id id) f (t ++ app ∷ []) ≡ t ++ f app ∷ []
update_where-fresh id f [] app fresh own = rw own refl
update_where-fresh id f (a ∷ t) app fresh own =
    rw fresh.0 (ap (λ x. a ∷ x) (update_where-fresh id f t app fresh.1 own))

delete_where-fresh :
    (id : String) (t : List Application) (app : Application)
    → IsFresh id t
    → has_app_id id app ≡ true
    → delete_where (has_app_id id) (t ++ app ∷ []) ≡ t
delete_where-fresh id [] app fresh own = rw own refl
delete_where-fresh id (a ∷ t) app fresh own =
    rw fresh.0 (ap (λ x. a ∷ x) (delete_where-fresh id t app fresh.1 own))

-- no application of the organisation has the name
abbrev pub Unnamed : ℕ → String → List Application → Type 0
Unnamed org name t = All (λ a. (a.org_id == org && str_eq a.name name) ≡ false) t

none_counted :
    (p : Application → Bool) (t : List Application)
    → ltb 0 (length (filter p t)) ≡ false
    → All (λ a. p a ≡ false) t
none_counted p [] h = tt
none_counted p (a ∷ t) h = elim (Bool-cases (p a)) [
  | inl q ↦ absurd (let bad : ⊥ = ground arith in bad)
  | inr q ↦ (q, none_counted p t (rw q at h))
]

module _ (e : Env) (law : IsGorm e.gorm) (id : String) (org : ℕ) (zip : Text) where
  -- the row that an import adds, before and after it has its package
  abbrev pub bare : AppManifest → Application
  bare m = new_app id org (request_of m)

  abbrev pub kept : AppManifest → Application
  kept m = record (bare m) { source_key = object_key e org id }

  -- CreateApp that succeeds appends its row, and one that fails changes nothing.
  abbrev Created : Store e → CreateAppRequest → Result Application × Store e → Type 0
  Created s req out =
      ((x : Error) × (out ≡ (err x, s)))
      ⊎ (out ≡ (ok (new_app id org req), record s { apps = s.apps ++ new_app id org req ∷ [] }))

  row-Created :
      (s : Store e) (req : CreateAppRequest)
      → Created s req ((create_app_row e (new_app id org req) >>= λ _. pure (new_app id org req)) s)
  unfolding create_app_row ◌>>=◌
  row-Created s req = elim (law.insert_law (new_app id org req) s.apps) [
    | inl q ↦ inl (Error.db, rw q refl)
    | inr q ↦ inr (rw q refl)
  ]

  create_app-Created :
      (s : Store e) (req : CreateAppRequest) → Created s req (create_app e id org req s)
  unfolding create_app
  create_app-Created s req =
      guard_cases (Created s req) _ _ _ s (λ _. inl (_, refl))
        (λ _.
          guard_cases (Created s req) _ _ _ s (λ _. inl (_, refl))
            (λ _.
              guard_cases (Created s req) _ _ _ s (λ _. inl (_, refl)) (λ _. row-Created s req)))

  -- The rows are as they were, or the new row stays without its package.
  abbrev pub Failed : Store e → Result Application × Store e → Type 0
  Failed s (r, t) =
      (x : Error) × (r ≡ err x)
      × ((t.apps ≡ s.apps)
          ⊎ ((m : AppManifest) × (parse_app_zip e.formats zip ≡ ok m)
              × (t.apps ≡ s.apps ++ bare m ∷ [])
              × (((e.gorm.delete (has_app_id id) (s.apps ++ bare m ∷ [])).0 ≡ err Error.db)
                  ⊎ ((e.gorm.update (has_app_id id)
                        (λ a. record a { source_key = object_key e org id })
                        (s.apps ++ bare m ∷ [])).0
                      ≡ err Error.db))))

  abbrev pub Succeeded : Store e → Result Application × Store e → Type 0
  Succeeded s (r, t) =
      (m : AppManifest) × (parse_app_zip e.formats zip ≡ ok m)
      × Unnamed org m.name s.apps
      × (r ≡ ok (kept m))
      × (t.apps ≡ s.apps ++ kept m ∷ [])
      × ((e.files.upload (object_key e org id) zip s.objects).0 ≡ ok tt)
      × (t.objects ≡ (e.files.upload (object_key e org id) zip s.objects).1)

  abbrev pub Outcome : Store e → Result Application × Store e → Type 0
  Outcome s out = Failed s out ⊎ Succeeded s out

  unchanged : (s : Store e) (x : Error) (t : Store e) → t.apps ≡ s.apps → Outcome s (err x, t)
  unchanged s x t rows = inl (x, refl, inl rows)

  Unnamed-exists_by_name :
      (s : Store e) (m : AppManifest)
      → (exists_by_name e org m.name s).0 ≡ ok false
      → Unnamed org m.name s.apps
  unfolding exists_by_name
  Unnamed-exists_by_name s m h =
      elim (law.find_law (λ a. a.org_id == org && str_eq a.name m.name) s.apps) [
        | inl q ↦ absurd (let bad : ⊥ = ground (arith, rw q at h) in bad)
        | inr q ↦
            none_counted (λ a. a.org_id == org && str_eq a.name m.name) s.apps
              (ok-injective (rw q at h))
      ]

  module _ (s : Store e) (fresh : IsFresh id s.apps) (m : AppManifest)
      (parsed : parse_app_zip e.formats zip ≡ ok m) (unnamed : Unnamed org m.name s.apps) where
    abbrev with_row : Store e
    with_row = record s { apps = s.apps ++ bare m ∷ [] }

    own : has_app_id id (bare m) ≡ true
    own = str_eq_refl id

    taken_back :
        (x : Error) (t : Store e)
        → t.apps ≡ s.apps ++ bare m ∷ []
        → Outcome s (err x, (delete_app_row e id t).1)
    unfolding delete_app_row
    taken_back x t rows = elim (law.delete_law (has_app_id id) t.apps) [
      | inl q ↦ inl (x, refl, inr (m, parsed, (rw q rows), inl (ap (λ r. r.0) (rw rows at q))))
      | inr q ↦ inl (
        x,
        refl,
        inl (
            rw q (
              ap (delete_where (has_app_id id)) rows
              ∙ delete_where-fresh id s.apps (bare m) fresh own)),
      )
    ]

    keyed :
        (t : Store e)
        → t.apps ≡ s.apps ++ bare m ∷ []
        → (e.files.upload (object_key e org id) zip s.objects).0 ≡ ok tt
        → t.objects ≡ (e.files.upload (object_key e org id) zip s.objects).1
        → Outcome s ((update_source_key e id (object_key e org id) >>= λ _. pure (kept m)) t)
    unfolding update_source_key ◌>>=◌
    keyed t rows sent stored =
        elim (law.update_law (has_app_id id) (λ a. record a { source_key = object_key e org id })
          t.apps) [
            | inl q ↦
                rw q
                  (inl (Error.db, refl, inr (m, parsed, rows, inr (ap (λ r. r.0) (rw rows at q)))))
            | inr q ↦ rw q (
                inr (
                  m,
                  parsed,
                  unnamed,
                  refl,
                  ap
                        (update_where (has_app_id id)
                          (λ a. record a { source_key = object_key e org id }))
                        rows
                      ∙ update_where-fresh id (λ a. record a { source_key = object_key e org id })
                          s.apps (bare m) fresh own,
                  sent,
                  stored,
                ))
          ]

    keep_package-Outcome : Outcome s (keep_package e org zip (bare m) with_row)
    unfolding keep_package store_package ignoring ◌>>=◌
    keep_package-Outcome =
        if_cases {A = Exec (Store e) Application} (λ k. Outcome s (k with_row)) e.has_storage _ _
          (λ h.
            on_error_cases (Outcome s) (on_objects e (e.files.upload (object_key e org id) zip))
              (delete_app_row e id)
              (λ _. update_source_key e id (object_key e org id) >>= λ _. pure (kept m)) with_row
              (λ x q. taken_back x _ refl) (λ u q. keyed _ refl q refl))
          (λ h. taken_back storage_unavailable with_row refl)

    created_then :
        Outcome s ((create_app e id org (request_of m) >>= λ app. keep_package e org zip app) s)
    unfolding ◌>>=◌
    created_then = elim (create_app-Created s (request_of m)) [
      | inl (x, q) ↦ rw q (unchanged s x s refl)
      | inr q ↦ rw q keep_package-Outcome
    ]

  -- ImportApp under a fresh identifier either succeeds: the archive was accepted, its name was free in
  -- the organisation, exactly one row is added, with the key of the package, and the package was
  -- uploaded under this key; or it fails: the rows are as before, or the new row stays without its
  -- package when the database refused to delete it or to write the key.
  pub import_app-Outcome : (s : Store e) → IsFresh id s.apps → Outcome s (import_app e id org zip s)
  unfolding import_app exists_by_name
  import_app-Outcome s fresh =
      guard_cases (Outcome s) _ _ _ s (λ _. unchanged s _ s refl)
        (λ _.
          guard_cases (Outcome s) _ _ _ s (λ _. unchanged s _ s refl)
            (λ _.
              lift_cases (Outcome s) (parse_app_zip e.formats zip) _ s (λ x _. unchanged s x s refl)
                (λ m parsed.
                  bind_cases (Outcome s) (exists_by_name e org m.name) _ s
                    (λ x _. unchanged s x s refl)
                    (λ taken named.
                      guard_cases (Outcome s) taken _ _ s (λ _. unchanged s _ s refl)
                        (λ free.
                          created_then s fresh m parsed
                            (Unnamed-exists_by_name s m (rw free at named)))))))
