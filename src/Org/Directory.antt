-- ===== src/Org/Directory.antt =====
-- backend/internal/service/org_service.go, over backend/internal/repository/org_repository.go. The
-- store is the table of organisations.
use suzuran.Prelude.{
  ℕ, ◌≡◌, ◌⊎◌, inl, inr, refl, String, true, Option, none, some, List, arith, ◌==◌, ==_iff,
  if◌then◌else◌,
}
use suzuran.Prelude.Error.{Error, org_not_found}
use suzuran.Prelude.Result.{Result-cases, ok, err}
use suzuran.Prelude.Exec.{Exec, require, ◌>>=◌}
use suzuran.Gorm.{Gorm, IsGorm}
use suzuran.Gorm.Rows.{row_at, row_at-upsert, find?-holds}
use suzuran.Org.Model.{Org}

module _ (g : Gorm) where
  -- OrgRepository

  unfoldable pub get_org_row : ℕ → Exec (List Org) (Option Org)
  get_org_row id t = (g.first (λ o. o.id == id) t, t)

  unfoldable pub save_org_row : Org → Exec (List Org) (Unit {0})
  save_org_row o t = g.save (λ (o : Org). o.id) o t

  unfoldable pub list_org_rows : Exec (List Org) (List Org)
  list_org_rows t = (g.find (λ o. true) t, t)

  unfoldable pub delete_org_row : ℕ → Exec (List Org) (Unit {0})
  delete_org_row id t = g.delete (λ o. o.id == id) t

  -- OrgService

  unfoldable pub create_org : String → String → Exec (List Org) Org
  create_org name description t =
      g.create (λ o. o.id) (λ n. record { id = n; name = name; description = description }) t

  unfoldable pub get_org_by_id : ℕ → Exec (List Org) (Option Org)
  get_org_by_id id = get_org_row id

  unfoldable pub list_orgs : Exec (List Org) (List Org)
  list_orgs = list_org_rows

  unfoldable pub update_org : ℕ → String → String → Exec (List Org) (Unit {0})
  update_org id name description = do
    found ← get_org_row id
    org ← require org_not_found found
    save_org_row (record org { name = name; description = description })

  unfoldable pub delete_org : ℕ → Exec (List Org) (Unit {0})
  delete_org id = delete_org_row id

  module _ (law : IsGorm g) (id : ℕ) (name description : String) where
    -- the organisation that UpdateOrg writes
    abbrev pub renamed : Org → Org
    renamed o = record o { name = name; description = description }

    -- UpdateOrg that succeeds gives the organisation with the key its new name and description, and
    -- leaves what the table holds at every other key; one that fails leaves the table as it was.
    pub update_org_renames :
        (t : List Org)
        → ((x : Error) × (update_org id name description t ≡ (err x, t)))
          ⊎ ((o : Org) × (row_at (λ (o : Org). o.id) id t ≡ some o)
              × ((update_org id name description t).0 ≡ ok tt)
              × ((k : ℕ)
                  → row_at (λ (o : Org). o.id) k (update_org id name description t).1
                    ≡ (if id == k then some (renamed o) else row_at (λ (o : Org). o.id) k t)))
    unfolding update_org get_org_row save_org_row ◌>>=◌
    update_org_renames t = elim (Result-cases (g.first (λ o. o.id == id) t)) [
      | inr (x, q) ↦ inl (x, rw q refl)
      | inl (none, q) ↦ inl (org_not_found, rw q refl)
      | inl (some o, q) ↦
          let hit : row_at (λ (o : Org). o.id) id t ≡ some o =
            ground (arith, law.first_law (λ o. o.id == id) t) in
          let at_id : o.id ≡ id = (==_iff _ _).0 (find?-holds (λ (o : Org). o.id == id) t o hit) in
          elim (law.save_law (λ (o : Org). o.id) (renamed o) t) [
            | inl r ↦ inl (Error.db, rw (q, r) refl)
            | inr r ↦ inr (
              o,
              hit,
              rw (q, r) refl,
              λ k. rw (q, r) (rw (row_at-upsert (λ (o : Org). o.id) (renamed o) k t, at_id) refl),
            )
          ]
    ]
