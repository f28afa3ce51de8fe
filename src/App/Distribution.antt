-- ===== src/App/Distribution.antt =====
-- backend/internal/service/distribution_service.go, over the second half of
-- backend/internal/repository/application_repository.go.
pub mod Invariant
pub mod Withdrawal
use suzuran.Prelude.{
  ℕ, String, Bool, true, false, not, ◌&&◌, Option, none, some, List, [], ◌∷◌, ◌++◌, str_eq, ◌==◌,
  if◌then◌else◌,
}
use suzuran.Prelude.Error.{
  Error, app_not_found, org_not_found, provider_org, already_distributed, not_distributed,
  not_a_member, already_admin,
}
use suzuran.Prelude.Result.{Result, ok, err}
use suzuran.Prelude.Exec.{Exec, pure, raise, require, raise_if, ◌>>=◌, ◌>>◌}
use suzuran.Gorm.{Gorm}
use suzuran.Org.Model.{Org, User, OrgUserBond}
use suzuran.App.Model.{Application, ApplicationDistribution, ApplicationAdmin}

-- The tables that the service reads and writes.
pub record Db : Type 0 where
  pub apps : List Application
  pub orgs : List Org
  pub users : List User
  pub bonds : List OrgUserBond
  pub distributions : List ApplicationDistribution
  pub admins : List ApplicationAdmin

pub record AdminView : Type 0 where
  pub user_id : ℕ
  pub name : String
  pub username : String

pub record DistributionView : Type 0 where
  pub org_id : ℕ
  pub org_name : String
  pub admins : List AdminView

-- `app_id = ? AND org_id = ?`
abbrev pub is_dist : String → ℕ → ApplicationDistribution → Bool
is_dist app org d = str_eq d.app_id app && d.org_id == org

abbrev pub is_app_org : String → ℕ → ApplicationAdmin → Bool
is_app_org app org a = str_eq a.app_id app && a.org_id == org

abbrev pub is_admin_row : String → ℕ → ℕ → ApplicationAdmin → Bool
is_admin_row app org user a = is_app_org app org a && a.user_id == user

abbrev pub is_member : ℕ → ℕ → OrgUserBond → Bool
is_member org user b = b.org_id == org && b.user_id == user

abbrev pub is_some {ℓ} : {A : Type ℓ} → Option A → Bool
is_some none = false
is_some (some a) = true

module _ (g : Gorm) where
  -- ApplicationRepository, OrgRepository, UserRepository and OrgUserBondRepository

  unfoldable pub get_app : String → Exec Db (Option Application)
  get_app id s = (g.first (λ a. str_eq a.id id) s.apps, s)

  unfoldable pub list_all : Exec Db (List Application)
  list_all s = (g.find (λ a. true) s.apps, s)

  unfoldable pub get_org : ℕ → Exec Db (Option Org)
  get_org id s = (g.first (λ o. o.id == id) s.orgs, s)

  unfoldable pub get_user : ℕ → Exec Db (Option User)
  get_user id s = (g.first (λ u. u.id == id) s.users, s)

  unfoldable pub get_bond : ℕ → ℕ → Exec Db (Option OrgUserBond)
  get_bond org user s = (g.first (is_member org user) s.bonds, s)

  unfoldable pub create_distribution : String → ℕ → Exec Db (Unit {0})
  create_distribution app org s =
      let (r, t) =
        g.create (λ d. d.id) (λ n. record { id = n; app_id = app; org_id = org }) s.distributions in
      (elim r [ ok d ↦ ok tt | err e ↦ err e ], record s { distributions = t })

  unfoldable pub delete_distribution : String → ℕ → Exec Db (Unit {0})
  delete_distribution app org s =
      let (r, t) = g.delete (is_dist app org) s.distributions in (r, record s { distributions = t })

  unfoldable pub list_distributions_by_app : String → Exec Db (List ApplicationDistribution)
  list_distributions_by_app app s = (g.find (λ d. str_eq d.app_id app) s.distributions, s)

  unfoldable pub list_distributions_by_org : ℕ → Exec Db (List ApplicationDistribution)
  list_distributions_by_org org s = (g.find (λ d. d.org_id == org) s.distributions, s)

  unfoldable pub get_distribution : String → ℕ → Exec Db (Option ApplicationDistribution)
  get_distribution app org s = (g.first (is_dist app org) s.distributions, s)

  unfoldable pub create_admin : String → ℕ → ℕ → Exec Db (Unit {0})
  create_admin app org user s =
      let (r, t) =
        g.create (λ a. a.id) (λ n. record { id = n; app_id = app; org_id = org; user_id = user })
          s.admins in
      (elim r [ ok a ↦ ok tt | err e ↦ err e ], record s { admins = t })

  unfoldable pub delete_admin : String → ℕ → ℕ → Exec Db (Unit {0})
  delete_admin app org user s =
      let (r, t) = g.delete (is_admin_row app org user) s.admins in (r, record s { admins = t })

  unfoldable pub list_admins : String → ℕ → Exec Db (List ApplicationAdmin)
  list_admins app org s = (g.find (is_app_org app org) s.admins, s)

  unfoldable pub get_admin : String → ℕ → ℕ → Exec Db (Option ApplicationAdmin)
  get_admin app org user s = (g.first (is_admin_row app org user) s.admins, s)

  -- DistributionService

  -- `err != nil || org == nil` is one message.
  abbrev found_org : Result (Option Org) → Result Org
  found_org (ok (some o)) = ok o
  found_org _ = err org_not_found

  unfoldable pub distribute_app : String → ℕ → Exec Db (Unit {0})
  distribute_app app org = do
    found ← get_app app
    require app_not_found found
    λ s. (found_org (get_org org s).0, s)
    raise_if (org == 1) provider_org
    existing ← get_distribution app org
    raise_if (is_some existing) already_distributed
    create_distribution app org

  unfoldable pub delete_admins : String → ℕ → List ApplicationAdmin → Exec Db (Unit {0})
  delete_admins app org [] = pure tt
  delete_admins app org (a ∷ admins) = do
    delete_admin app org a.user_id
    delete_admins app org admins

  unfoldable pub undistribute_app : String → ℕ → Exec Db (Unit {0})
  undistribute_app app org = do
    delete_distribution app org
    admins ← list_admins app org
    delete_admins app org admins

  unfoldable pub set_app_admin : String → ℕ → ℕ → Exec Db (Unit {0})
  set_app_admin app org user = do
    dist ← get_distribution app org
    raise_if (not (is_some dist)) not_distributed
    bond ← get_bond org user
    raise_if (not (is_some bond)) not_a_member
    existing ← get_admin app org user
    raise_if (is_some existing) already_admin
    create_admin app org user

  unfoldable pub remove_app_admin : String → ℕ → ℕ → Exec Db (Unit {0})
  remove_app_admin app org user = delete_admin app org user

  abbrev is_found {ℓ} : {A : Type ℓ} → Result (Option A) → Bool
  is_found (ok (some a)) = true
  is_found _ = false

  -- A bond with organisation 1 is enough; an error of that query counts as no bond.
  unfoldable pub is_app_admin : ℕ → ℕ → String → Exec Db Bool
  is_app_admin user org app s =
      if is_found (get_bond 1 user s).0
      then (ok true, s)
      else (do admin ← get_admin app org user; pure (is_some admin)) s

  unfoldable pub collect_apps : List ApplicationDistribution → Exec Db (List Application)
  collect_apps [] = pure []
  collect_apps (d ∷ dists) = do
    app ← get_app d.app_id
    apps ← collect_apps dists
    pure (elim app [ none ↦ apps | some a ↦ a ∷ apps ])

  unfoldable pub list_apps_for_org : ℕ → Exec Db (List Application)
  list_apps_for_org org = do dists ← list_distributions_by_org org; collect_apps dists

  unfoldable pub list_all_apps : Exec Db (List Application)
  list_all_apps = list_all

  abbrev or_empty : Option String → String
  or_empty none = ""
  or_empty (some t) = t

  -- `if u, _ := ...; u != nil`
  abbrev view_of : ApplicationAdmin → Result (Option User) → AdminView
  view_of a (ok (some u)) = record {
    user_id = a.user_id;
    name = u.name;
    username = or_empty u.username;
  }
  view_of a _ = record { user_id = a.user_id; name = ""; username = "" }

  unfoldable pub admin_views : List ApplicationAdmin → Db → List AdminView
  admin_views [] s = []
  admin_views (a ∷ admins) s = view_of a (get_user a.user_id s).0 ∷ admin_views admins s

  abbrev name_of : Result (Option Org) → String
  name_of (ok (some o)) = o.name
  name_of _ = ""

  unfoldable pub distribution_views :
      String → List ApplicationDistribution → Exec Db (List DistributionView)
  distribution_views app [] = pure []
  distribution_views app (d ∷ dists) = do
    name ← (λ s. (ok (name_of (get_org d.org_id s).0), s))
    admins ← list_admins app d.org_id
    views ← (λ s. (ok (admin_views admins s), s))
    rest ← distribution_views app dists
    pure (record { org_id = d.org_id; org_name = name; admins = views } ∷ rest)

  unfoldable pub list_distributions : String → Exec Db (List DistributionView)
  list_distributions app = do dists ← list_distributions_by_app app; distribution_views app dists
