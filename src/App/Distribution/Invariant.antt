-- ===== src/App/Distribution/Invariant.antt =====
-- What always holds of the tables of distributions and of application admins.
use suzuran.Prelude.{
  ℕ, ◌≡◌, ◌≢◌, ◌⊎◌, inl, inr, String, Bool, false, none, List, [], ◌∷◌, ◌++◌, str_eq_iff, All,
  All-filter, All-append_one, find?, find?-none, filter, Bool-cases, arith,
}
use suzuran.Prelude.Result.{ok}
use suzuran.Prelude.Exec.{Ensures, Anything, ◌>>=◌}
use suzuran.Prelude.Exec.Rules.{Ensures-pure, Ensures-bind}
use suzuran.Gorm.{Gorm, IsGorm}
use suzuran.App.Model.{ApplicationDistribution, ApplicationAdmin}
use suzuran.App.Distribution.{
  Db, is_dist, is_admin_row, get_app, get_org, get_bond, get_distribution, get_admin,
  create_distribution, delete_distribution, create_admin, delete_admin, list_admins, distribute_app,
  delete_admins, undistribute_app, set_app_admin, remove_app_admin,
}

-- No two distributions of an application to one organisation.
abbrev pub Distinct : List ApplicationDistribution → Type 0
Distinct [] = Unit
Distinct (d ∷ t) = All (λ x. is_dist x.app_id x.org_id d ≡ false) t × Distinct t

abbrev pub DistinctAdmins : List ApplicationAdmin → Type 0
DistinctAdmins [] = Unit
DistinctAdmins (a ∷ t) =
    All (λ x. is_admin_row x.app_id x.org_id x.user_id a ≡ false) t × DistinctAdmins t

pub record IsSound (s : Db) : Type 0 where
  pub no_provider : All (λ d. d.org_id ≢ 1) s.distributions
  pub distinct : Distinct s.distributions
  pub distinct_admins : DistinctAdmins s.admins

Distinct-filter :
    (p : ApplicationDistribution → Bool) (t : List ApplicationDistribution)
    → Distinct t
    → Distinct (filter p t)
Distinct-filter p [] h = tt
Distinct-filter p (d ∷ t) h = elim (Bool-cases (p d)) [
  | inl e ↦ rw e (All-filter _ p t h.0, Distinct-filter p t h.1)
  | inr e ↦ rw e (Distinct-filter p t h.1)
]

DistinctAdmins-filter :
    (p : ApplicationAdmin → Bool) (t : List ApplicationAdmin)
    → DistinctAdmins t
    → DistinctAdmins (filter p t)
DistinctAdmins-filter p [] h = tt
DistinctAdmins-filter p (d ∷ t) h = elim (Bool-cases (p d)) [
  | inl e ↦ rw e (All-filter _ p t h.0, DistinctAdmins-filter p t h.1)
  | inr e ↦ rw e (DistinctAdmins-filter p t h.1)
]

is_dist_sym :
    (d r : ApplicationDistribution)
    → is_dist r.app_id r.org_id d ≡ false
    → is_dist d.app_id d.org_id r ≡ false
is_dist_sym d r h = ground (arith, str_eq_iff d.app_id r.app_id, str_eq_iff r.app_id d.app_id)

is_admin_row_sym :
    (a r : ApplicationAdmin)
    → is_admin_row r.app_id r.org_id r.user_id a ≡ false
    → is_admin_row a.app_id a.org_id a.user_id r ≡ false
is_admin_row_sym a r h = ground (arith, str_eq_iff a.app_id r.app_id, str_eq_iff r.app_id a.app_id)

Distinct-append_one :
    (t : List ApplicationDistribution) (r : ApplicationDistribution)
    → All (λ d. is_dist r.app_id r.org_id d ≡ false) t
    → Distinct t
    → Distinct (t ++ r ∷ [])
Distinct-append_one [] r new h = (tt, tt)
Distinct-append_one (d ∷ t) r new h =
    (All-append_one _ t r h.0 new.0, Distinct-append_one t r new.1 h.1)

DistinctAdmins-append_one :
    (t : List ApplicationAdmin) (r : ApplicationAdmin)
    → All (λ a. is_admin_row r.app_id r.org_id r.user_id a ≡ false) t
    → DistinctAdmins t
    → DistinctAdmins (t ++ r ∷ [])
DistinctAdmins-append_one [] r new h = (tt, tt)
DistinctAdmins-append_one (a ∷ t) r new h =
    (All-append_one _ t r h.0 new.0, DistinctAdmins-append_one t r new.1 h.1)

module _ (g : Gorm) (law : IsGorm g) where
  -- A distribution is written only for another organisation than the provider's, and only where
  -- there is none.
  distribute_app-cases :
      (app : String) (org : ℕ) (s : Db)
      → ((distribute_app g app org s).1 ≡ s)
        ⊎ ((org ≢ 1)
            × (g.first (is_dist app org) s.distributions ≡ ok none)
            × ((distribute_app g app org s).1 ≡ (create_distribution g app org s).1))
  unfolding distribute_app get_app get_org get_distribution ◌>>=◌
  distribute_app-cases app org s = ground arith

  set_app_admin-cases :
      (app : String) (org user : ℕ) (s : Db)
      → ((set_app_admin g app org user s).1 ≡ s)
        ⊎ ((g.first (is_admin_row app org user) s.admins ≡ ok none)
            × ((set_app_admin g app org user s).1 ≡ (create_admin g app org user s).1))
  unfolding set_app_admin get_distribution get_bond get_admin ◌>>=◌
  set_app_admin-cases app org user s = ground arith

  -- A query that finds nothing.
  first-none :
      {Row : Type 0} (p : Row → Bool) (t : List Row) → g.first p t ≡ ok none → find? p t ≡ none
  first-none p t h = ground (arith, law.first_law p t)

  create_distribution-IsSound :
      (app : String) (org : ℕ) (s : Db)
      → org ≢ 1
      → g.first (is_dist app org) s.distributions ≡ ok none
      → IsSound s
      → IsSound (create_distribution g app org s).1
  unfolding create_distribution
  create_distribution-IsSound app org s ne none_yet h =
      let new = find?-none (is_dist app org) s.distributions (first-none _ _ none_yet) in
      elim (law.create_law (λ d. d.id) (λ n. record { id = n; app_id = app; org_id = org })
        s.distributions) [
          | inl q ↦ rw q h
          | inr q ↦ rw q (record {
            no_provider = All-append_one (λ d. d.org_id ≢ 1) s.distributions _ h.no_provider ne;
            distinct = Distinct-append_one s.distributions _ new h.distinct;
            distinct_admins = h.distinct_admins;
          })
        ]

  create_admin-IsSound :
      (app : String) (org user : ℕ) (s : Db)
      → g.first (is_admin_row app org user) s.admins ≡ ok none
      → IsSound s
      → IsSound (create_admin g app org user s).1
  unfolding create_admin
  create_admin-IsSound app org user s none_yet h =
      let new = find?-none (is_admin_row app org user) s.admins (first-none _ _ none_yet) in
      elim (law.create_law (λ a. a.id)
        (λ n. record { id = n; app_id = app; org_id = org; user_id = user }) s.admins) [
          | inl q ↦ rw q h
          | inr q ↦ rw q (record {
            no_provider = h.no_provider;
            distinct = h.distinct;
            distinct_admins = DistinctAdmins-append_one s.admins _ new h.distinct_admins;
          })
        ]

  distribute_app-IsSound :
      (app : String) (org : ℕ) (s : Db) → IsSound s → IsSound (distribute_app g app org s).1
  distribute_app-IsSound app org s h = elim (distribute_app-cases app org s) [
    | inl q ↦ rw q h
    | inr (ne, none_yet, q) ↦ rw q (create_distribution-IsSound app org s ne none_yet h)
  ]

  set_app_admin-IsSound :
      (app : String) (org user : ℕ) (s : Db)
      → IsSound s
      → IsSound (set_app_admin g app org user s).1
  set_app_admin-IsSound app org user s h = elim (set_app_admin-cases app org user s) [
    | inl q ↦ rw q h
    | inr (none_yet, q) ↦ rw q (create_admin-IsSound app org user s none_yet h)
  ]

  remove_app_admin-IsSound :
      (app : String) (org user : ℕ) (s : Db)
      → IsSound s
      → IsSound (remove_app_admin g app org user s).1
  unfolding remove_app_admin delete_admin
  remove_app_admin-IsSound app org user s h =
      elim (law.delete_law (is_admin_row app org user) s.admins) [
        | inl q ↦ rw q h
        | inr q ↦ rw q (record {
          no_provider = h.no_provider;
          distinct = h.distinct;
          distinct_admins = DistinctAdmins-filter _ s.admins h.distinct_admins;
        })
      ]

  delete_admins-Ensures :
      (app : String) (org : ℕ) (admins : List ApplicationAdmin)
      → Ensures IsSound Anything (delete_admins g app org admins)
  unfolding delete_admins remove_app_admin
  delete_admins-Ensures app org [] = Ensures-pure tt tt
  delete_admins-Ensures app org (a ∷ admins) =
      Ensures-bind {Q = Anything}
        (record { keeps = remove_app_admin-IsSound app org a.user_id; returns = λ s h x q. tt })
        λ _ _. delete_admins-Ensures app org admins

  delete_distribution-IsSound :
      (app : String) (org : ℕ) (s : Db) → IsSound s → IsSound (delete_distribution g app org s).1
  unfolding delete_distribution
  delete_distribution-IsSound app org s h =
      elim (law.delete_law (is_dist app org) s.distributions) [
        | inl q ↦ rw q h
        | inr q ↦ rw q (record {
          no_provider = All-filter (λ d. d.org_id ≢ 1) _ s.distributions h.no_provider;
          distinct = Distinct-filter _ s.distributions h.distinct;
          distinct_admins = h.distinct_admins;
        })
      ]

  undistribute_app-Ensures :
      (app : String) (org : ℕ) → Ensures IsSound Anything (undistribute_app g app org)
  unfolding undistribute_app list_admins
  undistribute_app-Ensures app org =
      Ensures-bind {Q = Anything}
        (record { keeps = delete_distribution-IsSound app org; returns = λ s h x q. tt })
        λ _ _.
          Ensures-bind {Q = Anything} (record { keeps = λ s h. h; returns = λ s h x q. tt })
            λ admins _. delete_admins-Ensures app org admins

-- The calls that write, by any callers in any order.
pub data Call : Type 0 where
  distribute undistribute : String → ℕ → Call
  set_admin remove_admin : String → ℕ → ℕ → Call

unfoldable pub perform : Gorm → Call → Db → Db
perform g (distribute app org) s = (distribute_app g app org s).1
perform g (undistribute app org) s = (undistribute_app g app org s).1
perform g (set_admin app org user) s = (set_app_admin g app org user s).1
perform g (remove_admin app org user) s = (remove_app_admin g app org user s).1

abbrev pub replay : Gorm → List Call → Db → Db
replay g [] s = s
replay g (c ∷ calls) s = replay g calls (perform g c s)

perform-IsSound :
    (g : Gorm) (law : IsGorm g) (c : Call) (s : Db) → IsSound s → IsSound (perform g c s)
unfolding perform
perform-IsSound g law (distribute app org) s = distribute_app-IsSound g law app org s
perform-IsSound g law (undistribute app org) s = (undistribute_app-Ensures g law app org).keeps s
perform-IsSound g law (set_admin app org user) s = set_app_admin-IsSound g law app org user s
perform-IsSound g law (remove_admin app org user) s = remove_app_admin-IsSound g law app org user s

-- Whatever calls are made and whichever statements the database refuses: if no application was
-- distributed to the provider's organisation, none was twice to one organisation and nobody was
-- twice admin of one application there, so it stays.
pub replay-IsSound :
    (g : Gorm) (law : IsGorm g) (calls : List Call) (s : Db)
    → IsSound s
    → IsSound (replay g calls s)
replay-IsSound g law [] s h = h
replay-IsSound g law (c ∷ calls) s h =
    replay-IsSound g law calls (perform g c s) (perform-IsSound g law c s h)
