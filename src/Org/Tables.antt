-- ===== src/Org/Tables.antt =====
-- The tables of users and bonds: backend/internal/repository/user_repository.go and
-- org_user_bond_repository.go.
use suzuran.Prelude.{
  find?, ◌||◌, [], ◌∷◌, ℕ, String, Bool, false, ◌&&◌, Option, none, some, List, str_eq, ◌==◌,
}
use suzuran.Prelude.Exec.{Exec, pure, ◌>>=◌}
use suzuran.Gorm.{Gorm}
use suzuran.Org.Model.{User, OrgUserBond}

-- The database, and what the service uses of Go's `strings` and of bcrypt. `bytes` are the bytes
-- of a string.
pub record Env : Type 1 where
  pub gorm : Gorm
  pub bytes : String → List ℕ
  pub trim_space : String → String
  pub to_lower : String → String
  pub bcrypt : String → Option String

pub record Db : Type 0 where
  pub users : List User
  pub bonds : List OrgUserBond

abbrev pub in_bond : ℕ → ℕ → OrgUserBond → Bool
in_bond org user b = b.org_id == org && b.user_id == user

-- the rows of users that belong to the bonds
abbrev owns : List OrgUserBond → User → Bool
owns [] u = false
owns (b ∷ bonds) u = b.user_id == u.id || owns bonds u

-- each bond with its user, if there is one
abbrev attach : List User → List OrgUserBond → List (OrgUserBond × Option User)
attach users [] = []
attach users (b ∷ bonds) = (b, find? (λ u. u.id == b.user_id) users) ∷ attach users bonds

module _ (e : Env) where
  -- UserRepository

  unfoldable pub create_user : (ℕ → User) → Exec Db User
  create_user mk s =
      let (r, t) = e.gorm.create (λ u. u.id) mk s.users in (r, record s { users = t })

  unfoldable pub get_user : ℕ → Exec Db (Option User)
  get_user id s = (e.gorm.first (λ u. u.id == id) s.users, s)

  unfoldable pub get_user_by_phone : String → Exec Db (Option User)
  get_user_by_phone phone s = (e.gorm.first (λ u. str_eq u.phone phone) s.users, s)

  abbrev pub has_username : String → User → Bool
  has_username name u = elim u.username [ none ↦ false | some n ↦ str_eq n name ]

  unfoldable pub get_user_by_username : String → Exec Db (Option User)
  get_user_by_username name s = (e.gorm.first (has_username name) s.users, s)

  unfoldable pub save_user : User → Exec Db (Unit {0})
  save_user u s =
      let (r, t) = e.gorm.save (λ (u : User). u.id) u s.users in (r, record s { users = t })

  unfoldable pub update_password : ℕ → String → Exec Db (Unit {0})
  update_password id hash s =
      let (r, t) =
        e.gorm.update (λ u. u.id == id) (λ u. record u { password_hash = some hash }) s.users in
      (r, record s { users = t })

  -- OrgUserBondRepository

  unfoldable pub create_bond : (ℕ → OrgUserBond) → Exec Db OrgUserBond
  create_bond mk s =
      let (r, t) = e.gorm.create (λ b. b.id) mk s.bonds in (r, record s { bonds = t })

  unfoldable pub get_bond : ℕ → ℕ → Exec Db (Option OrgUserBond)
  get_bond org user s = (e.gorm.first (in_bond org user) s.bonds, s)

  unfoldable pub get_bonds_of_org : ℕ → Exec Db (List OrgUserBond)
  get_bonds_of_org org s = (e.gorm.find (λ b. b.org_id == org) s.bonds, s)

  -- GetByOrgIDWithUsers: the preload is a second query.
  unfoldable pub get_bonds_with_users : ℕ → Exec Db (List (OrgUserBond × Option User))
  get_bonds_with_users org = do
    bonds ← get_bonds_of_org org
    users ← (λ s. (e.gorm.find (owns bonds) s.users, s))
    pure (attach users bonds)

  unfoldable pub save_bond : OrgUserBond → Exec Db (Unit {0})
  save_bond b s =
      let (r, t) = e.gorm.save (λ (b : OrgUserBond). b.id) b s.bonds in (r, record s { bonds = t })

  unfoldable pub delete_bond : ℕ → ℕ → Exec Db (Unit {0})
  delete_bond org user s =
      let (r, t) = e.gorm.delete (in_bond org user) s.bonds in (r, record s { bonds = t })
