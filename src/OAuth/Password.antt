-- ===== src/OAuth/Password.antt =====
-- The login with a password: backend/internal/oauth/password_service.go, with Verify of
-- backend/internal/pkg/password/password.go as the parameter `verify`. Verify against a dummy hash,
-- for a user who is not there, changes nothing but the time.
use suzuran.Prelude.{
  ℕ, ◌+◌, ◌*◌, ◌≡◌, ◌⊎◌, inl, inr, refl, sym, ap, ◌∙◌, String, Bool, true, false, Option, none,
  some, List, [], ◌∷◌, filter, find?, str_eq, ◌==◌, if◌then◌else◌, Bool-cases, arith,
}
use suzuran.Prelude.Error.{Error, invalid_credentials}
use suzuran.Prelude.Result.{Result, Result-cases, ok, err, ok-injective}
use suzuran.Prelude.Exec.{Exec, pure, lift, ◌>>=◌, ◌>>◌}
use suzuran.Gorm.{IsGorm}
use suzuran.Org.Model.{Org, User, OrgUserBond}
use suzuran.Org.Tables.{Env, has_username, get_user_by_username}
use suzuran.Org.Directory.{get_org_row}
use suzuran.OAuth.Model.{LoginEntry, Db}
use suzuran.OAuth.Tables.{store_login, delete_login}
use suzuran.OAuth.{second}

pub record OrgChoice : Type 0 where
  pub org_id : ℕ
  pub org_name : String
  pub is_admin : Bool

-- the users and the organisations beside the store of the OAuth service, which has the bonds
pub record Store : Type 0 where
  pub users : List User
  pub orgs : List Org
  pub oauth : Db

abbrev name_of : Result (Option Org) → String
name_of (ok (some o)) = o.name
name_of _ = ""

abbrev org_ids : List OrgChoice → List ℕ
org_ids [] = []
org_ids (c ∷ t) = c.org_id ∷ org_ids t

abbrev pub bonds_of : ℕ → OrgUserBond → Bool
bonds_of user b = b.user_id == user

module _ (e : Env) (verify : String → String → Bool) where
  -- the checks of Login upon the user that the query found
  abbrev verified : String → User → Option String → Result User
  verified plaintext u none = err invalid_credentials
  verified plaintext u (some hash) =
      if str_eq hash ""
      then err invalid_credentials
      else if verify plaintext hash
      then ok u
      else err invalid_credentials

  abbrev check_user : String → Result (Option User) → Result User
  check_user plaintext (ok (some u)) =
      if u.is_active then verified plaintext u u.password_hash else err invalid_credentials
  check_user plaintext _ = err invalid_credentials

  unfoldable pub authenticate : String → String → Exec Store User
  authenticate username plaintext s = (
    check_user plaintext
        (get_user_by_username e username (record { users = s.users; bonds = s.oauth.bonds })).0,
    s,
  )

  abbrev choices : List Org → List OrgUserBond → List OrgChoice
  choices orgs [] = []
  choices orgs (b ∷ bonds) =
      record {
        org_id = b.org_id;
        org_name = name_of (get_org_row e.gorm b.org_id orgs).0;
        is_admin = b.is_admin;
      }
      ∷ choices orgs bonds

  abbrev offered : List Org → Result (List OrgUserBond) → Result (List OrgChoice)
  offered orgs (err x) = err x
  offered orgs (ok bonds) = ok (choices orgs bonds)

  unfoldable pub available_orgs : ℕ → Exec Store (List OrgChoice)
  available_orgs user s = (offered s.orgs (e.gorm.find (bonds_of user) s.oauth.bonds), s)

  abbrev pub login_entry : ℕ → String → ℕ → List OrgChoice → LoginEntry
  login_entry now id user orgs = record {
    key = id;
    user_id = user;
    available_orgs = org_ids orgs;
    expires_at = now + 300 * second;
  }

  abbrev store_entry : LoginEntry → Exec Store (Unit {0})
  store_entry l s = let (r, t) = store_login l s.oauth in (r, record s { oauth = t })

  unfoldable pub login : ℕ → Result String → String → String → Exec Store String
  login now random username plaintext = do
    user ← authenticate username plaintext
    orgs ← available_orgs user.id
    id ← lift random
    store_entry (login_entry now id user.id orgs)
    pure id

  -- the organisations of the bonds
  abbrev pub orgs_of : List OrgUserBond → List ℕ
  orgs_of [] = []
  orgs_of (b ∷ bonds) = b.org_id ∷ orgs_of bonds

  org_ids-choices :
      (orgs : List Org) (bonds : List OrgUserBond) → org_ids (choices orgs bonds) ≡ orgs_of bonds
  org_ids-choices orgs [] = refl
  org_ids-choices orgs (b ∷ bonds) = ap (λ t. b.org_id ∷ t) (org_ids-choices orgs bonds)

  -- The user with the name, active, whose stored hash the password meets.
  pub record IsAuthentic (username plaintext : String) (s : Store) (u : User) : Type 0 where
    pub found : find? (has_username e username) s.users ≡ some u
    pub active : u.is_active ≡ true
    pub hash : String
    pub stored : u.password_hash ≡ some hash
    pub not_empty : str_eq hash "" ≡ false
    pub met : verify plaintext hash ≡ true

  verified-ok :
      (plaintext : String) (u v : User) (h : Option String)
      → verified plaintext u h ≡ ok v
      → (u ≡ v)
        × (hash : String) × (h ≡ some hash)
        × (str_eq hash "" ≡ false)
        × (verify plaintext hash ≡ true)
  verified-ok plaintext u v none q = cc
  verified-ok plaintext u v (some hash) q = elim (Bool-cases (str_eq hash "")) [
    | inl p ↦ let bad : ⊥ = ground (arith, rw p at q) in absurd bad
    | inr p ↦ elim (Bool-cases (verify plaintext hash)) [
      | inl m ↦ (ok-injective (sym (rw (p, m) refl) ∙ q), hash, refl, p, m)
      | inr m ↦ let bad : ⊥ = ground (arith, rw (p, m) at q) in absurd bad
    ]
  ]

  check_user-ok :
      (plaintext : String) (found : Option User) (v : User)
      → check_user plaintext (ok found) ≡ ok v
      → (found ≡ some v)
        × (v.is_active ≡ true)
        × (hash : String) × (v.password_hash ≡ some hash)
        × (str_eq hash "" ≡ false)
        × (verify plaintext hash ≡ true)
  check_user-ok plaintext none v q = cc
  check_user-ok plaintext (some u) v q = elim (Bool-cases u.is_active) [
    | inr p ↦ let bad : ⊥ = ground (arith, rw p at q) in absurd bad
    | inl p ↦
        let (same, hash, stored, n, m) =
          verified-ok plaintext u v u.password_hash (sym (rw p refl) ∙ q) in
        (
          ap (λ t. some t) same,
          ap (λ (t : User). t.is_active) (sym same) ∙ p,
          hash,
          ap (λ (t : User). t.password_hash) (sym same) ∙ stored,
          n,
          m,
        )
  ]

  authenticate-IsAuthentic :
      (law : IsGorm e.gorm) (username plaintext : String) (s : Store) (u : User)
      → (authenticate username plaintext s).0 ≡ ok u
      → IsAuthentic username plaintext s u
  unfolding authenticate get_user_by_username
  authenticate-IsAuthentic law username plaintext s u q =
      elim (law.first_law (has_username e username) s.users) [
        | inl p ↦ let bad : ⊥ = ground (arith, rw p at q) in absurd bad
        | inr p ↦
            let (found, active, hash, stored, not_empty, met) =
              check_user-ok plaintext (find? (has_username e username) s.users) u
                (sym (rw p refl) ∙ q) in
            record {
              found = found;
              active = active;
              hash = hash;
              stored = stored;
              not_empty = not_empty;
              met = met;
            }
      ]

  available_orgs-ok :
      (law : IsGorm e.gorm) (user : ℕ) (s : Store) (orgs : List OrgChoice)
      → (available_orgs user s).0 ≡ ok orgs
      → org_ids orgs ≡ orgs_of (filter (bonds_of user) s.oauth.bonds)
  unfolding available_orgs
  available_orgs-ok law user s orgs q = elim (law.find_law (bonds_of user) s.oauth.bonds) [
    | inl p ↦ let bad : ⊥ = ground (arith, rw p at q) in absurd bad
    | inr p ↦
        ap org_ids (sym (ok-injective (sym (rw p refl) ∙ q)))
        ∙ org_ids-choices s.orgs (filter (bonds_of user) s.oauth.bonds)
  ]

  -- the store after a login of the user under the identifier
  abbrev pub with_login : ℕ → String → User → Store → Store
  with_login now id u s = record s {
    oauth = record s.oauth {
      logins =
          record {
            key = id;
            user_id = u.id;
            available_orgs = orgs_of (filter (bonds_of u.id) s.oauth.bonds);
            expires_at = now + 300 * second;
          }
          ∷ delete_login id s.oauth.logins;
    };
  }

  -- Login either fails and changes nothing; or the user with this name is active, the password meets
  -- the stored hash, which is not empty, and exactly one login session is stored, under the identifier
  -- that the random source gave and that is returned: for this user, for the organisations of all their
  -- bonds, and for five minutes.
  pub login-Outcome :
      (law : IsGorm e.gorm) (now : ℕ) (random : Result String) (username plaintext : String)
      (s : Store)
      → ((x : Error) × (login now random username plaintext s ≡ (err x, s)))
        ⊎ ((u : User) × (id : String) × IsAuthentic username plaintext s u
            × (random ≡ ok id)
            × (login now random username plaintext s ≡ (ok id, with_login now id u s)))
  unfolding login authenticate available_orgs store_login ◌>>=◌
  login-Outcome law now random username plaintext s =
      elim (Result-cases (authenticate username plaintext s).0) [
        | inr (x, q) ↦ inl (x, rw q refl)
        | inl (u, q) ↦ elim (Result-cases (available_orgs u.id s).0) [
          | inr (x, p) ↦ inl (x, rw (q, p) refl)
          | inl (orgs, p) ↦ elim (Result-cases random) [
            | inr (x, r) ↦ inl (x, rw (q, p, r) refl)
            | inl (id, r) ↦ inr (
              u,
              id,
              authenticate-IsAuthentic law username plaintext s u q,
              r,
              rw (q, p, r, sym (available_orgs-ok law u.id s orgs p)) refl,
            )
          ]
        ]
      ]
