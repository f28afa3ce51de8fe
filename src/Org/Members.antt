-- ===== src/Org/Members.antt =====
-- backend/internal/service/user_service.go, with internal/pkg/username and internal/pkg/password.
pub mod Rules
pub mod Admission
pub mod Demotion
use suzuran.Prelude.{
  map, ℕ, suc, String, Bool, true, false, not, ◌&&◌, ◌||◌, Option, none, some, List, [], ◌∷◌,
  length, str_eq, ltb, leb, ◌==◌, if◌then◌else◌,
}
use suzuran.Prelude.Error.{
  Error, username_required, bad_username, username_taken, short_password, bad_hash,
  member_not_found, user_not_found, self_removal, bonds_unavailable, last_admin,
}
use suzuran.Prelude.Result.{Result, ok, err}
use suzuran.Prelude.Exec.{Exec, pure, raise, lift, require, raise_if, ◌>>=◌, ◌>>◌}
use suzuran.Gorm.{Gorm}
use suzuran.Org.Model.{User, OrgUserBond}
use suzuran.Org.Tables.{
  get_bonds_with_users, Env, Db, in_bond, create_user, get_user, get_user_by_phone,
  get_user_by_username, save_user, update_password, create_bond, get_bond, get_bonds_of_org,
  save_bond, delete_bond,
}

pub record MemberView : Type 0 where
  pub user_id : ℕ
  pub phone : String
  pub name : String
  pub email : String
  pub username : Option String
  pub position : String
  pub bond_id : ℕ
  pub is_admin : Bool
  pub is_department_manager : Bool
  pub department_id : Option ℕ

abbrev is_letter : ℕ → Bool
is_letter c = leb b'a' c && leb c b'z'

abbrev all_name_bytes : List ℕ → Bool
all_name_bytes [] = true
all_name_bytes (c ∷ t) = (is_letter c || c == b'-') && all_name_bytes t

-- `^[a-z][a-z-]{2,49}$`
unfoldable pub matches_pattern : List ℕ → Bool
matches_pattern [] = false
matches_pattern (c ∷ t) = is_letter c && all_name_bytes t && leb 2 (length t) && leb (length t) 49

-- The loop of RemoveMember: whether the user is one of the admins, and how many admins there are.
unfoldable pub tally : ℕ → List OrgUserBond → Bool → ℕ → Bool × ℕ
tally user [] target count = (target, count)
tally user (b ∷ bonds) target count =
    if b.is_admin
    then tally user bonds (target || b.user_id == user) (suc count)
    else tally user bonds target count

abbrev pub is_last_admin : Bool × ℕ → Bool
is_last_admin (target, count) = target && leb count 1

-- a field that the request may leave out
abbrev pub or_text : String → String → String
or_text old new = if str_eq new "" then old else new

abbrev pub or_old {ℓ} : {A : Type ℓ} → A → Option A → A
or_old old none = old
or_old old (some new) = new

abbrev pub or_kept {ℓ} : {A : Type ℓ} → Option A → Option A → Option A
or_kept old none = old
or_kept old (some new) = some new

module _ (e : Env) where
  -- username.Normalize and username.Validate
  abbrev pub normalize : String → String
  normalize u = e.to_lower (e.trim_space u)

  unfoldable pub validate_username : String → Result (Unit {0})
  validate_username u =
      if str_eq u ""
      then err username_required
      else if matches_pattern (e.bytes u)
      then ok tt
      else err bad_username

  -- password.Hash
  unfoldable pub hash_password : String → Result String
  hash_password p =
      if ltb (length (e.bytes p)) 6
      then err short_password
      else elim (e.bcrypt p) [ none ↦ err bad_hash | some h ↦ ok h ]

  -- UserService

  abbrev pub member_view : OrgUserBond → User → MemberView
  member_view b u = record {
    user_id = u.id;
    phone = u.phone;
    name = u.name;
    email = u.email;
    username = u.username;
    position = u.position;
    bond_id = b.id;
    is_admin = b.is_admin;
    is_department_manager = b.is_department_manager;
    department_id = b.department_id;
  }

  -- the view of a bond and of its user, whose fields stay empty if there is none
  abbrev pub bond_view : OrgUserBond × Option User → MemberView
  bond_view (b, some u) = record (member_view b u) { user_id = b.user_id }
  bond_view (b, none) = record {
    user_id = b.user_id;
    phone = "";
    name = "";
    email = "";
    username = none;
    position = "";
    bond_id = b.id;
    is_admin = b.is_admin;
    is_department_manager = b.is_department_manager;
    department_id = b.department_id;
  }

  unfoldable pub list_members : ℕ → Exec Db (List MemberView)
  list_members org = do rows ← get_bonds_with_users e org; pure (map bond_view rows)

  -- A query that fails counts as a name that is taken: the repository returns a record beside the
  -- error, and the service drops the error.
  abbrev pub is_taken : Result (Option User) → Bool
  is_taken (ok none) = false
  is_taken _ = true

  abbrev pub user_or_not_found : Result (Option User) → Result User
  user_or_not_found (ok (some u)) = ok u
  user_or_not_found _ = err user_not_found

  abbrev pub or_unavailable : Result (List OrgUserBond) → Result (List OrgUserBond)
  or_unavailable (ok bonds) = ok bonds
  or_unavailable (err x) = err bonds_unavailable

  unfoldable pub add_bond : ℕ → Bool → Option ℕ → Bool → User → Exec Db MemberView
  add_bond org is_admin dept is_manager user = do
    bond ← create_bond e (λ n. record {
      id = n;
      org_id = org;
      user_id = user.id;
      department_id = dept;
      is_admin = is_admin;
      is_department_manager = is_manager;
    })
    pure (member_view bond user)

  unfoldable pub create_new_user :
      String → String → String → String → String → String → Exec Db User
  create_new_user phone name email username plaintext position = do
    let uname = normalize username
    lift (validate_username uname)
    taken ← (λ s. (ok (is_taken (get_user_by_username e uname s).0), s))
    raise_if taken username_taken
    hash ← lift (hash_password plaintext)
    create_user e (λ n. record {
      id = n;
      phone = phone;
      email = email;
      email_verified = false;
      name = name;
      avatar_url = "";
      position = position;
      username = some uname;
      password_hash = some hash;
      dingtalk_user_id = none;
      dingtalk_union_id = none;
      dingtalk_open_id = none;
      is_active = true;
    })

  -- A user with the phone number of the request: a bond that is there is returned as it is.
  unfoldable pub join_org :
      ℕ → Bool → Option ℕ → Bool → User → Option OrgUserBond → Exec Db MemberView
  join_org org is_admin dept is_manager user (some bond) = pure (member_view bond user)
  join_org org is_admin dept is_manager user none = add_bond org is_admin dept is_manager user

  unfoldable pub create_member :
      ℕ
      → String
      → String
      → String
      → String
      → String
      → String
      → Bool
      → Option ℕ
      → Bool
      → Exec Db MemberView
  create_member org phone name email username plaintext position is_admin dept is_manager = do
    existing ← get_user_by_phone e phone
    elim existing [
      | none ↦ (do
        user ← create_new_user phone name email username plaintext position
        add_bond org is_admin dept is_manager user)
      | some user ↦ (do
        bond ← get_bond e org user.id
        join_org org is_admin dept is_manager user bond)
    ]

  unfoldable pub update_member :
      ℕ → ℕ → String → String → String → Option Bool → Option ℕ → Option Bool → Exec Db MemberView
  update_member org user_id name email position is_admin dept is_manager = do
    found ← get_bond e org user_id
    bond ← require member_not_found found
    held ← get_user e user_id
    user ← require user_not_found held
    let u = record user {
      name = or_text user.name name;
      email = or_text user.email email;
      position = or_text user.position position;
    }
    save_user e u
    let b = record bond {
      is_admin = or_old bond.is_admin is_admin;
      is_department_manager = or_old bond.is_department_manager is_manager;
      department_id = or_kept bond.department_id dept;
    }
    save_bond e b
    pure (member_view b u)

  unfoldable pub remove_member : ℕ → ℕ → ℕ → Exec Db (Unit {0})
  remove_member org user current = do
    λ s. (user_or_not_found (get_user e user s).0, s)
    raise_if (user == current) self_removal
    bonds ← (λ s. (or_unavailable (get_bonds_of_org e org s).0, s))
    raise_if (is_last_admin (tally user bonds false 0)) last_admin
    delete_bond e org user

  unfoldable pub reset_password : ℕ → String → Exec Db (Unit {0})
  reset_password user plaintext = do
    λ s. (user_or_not_found (get_user e user s).0, s)
    hash ← lift (hash_password plaintext)
    update_password e user hash
