-- ===== src/Org/Examples.antt =====
-- An organisation with two admins, and the theorems of its members at it.
use suzuran.Prelude.{
  List, ℕ, ◌≡◌, ◌≢◌, ◌⊎◌, ◌≤◌, refl, String, Bool, true, false, none, some, [], ◌∷◌, All, arith,
}
use suzuran.Prelude.Result.{err, ok}
use suzuran.Prelude.Error.{Error}
use suzuran.Prelude.Exec.{◌>>=◌}
use suzuran.Gorm.{delete_where}
use suzuran.Gorm.Memory.{memory, memory-IsGorm}
use suzuran.Org.Model.{Org, User, OrgUserBond}
use suzuran.Org.Members.{
  MemberView, tally, remove_member, update_member, matches_pattern, validate_username,
  hash_password, create_new_user, add_bond, create_member, member_view,
}
use suzuran.Org.Tables.{
  Env, Db, in_bond, get_user, get_bonds_of_org, delete_bond, create_user, create_bond,
  get_user_by_phone, get_user_by_username,
}
use suzuran.Org.Members.Rules.{admin_count, remove_member_leaves_admin, remove_member_removes}
use suzuran.Org.Members.Demotion.{update_member_demotes}
use suzuran.Org.Members.Admission.{IsMemberView, create_member-IsMemberView}

abbrev env : Env
env = record {
  gorm = memory;
  bytes = λ t. b'a' ∷ b'd' ∷ b'-' ∷ b'm' ∷ b'i' ∷ b'n' ∷ [];
  trim_space = λ t. t;
  to_lower = λ t. t;
  bcrypt = λ p. some p;
}

abbrev user : ℕ → String → User
user id phone = record {
  id = id;
  phone = phone;
  email = "";
  email_verified = false;
  name = "";
  avatar_url = "";
  position = "";
  username = none;
  password_hash = none;
  dingtalk_user_id = none;
  dingtalk_union_id = none;
  dingtalk_open_id = none;
  is_active = true;
}

abbrev bond : ℕ → ℕ → Bool → OrgUserBond
bond id user is_admin = record {
  id = id;
  org_id = 2;
  user_id = user;
  department_id = none;
  is_admin = is_admin;
  is_department_manager = false;
}

abbrev db : Db
db = record { users = user 7 "70" ∷ user 8 "80" ∷ []; bonds = bond 1 7 true ∷ bond 2 8 true ∷ [] }

abbrev one_admin : Db
one_admin = record db { bonds = bond 1 7 true ∷ bond 2 8 false ∷ [] }

remove_member_leaves_admin_example : 1 ≤ admin_count 2 (remove_member env 2 8 7 db).1.bonds
remove_member_leaves_admin_example =
    remove_member_leaves_admin env memory-IsGorm 2 8 7 db ((refl, tt), (tt, tt)) (omega arith)

removes : (remove_member env 2 8 7 db).0 ≡ ok tt
unfolding remove_member get_user get_bonds_of_org tally delete_bond ◌>>=◌
removes = refl

remove_member_removes_example :
    ((user 8 "80").id ≢ 7)
    × All (λ b. in_bond 2 8 b ≡ false) (remove_member env 2 8 7 db).1.bonds
    × ((remove_member env 2 8 7 db).1 ≡ record db { bonds = delete_where (in_bond 2 8) db.bonds })
remove_member_removes_example = remove_member_removes env memory-IsGorm 2 8 7 db removes

update_member_demotes_example :
    ((update_member env 2 7 "" "" "" (some false) none none one_admin).0 ≡ err Error.db)
    ⊎ ((v : MemberView) × ((update_member env 2 7 "" "" "" (some false) none none one_admin).0
          ≡ ok v)
        × (admin_count 2 (update_member env 2 7 "" "" "" (some false) none none one_admin).1.bonds
            ≡ 0))
update_member_demotes_example =
    update_member_demotes env memory-IsGorm 2 7 "" "" "" none none one_admin (bond 1 7 true)
      (user 7 "70") (omega arith) ((refl, tt), (tt, tt)) ((λ h. refl), ((λ h. ground arith), tt))
      refl refl

abbrev entered : MemberView
entered = member_view env (bond 3 9 false) (record (user 9 "90") {
  name = "New";
  username = some "newcomer";
  password_hash = some "secret";
})

enters :
    (create_member env 2 "90" "New" "" "newcomer" "secret" "" false none false db).0 ≡ ok entered
unfolding create_member get_user_by_phone create_new_user validate_username matches_pattern
    get_user_by_username hash_password create_user add_bond create_bond ◌>>=◌
enters = refl

create_member-IsMemberView_example :
    IsMemberView 2
      (create_member env 2 "90" "New" "" "newcomer" "secret" "" false none false db).1
      entered
create_member-IsMemberView_example =
    create_member-IsMemberView env memory-IsGorm 2 false none false "90" "New" "" "newcomer"
      "secret" "" db entered (omega arith) enters

abbrev orgs : List Org
orgs = record { id = 1; name = "provider"; description = "" } ∷ []
