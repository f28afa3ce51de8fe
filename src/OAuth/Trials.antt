-- ===== src/OAuth/Trials.antt =====
-- A user with a password in two organisations, and the theorem of the login at them.
use suzuran.Prelude.{ℕ, ◌≡◌, ◌⊎◌, refl, String, true, false, none, some, [], ◌∷◌, str_eq}
use suzuran.Prelude.Error.{Error}
use suzuran.Prelude.Result.{ok, err}
use suzuran.Prelude.Exec.{◌>>=◌}
use suzuran.Gorm.Memory.{memory, memory-IsGorm}
use suzuran.Org.Model.{User, OrgUserBond}
use suzuran.Org.Tables.{Env, get_user_by_username}
use suzuran.OAuth.Tables.{store_login}
use suzuran.OAuth.Password.{
  Store, authenticate, available_orgs, login, IsAuthentic, with_login, login-Outcome,
}

abbrev env : Env
env = record {
  gorm = memory;
  bytes = λ t. [];
  trim_space = λ t. t;
  to_lower = λ t. t;
  bcrypt = λ p. some p;
}

abbrev user : User
user = record {
  id = 7;
  phone = "70";
  email = "";
  email_verified = false;
  name = "";
  avatar_url = "";
  position = "";
  username = some "mia";
  password_hash = some "secret";
  dingtalk_user_id = none;
  dingtalk_union_id = none;
  dingtalk_open_id = none;
  is_active = true;
}

abbrev bond : ℕ → ℕ → OrgUserBond
bond id org = record {
  id = id;
  org_id = org;
  user_id = 7;
  department_id = none;
  is_admin = false;
  is_department_manager = false;
}

abbrev store : Store
store = record {
  users = user ∷ [];
  orgs = [];
  oauth = record {
    clients = [];
    sessions = [];
    tokens = [];
    bonds = bond 1 2 ∷ bond 2 3 ∷ [];
    logins = [];
  };
}

login-Outcome_example :
    ((x : Error) × (login env str_eq 100 (ok "key") "mia" "secret" store ≡ (err x, store)))
    ⊎ ((u : User) × (id : String) × IsAuthentic env str_eq "mia" "secret" store u
        × (ok "key" ≡ ok id)
        × (login env str_eq 100 (ok "key") "mia" "secret" store
            ≡ (ok id, with_login env str_eq 100 id u store)))
login-Outcome_example = login-Outcome env str_eq memory-IsGorm 100 (ok "key") "mia" "secret" store

-- The login succeeds.
mia_logs_in :
    login env str_eq 100 (ok "key") "mia" "secret" store
    ≡ (ok "key", with_login env str_eq 100 "key" user store)
unfolding login authenticate available_orgs store_login get_user_by_username ◌>>=◌
mia_logs_in = refl
