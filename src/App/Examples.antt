-- ===== src/App/Examples.antt =====
-- One application in two organisations, and the theorems of its distribution at it.
use suzuran.Prelude.{ℕ, ◌≡◌, refl, false, none, List, [], ◌∷◌}
use suzuran.Prelude.Int.{pos}
use suzuran.Prelude.Result.{ok}
use suzuran.Prelude.Exec.{◌>>=◌}
use suzuran.Gorm.Memory.{memory, memory-IsGorm}
use suzuran.Org.Model.{OrgUserBond}
use suzuran.App.Model.{Application}
use suzuran.App.Distribution.{
  Db, get_app, get_org, get_bond, get_distribution, get_admin, create_distribution, create_admin,
  delete_distribution, delete_admin, list_admins, delete_admins, distribute_app, set_app_admin,
  undistribute_app,
}
use suzuran.App.Distribution.Invariant.{
  IsSound, Call, distribute, set_admin, perform, replay, replay-IsSound,
}
use suzuran.App.Distribution.Withdrawal.{Withdrawn, undistribute_app_clears}

abbrev crm : Application
crm = record {
  id = "crm";
  org_id = 1;
  name = "CRM";
  version = "1.0";
  runtime = "node";
  entrypoint = "index.js";
  port = pos 3000;
  cpu_quota = "";
  memory_quota = "";
  db_conn_quota = 5;
  mcp_scopes = [];
  source_key = "";
  status = "running";
  container_id = "";
  oauth_token = "";
}

abbrev bond : ℕ → ℕ → ℕ → OrgUserBond
bond id org user = record {
  id = id;
  org_id = org;
  user_id = user;
  department_id = none;
  is_admin = false;
  is_department_manager = false;
}

-- User 7 belongs to organisations 2 and 1, user 8 to organisation 3.
abbrev db : Db
db = record {
  apps = crm ∷ [];
  orgs =
      record { id = 2; name = "two"; description = "" }
      ∷ record { id = 3; name = "three"; description = "" }
      ∷ [];
  users = [];
  bonds = bond 1 2 7 ∷ bond 2 3 8 ∷ bond 3 1 7 ∷ [];
  distributions = [];
  admins = [];
}

abbrev setup : List Call
setup =
    distribute "crm" 2
    ∷ distribute "crm" 2
    ∷ distribute "crm" 3
    ∷ set_admin "crm" 2 7
    ∷ set_admin "crm" 2 8
    ∷ set_admin "crm" 3 8
    ∷ []

abbrev ready : Db
ready = record db {
  distributions =
      record { id = 1; app_id = "crm"; org_id = 2 }
      ∷ record { id = 2; app_id = "crm"; org_id = 3 }
      ∷ [];
  admins =
      record { id = 1; app_id = "crm"; org_id = 2; user_id = 7 }
      ∷ record { id = 2; app_id = "crm"; org_id = 3; user_id = 8 }
      ∷ [];
}

-- The second distribution to organisation 2 and the admin who is no member there are refused.
replay-setup : replay memory setup db ≡ ready
unfolding perform distribute_app set_app_admin get_app get_org get_bond get_distribution get_admin
    create_distribution create_admin ◌>>=◌
replay-setup = refl

replay-IsSound_example : IsSound (replay memory setup db)
replay-IsSound_example =
    replay-IsSound memory memory-IsGorm setup db
      (record { no_provider = tt; distinct = tt; distinct_admins = tt })

withdraws : (undistribute_app memory "crm" 2 ready).0 ≡ ok tt
unfolding undistribute_app delete_distribution list_admins delete_admins delete_admin ◌>>=◌
withdraws = refl

undistribute_app_clears_example :
    Withdrawn memory memory-IsGorm "crm" 2 ready (undistribute_app memory "crm" 2 ready).1
undistribute_app_clears_example =
    undistribute_app_clears memory memory-IsGorm "crm" 2 ready withdraws
