-- ===== src/DingTalk/Examples.antt =====
-- Two departments of DingTalk that share a user, and the theorem of the counts at them.
use suzuran.Prelude.{◌≡◌, refl, ◌==◌, String, some, List, [], ◌∷◌, length, if◌then◌else◌}
use suzuran.Prelude.Result.{ok}
use suzuran.Prelude.Exec.{ignoring, ◌>>=◌}
use suzuran.Gorm.Memory.{memory}
use suzuran.Org.Tables.{Env, create_user, get_bond, create_bond}
use suzuran.Org.Departments.Service.{create_dept, get_by_ding_talk_dept_id}
use suzuran.DingTalk.Model.{SourceDepartment, DeptUser, Source, SyncStats, Messages, Store}
use suzuran.DingTalk.Sync.{
  create_log, update_log, get_by_ding_talk_user_id, sync_departments, upsert_user, upsert_bond,
  sync_dept_users, sync_users, do_sync, sync_organization,
}
use suzuran.DingTalk.Counts.{distinct, listed, sync_organization_counts}

abbrev pub env : Env
env = record {
  gorm = memory;
  bytes = λ t. [];
  trim_space = λ t. t;
  to_lower = λ t. t;
  bcrypt = λ p. some p;
}

abbrev messages : Messages
messages = record { failure = λ x. "failed"; success = λ stats. "synced" }

abbrev du : String → DeptUser
du id = record {
  user_id = id;
  union_id = "";
  name = "";
  email = "";
  mobile = "";
  avatar_url = "";
  title = "";
}

abbrev source : Source
source = record {
  list_departments = ok (
      record { id = 1; name = "one"; parent_id = 0 }
      ∷ record { id = 2; name = "two"; parent_id = 1 }
      ∷ []);
  list_users_by_dept = λ n. if n == 1 then ok (du "a" ∷ du "" ∷ []) else ok (du "b" ∷ du "a" ∷ []);
}

abbrev store : Store
store = record { members = record { users = []; bonds = [] }; departments = []; logs = [] }

abbrev reported : SyncStats
reported = record { departments = 2; users = 2; bonds = 2 }

two_users : (sync_organization env messages source 5 store).0 ≡ ok reported
unfolding ◌>>=◌ ignoring create_log update_log get_by_ding_talk_user_id sync_departments upsert_user
    upsert_bond sync_dept_users sync_users do_sync sync_organization create_user get_bond
    create_bond create_dept get_by_ding_talk_dept_id
two_users = refl

sync_organization_counts_example :
    (depts : List SourceDepartment) × (source.list_departments ≡ ok depts)
    × (reported.users ≡ length (distinct [] (listed source depts)))
    × (reported.bonds ≡ reported.users)
sync_organization_counts_example =
    sync_organization_counts env messages source 5 store reported two_users
