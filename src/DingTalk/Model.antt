-- ===== src/DingTalk/Model.antt =====
-- What the synchronisation reads of DingTalk (backend/internal/pkg/dingtalk/client.go), its log
-- (backend/internal/model/dingtalk_sync_log.go) and its store.
use suzuran.Prelude.{ℕ, String, Bool, List}
use suzuran.Prelude.Error.{Error}
use suzuran.Prelude.Result.{Result}
use suzuran.Org.Model.{Department}
use suzuran.Org.Tables.{Db}

-- dingtalk.Department; a parent of 0 is none
pub record SourceDepartment : Type 0 where
  pub id : ℕ
  pub name : String
  pub parent_id : ℕ

pub record DeptUser : Type 0 where
  pub user_id : String
  pub union_id : String
  pub name : String
  pub email : String
  pub mobile : String
  pub avatar_url : String
  pub title : String

-- dingtalkSyncSource: what DingTalk answers during one run
pub record Source : Type 0 where
  pub list_departments : Result (List SourceDepartment)
  pub list_users_by_dept : ℕ → Result (List DeptUser)

pub record DingTalkSyncLog : Type 0 where
  pub id : ℕ
  pub org_id : ℕ
  pub sync_type : String
  pub status : String
  pub message : String
  pub completed : Bool

pub record SyncStats : Type 0 where
  pub departments : ℕ
  pub users : ℕ
  pub bonds : ℕ

-- the texts that the log gets
pub record Messages : Type 0 where
  pub failure : Error → String
  pub success : SyncStats → String

pub record Store : Type 0 where
  pub members : Db
  pub departments : List Department
  pub logs : List DingTalkSyncLog
