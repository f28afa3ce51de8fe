-- ===== src/DingTalk/Sync.antt =====
-- backend/internal/service/dingtalk_sync_service.go over the repositories of users, bonds and
-- departments and backend/internal/repository/dingtalk_sync_log_repository.go.
use suzuran.Prelude.{
  ℕ, suc, Bool, true, false, not, ◌&&◌, ◌||◌, Option, none, some, String, List, [], ◌∷◌, length,
  str_eq, ◌==◌, if◌then◌else◌,
}
use suzuran.Prelude.Result.{Result, ok, err}
use suzuran.Prelude.Exec.{Exec, pure, raise, lift, ignoring, ◌>>=◌, ◌>>◌}
use suzuran.Org.Model.{User, OrgUserBond, Department}
use suzuran.Org.Tables.{Env, Db, create_user, save_user, get_bond, create_bond, save_bond}
use suzuran.Org.Departments.Service.{create_dept, get_by_ding_talk_dept_id, update_dept}
use suzuran.DingTalk.Model.{
  SourceDepartment, DeptUser, Source, DingTalkSyncLog, SyncStats, Messages, Store,
}

-- the map from a department of DingTalk to the platform's
abbrev pub DeptMap : Type 0
DeptMap = List (ℕ × Department)

abbrev pub put_dept : ℕ → Department → DeptMap → DeptMap
put_dept k d [] = (k, d) ∷ []
put_dept k d ((j, x) ∷ t) =
    let rest = put_dept k d t in if j == k then (k, d) ∷ t else (j, x) ∷ rest

abbrev pub get_dept : ℕ → DeptMap → Option Department
get_dept k [] = none
get_dept k ((j, d) ∷ t) = if j == k then some d else get_dept k t

-- strPtrOrNil
abbrev pub or_null : String → Option String
or_null s = if str_eq s "" then none else some s

abbrev is_at : Option ℕ → ℕ → Bool
is_at none n = false
is_at (some m) n = m == n

abbrev is_null {ℓ} : {A : Type ℓ} → Option A → Bool
is_null none = true
is_null (some a) = false

-- the parent that a department gets: an unknown parent leaves the one it has
abbrev under : Option Department → Option ℕ → Option ℕ
under none old = old
under (some parent) old = some parent.id

abbrev parent_of : DeptMap → SourceDepartment → Option ℕ → Option ℕ
parent_of m d old = if d.parent_id == 0 then none else under (get_dept d.parent_id m) old

abbrev parent_changed : Option ℕ → Option ℕ → Bool
parent_changed none old = not (is_null old)
parent_changed (some p) old = not (is_at old p)

abbrev pub renamed : DeptMap → SourceDepartment → Department → Department
renamed m d x = record x { name = d.name; parent_id = parent_of m d x.parent_id }

abbrev level_under : Option Department → ℕ
level_under none = 1
level_under (some parent) = suc parent.level

abbrev found_parent : DeptMap → SourceDepartment → Option Department
found_parent m d = if d.parent_id == 0 then none else get_dept d.parent_id m

abbrev pub new_dept : ℕ → DeptMap → SourceDepartment → ℕ → Department
new_dept org m d id = record {
  id = id;
  org_id = org;
  name = d.name;
  parent_id = under (found_parent m d) none;
  level = level_under (found_parent m d);
  manager_user_id = none;
  description = "";
  dingtalk_dept_id = some d.id;
  sort_order = 0;
}

-- `if x != new && new != "" { x = new }`
abbrev pub or_kept : String → String → String
or_kept new old = if str_eq new "" then old else new

abbrev replaces : String → String → Bool
replaces new old = not (str_eq old new) && not (str_eq new "")

abbrev or_new {ℓ} : {A : Type ℓ} → Option A → Option A → Option A
or_new none new = new
or_new (some a) new = some a

abbrev pub refreshed : DeptUser → User → User
refreshed du u = record u {
  name = or_kept du.name u.name;
  email = or_kept du.email u.email;
  phone = or_kept du.mobile u.phone;
  avatar_url = or_kept du.avatar_url u.avatar_url;
  dingtalk_union_id = or_new u.dingtalk_union_id (or_null du.union_id);
}

abbrev pub is_refreshed : DeptUser → User → Bool
is_refreshed du u =
    replaces du.name u.name
    || replaces du.email u.email
    || replaces du.mobile u.phone
    || replaces du.avatar_url u.avatar_url
    || (is_null u.dingtalk_union_id && not (is_null (or_null du.union_id)))

abbrev pub new_user : DeptUser → ℕ → User
new_user du id = record {
  id = id;
  phone = du.mobile;
  email = du.email;
  email_verified = false;
  name = or_kept du.name du.user_id;
  avatar_url = du.avatar_url;
  position = du.title;
  username = none;
  password_hash = none;
  dingtalk_user_id = or_null du.user_id;
  dingtalk_union_id = or_null du.union_id;
  dingtalk_open_id = none;
  is_active = true;
}

abbrev dept_id : Option Department → Option ℕ
dept_id none = none
dept_id (some d) = some d.id

abbrev pub seen : String → List String → Bool
seen id [] = false
seen id (x ∷ t) = str_eq x id || seen id t

abbrev pub skipped : DeptUser → List String → Bool
skipped du known = str_eq du.user_id "" || seen du.user_id known

abbrev pub new_log : ℕ → ℕ → DingTalkSyncLog
new_log org id = record {
  id = id;
  org_id = org;
  sync_type = "full";
  status = "pending";
  message = "";
  completed = false;
}

module _ (e : Env) (m : Messages) where
  abbrev on_members : {A : Type 0} → Exec Db A → Exec Store A
  on_members act s = let (r, t) = act s.members in (r, record s { members = t })

  abbrev on_departments : {A : Type 0} → Exec (List Department) A → Exec Store A
  on_departments act s = let (r, t) = act s.departments in (r, record s { departments = t })

  -- DingTalkSyncLogRepository, and UserRepository.GetByDingTalkUserID

  unfoldable pub create_log : (ℕ → DingTalkSyncLog) → Exec Store DingTalkSyncLog
  create_log mk s =
      let (r, t) = e.gorm.create (λ (l : DingTalkSyncLog). l.id) mk s.logs in
      (r, record s { logs = t })

  unfoldable pub update_log : ℕ → String → String → Exec Store (Unit {0})
  update_log id status message s =
      let (r, t) =
        e.gorm.update (λ (l : DingTalkSyncLog). l.id == id)
          (λ l. record l { status = status; message = message; completed = true }) s.logs in
      (r, record s { logs = t })

  abbrev has_ding_talk_id : String → User → Bool
  has_ding_talk_id id u = elim u.dingtalk_user_id [ none ↦ false | some x ↦ str_eq x id ]

  unfoldable pub get_by_ding_talk_user_id : String → Exec Store (Option User)
  get_by_ding_talk_user_id id s = (e.gorm.first (has_ding_talk_id id) s.members.users, s)

  -- DingTalkSyncService

  -- A department that is there is written only when it changed.
  unfoldable pub sync_existing : DeptMap → SourceDepartment → Department → Exec Store Department
  sync_existing map d x =
      if not (str_eq x.name d.name) || parent_changed (parent_of map d x.parent_id) x.parent_id
      then (do on_departments (update_dept e.gorm (renamed map d x)); pure (renamed map d x))
      else pure x

  abbrev sync_found : ℕ → DeptMap → SourceDepartment → Option Department → Exec Store Department
  sync_found org map d (some x) = sync_existing map d x
  sync_found org map d none = on_departments (create_dept e.gorm (new_dept org map d))

  unfoldable pub sync_departments : ℕ → List SourceDepartment → DeptMap → Exec Store DeptMap
  sync_departments org [] map = pure map
  sync_departments org (d ∷ depts) map = do
    existing ← on_departments (get_by_ding_talk_dept_id e.gorm org d.id)
    dept ← sync_found org map d existing
    sync_departments org depts (put_dept d.id dept map)

  abbrev upsert_found : DeptUser → Option User → Exec Store User
  upsert_found du none = on_members (create_user e (new_user du))
  upsert_found du (some u) =
      if is_refreshed du u
      then (do on_members (save_user e (refreshed du u)); pure (refreshed du u))
      else pure u

  unfoldable pub upsert_user : DeptUser → Exec Store User
  upsert_user du = do found ← get_by_ding_talk_user_id du.user_id; upsert_found du found

  abbrev new_bond : ℕ → ℕ → Option Department → ℕ → OrgUserBond
  new_bond org user dept id = record {
    id = id;
    org_id = org;
    user_id = user;
    department_id = dept_id dept;
    is_admin = false;
    is_department_manager = false;
  }

  abbrev bind_found : ℕ → ℕ → Option Department → Option OrgUserBond → Exec Store (Unit {0})
  bind_found org user dept none = do on_members (create_bond e (new_bond org user dept)); pure tt
  bind_found org user dept (some b) =
      if is_null b.department_id && not (is_null dept)
      then on_members (save_bond e (record b { department_id = dept_id dept }))
      else pure tt

  unfoldable pub upsert_bond : ℕ → ℕ → Option Department → Exec Store (Unit {0})
  upsert_bond org user dept = do
    found ← on_members (get_bond e org user)
    bind_found org user dept found

  -- the users of one department: the ids that were seen, and how many users were bound
  unfoldable pub sync_dept_users :
      ℕ → Option Department → List DeptUser → List String × ℕ → Exec Store (List String × ℕ)
  sync_dept_users org dept [] acc = pure acc
  sync_dept_users org dept (du ∷ users) acc = elim (skipped du acc.0) [
    | true ↦ sync_dept_users org dept users acc
    | false ↦ (do
      user ← upsert_user du
      upsert_bond org user.id dept
      sync_dept_users org dept users (du.user_id ∷ acc.0, suc acc.1))
  ]

  unfoldable pub sync_users :
      Source → ℕ → List SourceDepartment → DeptMap → List String × ℕ → Exec Store (List String × ℕ)
  sync_users source org [] map acc = pure acc
  sync_users source org (d ∷ depts) map acc = do
    users ← lift (source.list_users_by_dept d.id)
    next ← sync_dept_users org (get_dept d.id map) users acc
    sync_users source org depts map next

  unfoldable pub do_sync : Source → ℕ → Exec Store SyncStats
  do_sync source org = do
    depts ← lift source.list_departments
    map ← sync_departments org depts []
    counted ← sync_users source org depts map ([], 0)
    pure (record { departments = length map; users = counted.1; bonds = counted.1 })

  -- the log after a run
  abbrev pub closed : ℕ → Result SyncStats → Exec Store SyncStats
  closed log (err x) = ignoring (update_log log "failed" (m.failure x)) (raise x)
  closed log (ok stats) = ignoring (update_log log "success" (m.success stats)) (pure stats)

  abbrev pub logged : Source → ℕ → ℕ → Exec Store SyncStats
  logged source org log s = let (r, t) = do_sync source org s in closed log r t

  unfoldable pub sync_organization : Source → ℕ → Exec Store SyncStats
  sync_organization source org = do log ← create_log (new_log org); logged source org log.id
