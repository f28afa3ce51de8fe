-- ===== src/Mcp/Trials.antt =====
-- The tools at services over a database in memory.
use suzuran.Prelude.{ℕ, suc, ◌≡◌, ◌⊎◌, refl, false, true, none, some, List, [], ◌∷◌, All}
use suzuran.Prelude.Error.{Error}
use suzuran.Prelude.Result.{ok}
use suzuran.Gorm.Memory.{memory}
use suzuran.Org.Model.{Department}
use suzuran.Org.Departments.Service.{delete_dept}
use suzuran.Workflow.Samples as Leave
use suzuran.Data.Examples as Rows
use suzuran.App.Samples as Crm
use suzuran.DingTalk.Examples as People
use suzuran.Storage.{Client}
use suzuran.Mcp.Access.{Context, member}
use suzuran.Mcp.Examples.{one_set}
use suzuran.Mcp.Request.{Json, Members, Numbers, Request, inject_auth_context}
use suzuran.Mcp.Promises.{Declines}
use suzuran.Mcp.Tools as Gate
use suzuran.Mcp.Catalog.Workflows.{Decoding, numbers}
use suzuran.Mcp.Catalog.Apps.{Creation, World}
use suzuran.Mcp.Catalog.AppTools.{app_tools}
use suzuran.Mcp.Catalog.TableTools.{data_tools}
use suzuran.Mcp.Catalog.Isolation.Owners.{Owns, Decides, app_tools-Decides}
use suzuran.Mcp.Catalog.Isolation.Calls.{EveryStaysHome, all_tools-StaysHome}
use suzuran.Mcp.Catalog.Isolation.DataTools.{data_tools-Declines}
use suzuran.Mcp.Catalog.Server.{
  Services, EveryReadsOnly, EveryDemands, all_tools-ReadsOnly, all_tools-Demands,
}

-- a storage that counts its objects
abbrev bucket : Client
bucket = record {
  Bucket = ℕ;
  put = λ key content kind b. (ok 1, suc b);
  get = λ key b. ok ([], 0);
  presign = λ key expiry b. ok key;
  remove = λ key b. (ok tt, 0);
  list = λ prefix b. [];
}

abbrev decoding : Decoding Leave.env
decoding = record { to_int = λ n. n; bytes = λ s. []; show = λ j. []; json_of = λ j. Leave.leave }

abbrev created : Creation
created = record { id = "a2"; string_of = λ t. "crm"; decode_base64 = λ s. some (1 ∷ []) }

abbrev services : Services
services = record {
  gorm = memory;
  members = People.env;
  workflows = Leave.env;
  decoding = decoding;
  fuel = 10;
  now = 5;
  tables = Rows.env;
  value_of = λ j. 0;
  apps = Crm.env;
  creation = created;
  storage = bucket;
  decimal = λ n. "1";
  decode_base64 = λ s. some [];
  Metadata = ℕ;
  metadata_of = λ args. 0;
  parse_time = λ s. none;
  has_storage = true;
  has_workflows = true;
  has_tables = true;
  has_apps = true;
}

all_tools-ReadsOnly_example : EveryReadsOnly services
all_tools-ReadsOnly_example = all_tools-ReadsOnly services

all_tools-Demands_example : EveryDemands services
all_tools-Demands_example = all_tools-Demands services

all_tools-StaysHome_example :
    EveryStaysHome one_set (λ k. "1") ℕ none (λ m R name q r log. suc log) services
all_tools-StaysHome_example =
    all_tools-StaysHome one_set (λ k. "1") ℕ none (λ m R name q r log. suc log) services

abbrev n : Numbers
n = numbers Leave.env decoding 10 5

-- user 7 of organisation 1
abbrev keys : Context
keys = record {
  user_id = some 7;
  org_id = some 1;
  role = some "tenant";
  scopes = some ("org.write" ∷ []);
}

abbrev of_app : Request n
of_app = record {
  caller = inject_auth_context keys none [];
  args = Members.entry "appId" (Json.text "a1") Members.empty;
}

abbrev world : World Crm.env
world = record {
  apps = Crm.store;
  sharing = record {
    apps = [];
    orgs = [];
    users = [];
    bonds = [];
    distributions = [];
    admins = [];
  };
}

app_tools-Decides_example :
    All
      (λ t.
        (member "appId" t.required ≡ false)
        ⊎ Decides (Owns Crm.env n of_app world) (t.handler of_app) world)
      (app_tools Crm.env n created)
app_tools-Decides_example = app_tools-Decides Crm.env n created of_app world

data_tools-Declines_example :
    All
      (λ t.
        Declines
          (t.handler (record { caller = inject_auth_context keys none []; args = of_app.args })))
      (data_tools Rows.env n (λ j. 0))
data_tools-Declines_example = data_tools-Declines Rows.env n (λ j. 0) keys [] of_app.args

-- a department of organisation 2
abbrev elsewhere : Department
elsewhere = record {
  id = 3;
  org_id = 2;
  name = "sales";
  parent_id = none;
  level = 1;
  manager_user_id = none;
  description = "";
  dingtalk_dept_id = none;
  sort_order = 0;
}

abbrev of_dept : Request n
of_dept = record {
  caller = inject_auth_context keys none [];
  args = Members.entry "deptId" (Json.number 3) Members.empty;
}

abbrev gate : Gate.World one_set (List Department) ℕ
gate = record { sets = []; state = elsewhere ∷ []; log = 0 }

-- what is left of the departments
none_left : (delete_dept memory 3 (elsewhere ∷ [])).1 ≡ []
unfolding delete_dept
none_left = refl
