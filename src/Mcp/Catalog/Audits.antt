-- ===== src/Mcp/Catalog/Audits.antt =====
-- backend/internal/mcp/tools/audit_tools.go, and AuditToolCall of backend/internal/mcp/audit.go. The
-- time, its parser, and what a column keeps of a call or of metadata, are parameters.
use suzuran.Prelude.{
  ℕ, zero, suc, ◌&&◌, Bool, true, Option, none, some, String, List, [], ◌∷◌, str_eq, leb,
  if◌then◌else◌,
}
use suzuran.Prelude.Error.{bad_time}
use suzuran.Prelude.Int.{at_least_zero}
use suzuran.Prelude.Result.{Result, ok, err}
use suzuran.Prelude.Exec.{Exec, pure, lift, ◌>>=◌}
use suzuran.Gorm.{Gorm}
use suzuran.Audit.{AuditLog, Store, newest_first, first_rows, is_value, log_operation}
use suzuran.Mcp.Request.{
  Numbers, Args, Request, Tool, get_int_arg, get_string_arg, get_optional_int_arg, maybe_int,
  maybe_string, member_as, as_object, find_member, or_default, get_user_id, user_or_zero, returning,
}

pub data AuditReply (D : Type 0) : Type 0 where
  logs : List (AuditLog D) → ℕ → ℕ → AuditReply D
  logged : ℕ → AuditReply D

-- What AuditToolCall keeps of a call: a failure, or the result.
pub record ToolCallAudit (n : Numbers) (R : Type 0) : Type 0 where
  pub user_id : ℕ
  pub org_id : ℕ
  pub role : String
  pub tool_name : String
  pub arguments : Args n
  pub outcome : Result (Result R)

abbrev skip {ℓ} : {A : Type ℓ} → ℕ → List A → List A
skip zero t = t
skip (suc k) [] = []
skip (suc k) (a ∷ t) = skip k t

-- a filter that is there has to be met
abbrev where_int : Option ℕ → Option ℕ → Bool
where_int none v = true
where_int (some k) v = is_value k v

abbrev where_text : Option String → String → Bool
where_text none v = true
where_text (some t) v = if str_eq t "" then true else str_eq v t

abbrev from_time : Option ℕ → ℕ → Bool
from_time none t = true
from_time (some start) t = leb start t

abbrev until_time : Option ℕ → ℕ → Bool
until_time none t = true
until_time (some last) t = leb t last

module _ (g : Gorm) (n : Numbers) (D : Type 0) (metadata_of : Args n → D)
    (parse_time : String → Option ℕ) (now : ℕ) where
  abbrev timed : Option ℕ → Result (Option ℕ)
  timed none = err bad_time
  timed (some t) = ok (some t)

  -- a time that is not there, or empty, is no filter
  abbrev pub time_of : Option String → Result (Option ℕ)
  time_of none = ok none
  time_of (some s) = if str_eq s "" then ok none else timed (parse_time s)

  abbrev pub matches : Args n → Option ℕ → Option ℕ → AuditLog D → Bool
  matches args start last l =
      where_int (maybe_int n args "orgId") l.org_id
      && where_int (maybe_int n args "userId") l.user_id
      && where_text (maybe_string n args "action") l.action
      && where_text (maybe_string n args "resourceType") l.resource_type
      && from_time start l.created_at
      && until_time last l.created_at

  abbrev query_page : ℕ → ℕ → Result (List (AuditLog D)) → Result (List (AuditLog D))
  query_page limit offset (ok t) =
      ok (first_rows limit (skip offset (newest_first (λ (l : AuditLog D). l.created_at) t)))
  query_page limit offset (err x) = err x

  abbrev Handler : Type 0
  Handler = Request n → Exec (Store D) (AuditReply D)

  -- A negative limit is none for gorm, and its bits are more than there are rows.
  unfoldable pub handle_audit_query : Handler
  handle_audit_query r = do
    start ← lift (time_of (maybe_string n r.args "startTime"))
    last ← lift (time_of (maybe_string n r.args "endTime"))
    found ← (λ s. (
      query_page (get_optional_int_arg n r.args "limit" 100)
          (at_least_zero (get_optional_int_arg n r.args "offset" 0))
          (g.find (matches r.args start last) s.logs),
      s,
    ))
    pure (
        logs found (get_optional_int_arg n r.args "limit" 100)
          (get_optional_int_arg n r.args "offset" 0))

  abbrev metadata_or_none : Option (Args n) → Option D
  metadata_or_none none = none
  metadata_or_none (some m) = some (metadata_of m)

  abbrev asked_log : Args n → ℕ → ℕ → String → String → ℕ → AuditLog D
  asked_log args org user action kind id = record {
    id = id;
    org_id = some org;
    user_id = some user;
    action = action;
    resource_type = kind;
    resource_id = maybe_int n args "resourceId";
    request_data = metadata_or_none (member_as as_object (find_member "metadata" args));
    response_status = none;
    created_at = now;
  }

  unfoldable pub handle_audit_log : Handler
  handle_audit_log r = do
    org ← lift (get_int_arg n r.args "orgId")
    action ← lift (get_string_arg n r.args "action")
    kind ← lift (get_string_arg n r.args "resourceType")
    user ← lift (get_user_id r.caller)
    created ← (λ s.
        let (v, t) =
          g.create (λ (l : AuditLog D). l.id) (asked_log r.args org user action kind) s.logs in
        (v, record s { logs = t }))
    pure (logged created.id)

  -- AuditToolCall; the error of LogOperation is dropped, and the status is 200 also for an error.
  unfoldable pub audit_tool_call :
      {R : Type 0}
      → (ToolCallAudit n R → D)
      → String
      → Request n
      → Result (Result R)
      → Store D
      → Store D
  audit_tool_call encode name r outcome s =
      (log_operation g D now (or_default 0 r.caller.auth.org_id) (user_or_zero r.caller)
        "mcp_tool_call" "mcp" 0
        (encode (record {
          user_id = user_or_zero r.caller;
          org_id = or_default 0 r.caller.auth.org_id;
          role = or_default "" r.caller.auth.role;
          tool_name = name;
          arguments = r.args;
          outcome = outcome;
        }))
        200 s).1

  abbrev pub AuditTool : Type 0
  AuditTool = Tool n (Store D) (AuditReply D)

  abbrev pub audit_query : AuditTool
  audit_query = record {
    name = "audit.query";
    required_scope = "audit.read";
    properties =
        ("orgId", "integer")
        ∷ ("userId", "integer")
        ∷ ("action", "string")
        ∷ ("resourceType", "string")
        ∷ ("startTime", "string")
        ∷ ("endTime", "string")
        ∷ ("limit", "integer")
        ∷ ("offset", "integer")
        ∷ [];
    required = [];
    handler = λ r. returning (handle_audit_query r);
  }

  abbrev pub audit_log : AuditTool
  audit_log = record {
    name = "audit.log";
    required_scope = "audit.write";
    properties =
        ("orgId", "integer")
        ∷ ("action", "string")
        ∷ ("resourceType", "string")
        ∷ ("resourceId", "integer")
        ∷ ("metadata", "object")
        ∷ [];
    required = "orgId" ∷ "action" ∷ "resourceType" ∷ [];
    handler = λ r. returning (handle_audit_log r);
  }

  abbrev pub audit_tools : List AuditTool
  audit_tools = audit_query ∷ audit_log ∷ []
