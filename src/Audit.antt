-- ===== src/Audit.antt =====
-- The audit log: backend/internal/service/audit_service.go and backend/internal/model/audit_log.go.
-- The data of a request is a value of the parameter `D`; the address and the user agent, which this
-- service never writes, are left out.
use suzuran.Prelude.{
  ℕ, zero, suc, Bool, true, false, ◌&&◌, ◌||◌, Option, none, some, String, List, [], ◌∷◌, str_eq,
  ltb, ◌==◌, if◌then◌else◌,
}
use suzuran.Prelude.Result.{Result, ok, err}
use suzuran.Prelude.Exec.{Exec}
use suzuran.Gorm.{Gorm}

pub record AuditLog (D : Type 0) : Type 0 where
  pub id : ℕ
  pub org_id : Option ℕ
  pub user_id : Option ℕ
  pub action : String
  pub resource_type : String
  pub resource_id : Option ℕ
  pub request_data : Option D
  pub response_status : Option ℕ
  pub created_at : ℕ

pub record LoginLog : Type 0 where
  pub id : ℕ
  pub user_id : ℕ
  pub org_id : ℕ
  pub login_method : String
  pub ip_address : String
  pub status : String
  pub error_message : String
  pub created_at : ℕ

-- a row of data_change_logs, as far as the query reads it
pub record DataChange (D : Type 0) : Type 0 where
  pub table_name : String
  pub record_id : ℕ
  pub row : D
  pub created_at : ℕ

pub record Store (D : Type 0) : Type 0 where
  pub logs : List (AuditLog D)
  pub logins : List LoginLog
  pub changes : List (DataChange D)

-- ORDER BY created_at DESC
module _ {A : Type 0} (time : A → ℕ) where
  abbrev put_newest_first : A → List A → List A
  put_newest_first a [] = a ∷ []
  put_newest_first a (x ∷ t) =
      let rest = put_newest_first a t in if ltb (time a) (time x) then x ∷ rest else a ∷ x ∷ t

  abbrev pub newest_first : List A → List A
  newest_first [] = []
  newest_first (a ∷ t) = put_newest_first a (newest_first t)

abbrev pub first_rows {ℓ} : {A : Type ℓ} → ℕ → List A → List A
first_rows n [] = []
first_rows zero (a ∷ t) = []
first_rows (suc n) (a ∷ t) = a ∷ first_rows n t

abbrev pub is_value : ℕ → Option ℕ → Bool
is_value n none = false
is_value n (some m) = m == n

-- `WHERE org_id = ?` where the organisation is positive, and `WHERE action = ?` where one is named
abbrev pub asked : {D : Type 0} → ℕ → String → AuditLog D → Bool
asked org action l =
    (org == 0 || is_value org l.org_id) && (str_eq action "" || str_eq l.action action)

abbrev pub capped : ℕ → ℕ
capped limit = if limit == 0 || ltb 500 limit then 100 else limit

abbrev outcome_name : Bool → String
outcome_name true = "success"
outcome_name false = "failed"

module _ (g : Gorm) (D : Type 0) where
  unfoldable pub log_operation :
      ℕ → ℕ → ℕ → String → String → ℕ → D → ℕ → Exec (Store D) (AuditLog D)
  log_operation now org user action kind resource request status s =
      let (r, t) =
        g.create (λ (l : AuditLog D). l.id)
          (λ id. record {
            id = id;
            org_id = some org;
            user_id = some user;
            action = action;
            resource_type = kind;
            resource_id = some resource;
            request_data = some request;
            response_status = some status;
            created_at = now;
          })
          s.logs in
      (r, record s { logs = t })

  unfoldable pub log_login : ℕ → ℕ → ℕ → String → String → Bool → String → Exec (Store D) LoginLog
  log_login now user org method ip success message s =
      let (r, t) =
        g.create (λ (l : LoginLog). l.id)
          (λ id. record {
            id = id;
            user_id = user;
            org_id = org;
            login_method = method;
            ip_address = ip;
            status = outcome_name success;
            error_message = message;
            created_at = now;
          })
          s.logins in
      (r, record s { logins = t })

  abbrev changes_found : Result (List (DataChange D)) → Result (List (DataChange D))
  changes_found (ok t) = ok (newest_first (λ (c : DataChange D). c.created_at) t)
  changes_found (err x) = err x

  unfoldable pub get_data_changes : String → ℕ → Exec (Store D) (List (DataChange D))
  get_data_changes table id s =
      (changes_found (g.find (λ c. str_eq c.table_name table && c.record_id == id) s.changes), s)

  abbrev pub page : ℕ → Result (List (AuditLog D)) → Result (List (AuditLog D))
  page limit (ok t) = ok (first_rows limit (newest_first (λ (l : AuditLog D). l.created_at) t))
  page limit (err x) = err x

  unfoldable pub list_audit_logs : ℕ → String → ℕ → Exec (Store D) (List (AuditLog D))
  list_audit_logs org action limit s = (page (capped limit) (g.find (asked org action) s.logs), s)
