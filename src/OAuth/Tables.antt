-- ===== src/OAuth/Tables.antt =====
-- backend/internal/repository/oauth_repository.go, and the login sessions of
-- backend/internal/oauth/session.go in their form without Redis.
use suzuran.Prelude.{
  ℕ, String, Bool, true, false, not, ◌&&◌, Option, none, some, List, ◌∷◌, filter, find?, str_eq,
  ltb, if◌then◌else◌,
}
use suzuran.Prelude.Error.{invalid_login_session}
use suzuran.Prelude.Result.{ok, err}
use suzuran.Prelude.Exec.{Exec}
use suzuran.Gorm.{Gorm}
use suzuran.OAuth.Model.{OAuthClient, OAuthToken, OAuthSession, LoginEntry, Db}

-- The database, and what the service uses of Go's libraries: `hash` is the hexadecimal SHA-256 of a
-- string, `sign` is jwt.GenerateToken at a time,
-- with the configured issuer and life time, `split` is
-- strings.Split at a blank.
pub record Env : Type 1 where
  pub gorm : Gorm
  pub hash : String → String
  pub sign : ℕ → ℕ → ℕ → String → List String → Option String
  pub split : String → List String
  pub access_ttl_seconds : ℕ
  pub refresh_ttl_seconds : ℕ

abbrev pub is_unset : Option ℕ → Bool
is_unset none = true
is_unset (some t) = false

abbrev pub is_open_session : String → OAuthSession → Bool
is_open_session code s = str_eq s.code code && is_unset s.used_at

abbrev pub is_live_token : String → OAuthToken → Bool
is_live_token hash t = str_eq t.refresh_token_hash hash && is_unset t.revoked_at

-- session.go

unfoldable pub delete_login : String → List LoginEntry → List LoginEntry
delete_login key logins = filter (λ l. not (str_eq l.key key)) logins

unfoldable pub store_login : LoginEntry → Exec Db (Unit {0})
store_login l s = (ok tt, record s { logins = l ∷ delete_login l.key s.logins })

abbrev pub load_found : ℕ → String → Option LoginEntry → Exec Db LoginEntry
load_found now key none s =
    (err invalid_login_session, record s { logins = delete_login key s.logins })
load_found now key (some l) s =
    if ltb l.expires_at now
    then (err invalid_login_session, record s { logins = delete_login key s.logins })
    else (ok l, s)

unfoldable pub load_login : ℕ → String → Exec Db LoginEntry
load_login now key s = load_found now key (find? (λ l. str_eq l.key key) s.logins) s

module _ (e : Env) where
  -- OAuthClientRepository, OAuthSessionRepository, OAuthTokenRepository

  unfoldable pub get_client : String → Exec Db (Option OAuthClient)
  get_client id s = (e.gorm.first (λ c. str_eq c.id id) s.clients, s)

  unfoldable pub create_session_row : OAuthSession → Exec Db (Unit {0})
  create_session_row x s = let (r, t) = e.gorm.insert x s.sessions in (r, record s { sessions = t })

  unfoldable pub get_session_by_code : String → Exec Db (Option OAuthSession)
  get_session_by_code code s = (e.gorm.first (is_open_session code) s.sessions, s)

  unfoldable pub mark_used : ℕ → String → Exec Db (Unit {0})
  mark_used now code s =
      let (r, t) =
        e.gorm.update (λ x. str_eq x.code code) (λ x. record x { used_at = some now }) s.sessions in
      (r, record s { sessions = t })

  unfoldable pub create_token : OAuthToken → Exec Db (Unit {0})
  create_token x s = let (r, t) = e.gorm.insert x s.tokens in (r, record s { tokens = t })

  unfoldable pub get_token_by_hash : String → Exec Db (Option OAuthToken)
  get_token_by_hash hash s = (e.gorm.first (is_live_token hash) s.tokens, s)

  unfoldable pub revoke : ℕ → String → Exec Db (Unit {0})
  revoke now id s =
      let (r, t) =
        e.gorm.update (λ x. str_eq x.id id) (λ x. record x { revoked_at = some now }) s.tokens in
      (r, record s { tokens = t })
