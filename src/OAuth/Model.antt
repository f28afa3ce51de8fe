-- ===== src/OAuth/Model.antt =====
-- The rows of backend/internal/model/oauth.go, the login sessions of
-- backend/internal/oauth/session.go, and the token response. The columns `redirect_uris` and
-- `scopes` of a client, which the flows never read, and `created_at` are left out. A time is a number
-- of nanoseconds.
use suzuran.Prelude.{ℕ, String, Bool, Option, List}
use suzuran.Org.Model.{OrgUserBond}

pub record OAuthClient : Type 0 where
  pub id : String
  pub org_id : ℕ
  pub name : String
  pub client_secret : String
  pub confidential : Bool

pub record OAuthToken : Type 0 where
  pub id : String
  pub user_id : ℕ
  pub org_id : ℕ
  pub client_id : String
  pub scope : String
  pub refresh_token_hash : String
  pub expires_at : ℕ
  pub revoked_at : Option ℕ

pub record OAuthSession : Type 0 where
  pub id : String
  pub code : String
  pub code_challenge : String
  pub code_challenge_method : String
  pub user_id : ℕ
  pub org_id : ℕ
  pub client_id : String
  pub redirect_uri : String
  pub scope : String
  pub expires_at : ℕ
  pub used_at : Option ℕ

-- An entry of `loginSessionStore`: its key, and of the login result the user and the organisations.
pub record LoginEntry : Type 0 where
  pub key : String
  pub user_id : ℕ
  pub available_orgs : List ℕ
  pub expires_at : ℕ

pub record TokenResponse : Type 0 where
  pub access_token : String
  pub expires_in : ℕ
  pub refresh_token : String
  pub scope : String

pub record Db : Type 0 where
  pub clients : List OAuthClient
  pub sessions : List OAuthSession
  pub tokens : List OAuthToken
  pub bonds : List OrgUserBond
  pub logins : List LoginEntry
