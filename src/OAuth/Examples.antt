-- ===== src/OAuth/Examples.antt =====
-- A client, a code and a login session, and the theorems of the OAuth service at them.
use suzuran.Prelude.{ℕ, ◌≡◌, ◌≢◌, ◌⊎◌, refl, String, true, none, some, [], ◌∷◌}
use suzuran.Prelude.Error.{Error, invalid_login_session}
use suzuran.Prelude.Result.{ok, err}
use suzuran.Prelude.Exec.{ignoring, ◌>>=◌}
use suzuran.Gorm.Memory.{memory, memory-IsGorm}
use suzuran.OAuth.Model.{OAuthClient, OAuthSession, OAuthToken, TokenResponse, Db}
use suzuran.OAuth.{
  Random, admit_session, issue_tokens, resolve_role, exchange_code, refresh_token,
  exchange_login_session,
}
use suzuran.OAuth.Tables.{
  Env, get_session_by_code, get_client, mark_used, create_token, get_token_by_hash, revoke,
}
use suzuran.OAuth.Codes.{IsRedeemable, exchange_code-IsRedeemable, exchange_code_once}
use suzuran.OAuth.Tokens.{IsRotation, refresh_token-IsRotation, exchange_login_session_once}

abbrev env : Env
env = record {
  gorm = memory;
  hash = λ t. t;
  sign = λ now user org role scopes. some role;
  split = λ t. t ∷ [];
  access_ttl_seconds = 900;
  refresh_ttl_seconds = 3600;
}

abbrev app : OAuthClient
app = record { id = "app"; org_id = 2; name = "App"; client_secret = "pw"; confidential = true }

abbrev session : OAuthSession
session = record {
  id = "s1";
  code = "code";
  code_challenge = "proof";
  code_challenge_method = "S256";
  user_id = 7;
  org_id = 2;
  client_id = "app";
  redirect_uri = "";
  scope = "openid";
  expires_at = 500;
  used_at = none;
}

abbrev token : OAuthToken
token = record {
  id = "t1";
  user_id = 7;
  org_id = 2;
  client_id = "app";
  scope = "openid";
  refresh_token_hash = "refresh";
  expires_at = 500;
  revoked_at = none;
}

abbrev db : Db
db = record {
  clients = app ∷ [];
  sessions = session ∷ [];
  tokens = token ∷ [];
  bonds = [];
  logins =
      record { key = "login"; user_id = 7; available_orgs = 2 ∷ 3 ∷ []; expires_at = 400 } ∷ [];
}

abbrev random : Random
random = record { secret = ok "fresh"; id = "t2" }

abbrev response : TokenResponse
response = record {
  access_token = "tenant";
  expires_in = 900;
  refresh_token = "fresh";
  scope = "openid";
}

exchanges : (exchange_code env 100 random "code" "app" "pw" "" "proof" db).0 ≡ ok response
unfolding exchange_code admit_session get_session_by_code get_client mark_used issue_tokens
    create_token resolve_role ignoring ◌>>=◌
exchanges = refl

exchange_code-IsRedeemable_example :
    (x : OAuthSession) × IsRedeemable env 100 "code" "app" "pw" "" "proof" db x
exchange_code-IsRedeemable_example =
    exchange_code-IsRedeemable env memory-IsGorm 100 "code" "app" "pw" "" "proof" random db response
      exchanges

exchange_code_once_example :
    ((mark_used env 100 "code" db).0 ≡ err Error.db)
    ⊎ ((later : ℕ) (random2 : Random) (client2 secret2 redirect2 verifier2 : String)
          (r2 : TokenResponse)
        → (exchange_code env later random2 "code" client2 secret2 redirect2 verifier2
            (exchange_code env 100 random "code" "app" "pw" "" "proof" db).1).0
          ≢ ok r2)
exchange_code_once_example =
    exchange_code_once env memory-IsGorm 100 random "code" "app" "pw" "" "proof" db response
      exchanges

refreshes : (refresh_token env 100 random "refresh" "app" db).0 ≡ ok response
unfolding refresh_token get_token_by_hash revoke issue_tokens create_token resolve_role ignoring
    ◌>>=◌
refreshes = refl

refresh_token-IsRotation_example :
    IsRotation env memory-IsGorm 100 random "refresh" "app" db
      (refresh_token env 100 random "refresh" "app" db).1
      response
refresh_token-IsRotation_example =
    refresh_token-IsRotation env memory-IsGorm 100 random "refresh" "app" db response refreshes

exchange_login_session_once_example :
    (exchange_login_session env 101 random "login" 3
      (exchange_login_session env 100 random "login" 2 db).1).0
    ≡ err invalid_login_session
exchange_login_session_once_example =
    exchange_login_session_once env "login" 100 101 random random 2 3 db
