-- ===== src/OAuth.antt =====
-- backend/internal/oauth/oauth_service.go. One `now` stands for every time.Now() of a call.
pub mod Model
pub mod Tables
pub mod Codes
pub mod Tokens
pub mod Password
mod Examples
mod Trials
use suzuran.Prelude.{
  ℕ, ◌+◌, ◌*◌, ◌^◌, String, Bool, true, false, not, ◌&&◌, ◌||◌, Option, none, some, List, [], ◌∷◌,
  filter, find?, str_eq, ltb, ◌==◌, if◌then◌else◌,
}
use suzuran.Prelude.Error.{
  Error, invalid_client, invalid_code, code_expired, client_mismatch, redirect_mismatch,
  missing_verifier, pkce_failed, invalid_secret, invalid_refresh_token, refresh_expired,
  unsigned_token, invalid_login_session, org_not_available,
}
use suzuran.Prelude.Result.{Result, ok, err}
use suzuran.Prelude.Exec.{Exec, pure, raise, lift, raise_if, ignoring, ◌>>=◌, ◌>>◌}
use suzuran.Gorm.{Gorm}
use suzuran.Org.Model.{OrgUserBond}
use suzuran.OAuth.Model.{OAuthClient, OAuthToken, OAuthSession, LoginEntry, TokenResponse, Db}
use suzuran.OAuth.Tables.{
  Env, is_unset, is_open_session, is_live_token, delete_login, store_login, load_found, load_login,
  get_client, create_session_row, get_session_by_code, mark_used, create_token, get_token_by_hash,
  revoke,
}

-- What the random source gives to one call: a code or a refresh token, and the key of the row.
pub record Random : Type 0 where
  pub secret : Result String
  pub id : String

-- time.Second
abbrev pub second : ℕ
second = 10 ^ 9

-- A query whose error and whose empty answer are one message.
abbrev pub found_or {ℓ} : {A : Type ℓ} → Error → Result (Option A) → Result A
found_or e (ok (some a)) = ok a
found_or e _ = err e

-- `client, _ := ...`: with an error of the query the client is the zero value, not confidential.
abbrev pub has_wrong_secret : String → Result (Option OAuthClient) → Bool
has_wrong_secret secret (ok (some c)) = c.confidential && not (str_eq c.client_secret secret)
has_wrong_secret secret _ = false

-- `if superBond, e := ...; e == nil && superBond != nil`
abbrev pub has_bond : Result (Option OrgUserBond) → Bool
has_bond (ok (some b)) = true
has_bond _ = false

-- Only an error of the query is an invalid client.
abbrev pub client_checked : Result (Option OAuthClient) → Result (Unit {0})
client_checked (ok found) = ok tt
client_checked (err x) = err invalid_client

abbrev pub contains : ℕ → List ℕ → Bool
contains org [] = false
contains org (o ∷ orgs) = o == org || contains org orgs

-- The session is deleted when the function returns, whatever it returns.
abbrev pub deferred : String → Result TokenResponse × Db → Result TokenResponse × Db
deferred key (r, s) = (r, record s { logins = delete_login key s.logins })

module _ (e : Env) where
  -- OAuthService

  unfoldable pub parse_scopes : String → List String
  parse_scopes scope =
      if str_eq scope "" then [] else filter (λ p. not (str_eq p "")) (e.split scope)

  unfoldable pub resolve_role : ℕ → ℕ → Db → String
  resolve_role user org s =
      if org == 1
      then "provider"
      else if has_bond (e.gorm.first (λ b. b.org_id == 1 && b.user_id == user) s.bonds)
      then "provider"
      else "tenant"

  abbrev signed : Option String → Result String
  signed none = err unsigned_token
  signed (some t) = ok t

  unfoldable pub issue_tokens : ℕ → Random → ℕ → ℕ → String → String → Exec Db TokenResponse
  issue_tokens now random user org client scope = do
    access ← (λ s. (signed (e.sign now user org (resolve_role user org s) (parse_scopes scope)), s))
    refresh ← lift random.secret
    create_token e (record {
      id = random.id;
      user_id = user;
      org_id = org;
      client_id = client;
      scope = scope;
      refresh_token_hash = e.hash refresh;
      expires_at = now + e.refresh_ttl_seconds * second;
      revoked_at = none;
    })
    pure (record {
      access_token = access;
      expires_in = e.access_ttl_seconds;
      refresh_token = refresh;
      scope = scope;
    })

  unfoldable pub create_session :
      ℕ → Random → ℕ → ℕ → String → String → String → String → String → Exec Db String
  create_session now random user org client redirect scope challenge method = do
    λ s. (client_checked (get_client e client s).0, s)
    code ← lift random.secret
    create_session_row e (record {
      id = random.id;
      code = code;
      code_challenge = challenge;
      code_challenge_method = method;
      user_id = user;
      org_id = org;
      client_id = client;
      redirect_uri = redirect;
      scope = scope;
      expires_at = now + 600 * second;
      used_at = none;
    })
    pure code

  abbrev pub wrong_redirect : OAuthSession → String → Bool
  wrong_redirect x redirect = not (str_eq x.redirect_uri "") && not (str_eq x.redirect_uri redirect)

  abbrev pub wrong_verifier : OAuthSession → String → Bool
  wrong_verifier x verifier =
      not (str_eq x.code_challenge "") && not (str_eq (e.hash verifier) x.code_challenge)

  -- The checks of ExchangeAuthorizationCode.
  unfoldable pub admit_session :
      ℕ → String → String → String → String → String → Exec Db OAuthSession
  admit_session now code client secret redirect verifier = do
    session ← (λ s. (found_or invalid_code (get_session_by_code e code s).0, s))
    raise_if (ltb session.expires_at now) code_expired
    raise_if (not (str_eq session.client_id client)) client_mismatch
    raise_if (wrong_redirect session redirect) redirect_mismatch
    raise_if (not (str_eq session.code_challenge "") && str_eq verifier "") missing_verifier
    raise_if (wrong_verifier session verifier) pkce_failed
    wrong ← (λ s. (ok (has_wrong_secret secret (get_client e client s).0), s))
    raise_if wrong invalid_secret
    pure session

  unfoldable pub exchange_code :
      ℕ → Random → String → String → String → String → String → Exec Db TokenResponse
  exchange_code now random code client secret redirect verifier = do
    session ← admit_session now code client secret redirect verifier
    ignoring (mark_used e now code)
        (issue_tokens now random session.user_id session.org_id session.client_id session.scope)

  unfoldable pub refresh_token : ℕ → Random → String → String → Exec Db TokenResponse
  refresh_token now random token client = do
    stored ← (λ s. (found_or invalid_refresh_token (get_token_by_hash e (e.hash token) s).0, s))
    raise_if (not (str_eq stored.client_id client)) client_mismatch
    raise_if (ltb stored.expires_at now) refresh_expired
    ignoring (revoke e now stored.id)
        (issue_tokens now random stored.user_id stored.org_id stored.client_id stored.scope)

  -- `if stored, _ := ...; stored != nil`: with an error of the query `stored` is the zero value, whose
  -- key is the empty string.
  abbrev revoke_found : ℕ → Result (Option OAuthToken) → Exec Db (Unit {0})
  revoke_found now (ok none) = pure tt
  revoke_found now (ok (some t)) = revoke e now t.id
  revoke_found now (err x) = revoke e now ""

  unfoldable pub revoke_token : ℕ → String → Exec Db (Unit {0})
  revoke_token now token s = revoke_found now (get_token_by_hash e (e.hash token) s).0 s

  abbrev pub redeem : ℕ → Random → LoginEntry → ℕ → Exec Db TokenResponse
  redeem now random l org = do
    raise_if (not (contains org l.available_orgs)) org_not_available
    issue_tokens now random l.user_id org "suzuran-spa" "openid org.read org.write"

  unfoldable pub exchange_login_session : ℕ → Random → String → ℕ → Exec Db TokenResponse
  exchange_login_session now random key org = do
    l ← load_login now key
    λ s. deferred key (redeem now random l org s)
