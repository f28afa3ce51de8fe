-- ===== src/OAuth/Tokens.antt =====
-- Refresh tokens, roles and login sessions of backend/internal/oauth/oauth_service.go and session.go.
use suzuran.Prelude.{
  ℕ, ◌+◌, ◌*◌, ◌≤◌, ◌≡◌, ◌⊎◌, ◌↔◌, inl, inr, refl, String, true, ◌&&◌, Option, none, some, List, [],
  ◌∷◌, ◌++◌, find?, str_eq, str_eq_iff, ltb, arith, ◌==◌, ==_iff, Bool-cases, Option-cases,
}
use suzuran.Prelude.Error.{Error, invalid_login_session}
use suzuran.Prelude.Result.{Result, Result-cases, ok, err}
use suzuran.Prelude.Exec.{ignoring, ◌>>=◌}
use suzuran.Gorm.{IsGorm, update_where}
use suzuran.Gorm.Rows.{find?-holds}
use suzuran.Org.Model.{OrgUserBond}
use suzuran.OAuth.Model.{OAuthToken, LoginEntry, TokenResponse, Db}
use suzuran.OAuth.{
  Random, second, contains, deferred, redeem, resolve_role, issue_tokens, refresh_token,
  exchange_login_session,
}
use suzuran.OAuth.Tables.{
  Env, is_live_token, is_unset, get_token_by_hash, revoke, create_token, delete_login, load_login,
}

module _ (e : Env) (law : IsGorm e.gorm) where
  -- the row of an issued token
  abbrev pub issued : ℕ → Random → ℕ → ℕ → String → String → String → OAuthToken
  issued now random user org client scope refresh = record {
    id = random.id;
    user_id = user;
    org_id = org;
    client_id = client;
    scope = scope;
    refresh_token_hash = e.hash refresh;
    expires_at = now + e.refresh_ttl_seconds * second;
    revoked_at = none;
  }

  issue_tokens-ok :
      (now : ℕ) (random : Random) (user org : ℕ) (client scope : String) (s : Db)
      (r : TokenResponse)
      → (issue_tokens e now random user org client scope s).0 ≡ ok r
      → (issue_tokens e now random user org client scope s).1.tokens
        ≡ s.tokens ++ issued now random user org client scope r.refresh_token ∷ []
  unfolding issue_tokens create_token ◌>>=◌
  issue_tokens-ok now random user org client scope s r h = elim (Result-cases random.secret) [
    | inr (x, q) ↦ absurd (let bad : ⊥ = ground arith in bad)
    | inl (refresh, q) ↦
        ground (arith, law.insert_law (issued now random user org client scope refresh) s.tokens)
  ]

  -- What a refresh does: `stored` is the row of the old token, and `old` the table that the attempt
  -- to revoke it left.
  pub record IsRotation (now : ℕ) (random : Random) (token client : String) (s t : Db)
      (r : TokenResponse) : Type 0 where
    pub stored : OAuthToken
    pub live : find? (is_live_token (e.hash token)) s.tokens ≡ some stored
    pub same_hash : stored.refresh_token_hash ≡ e.hash token
    pub unrevoked : stored.revoked_at ≡ none
    pub same_client : stored.client_id ≡ client
    pub unexpired : now ≤ stored.expires_at
    pub old : List OAuthToken
    pub revoked :
        ((revoke e now stored.id s).0 ≡ err Error.db) × (old ≡ s.tokens)
        ⊎ (old
            ≡ update_where
                (λ x. str_eq x.id stored.id)
                (λ x. record x { revoked_at = some now })
                s.tokens)
    pub renewed :
        t.tokens
        ≡ old
          ++ issued now random stored.user_id stored.org_id stored.client_id stored.scope
              r.refresh_token
            ∷ []

  revoke-cases :
      (now : ℕ) (id : String) (s : Db)
      → ((revoke e now id s).0 ≡ err Error.db) × ((revoke e now id s).1.tokens ≡ s.tokens)
        ⊎ ((revoke e now id s).1.tokens
            ≡ update_where (λ x. str_eq x.id id) (λ x. record x { revoked_at = some now }) s.tokens)
  unfolding revoke
  revoke-cases now id s = ground (
    arith,
    law.update_law (λ x. str_eq x.id id) (λ x. record x { revoked_at = some now }) s.tokens,
  )

  refresh_token-ok :
      (now : ℕ) (random : Random) (token client : String) (s : Db) (r : TokenResponse)
      → (refresh_token e now random token client s).0 ≡ ok r
      → (x : OAuthToken) × (e.gorm.first (is_live_token (e.hash token)) s.tokens ≡ ok (some x))
        × (x.client_id ≡ client)
        × (now ≤ x.expires_at)
        × (refresh_token e now random token client s
            ≡ issue_tokens e now random x.user_id x.org_id x.client_id x.scope
                (revoke e now x.id s).1)
  unfolding refresh_token get_token_by_hash ignoring ◌>>=◌
  refresh_token-ok now random token client s r h =
      elim (Result-cases (e.gorm.first (is_live_token (e.hash token)) s.tokens)) [
        | inr (y, q) ↦ absurd (let bad : ⊥ = ground arith in bad)
        | inl (none, q) ↦ absurd (let bad : ⊥ = ground arith in bad)
        | inl (some x, q) ↦
            let same : x.client_id ≡ client = ground (arith, str_eq_iff x.client_id client) in
            let live : now ≤ x.expires_at = ground arith in (x, q, same, live, ground arith)
      ]

  unset : (o : Option ℕ) → is_unset o ≡ true → o ≡ none
  unset none h = refl
  unset (some t) h = ground arith

  -- A refresh that succeeds was of a stored token with this hash, which was not revoked, is unexpired
  -- and of the same client; it revokes that token,
  -- unless the database refuses to, and adds one row for the same user, organisation and scope.
  pub refresh_token-IsRotation :
      (now : ℕ) (random : Random) (token client : String) (s : Db) (r : TokenResponse)
      → (refresh_token e now random token client s).0 ≡ ok r
      → IsRotation now random token client s (refresh_token e now random token client s).1 r
  refresh_token-IsRotation now random token client s r h =
      let (x, found, same, live, rest) = refresh_token-ok now random token client s r h in
      let hit : find? (is_live_token (e.hash token)) s.tokens ≡ some x =
        ground (arith, law.first_law (is_live_token (e.hash token)) s.tokens, found) in
      let holds = find?-holds (is_live_token (e.hash token)) s.tokens x hit in
      let done =
        issue_tokens-ok now random x.user_id x.org_id x.client_id x.scope (revoke e now x.id s).1 r
          (rw (← rest) h) in
      record {
        stored = x;
        live = hit;
        same_hash = (str_eq_iff x.refresh_token_hash (e.hash token)).0 (ground (arith, holds));
        unrevoked = unset x.revoked_at (ground (arith, holds));
        same_client = same;
        unexpired = live;
        old = (revoke e now x.id s).1.tokens;
        revoked = revoke-cases now x.id s;
        renewed = rw rest done;
      }

-- The role in a token is "provider" exactly for organisation 1 and for a user whose bond with
-- organisation 1 the query finds.
pub resolve_role-provider :
    (e : Env) (user org : ℕ) (s : Db)
    → (resolve_role e user org s ≡ "provider") ↔ (
        (org ≡ 1)
        ⊎ ((b : OrgUserBond) × (e.gorm.first (λ b. b.org_id == 1 && b.user_id == user) s.bonds
              ≡ ok (some b))))
unfolding resolve_role
resolve_role-provider e user org s =
    elim (Result-cases (e.gorm.first (λ b. b.org_id == 1 && b.user_id == user) s.bonds)) [
      | inr (x, q) ↦ ground (arith, str_eq_iff "tenant" "provider", ==_iff org 1)
      | inl (none, q) ↦ ground (arith, str_eq_iff "tenant" "provider", ==_iff org 1)
      | inl (some b, q) ↦ ((λ h. inr (b, q)), λ h. ground arith)
    ]

gone :
    (key : String) (logins : List LoginEntry)
    → find? (λ l. str_eq l.key key) (delete_login key logins) ≡ none
unfolding delete_login
gone key [] = refl
gone key (l ∷ logins) = ground (arith, gone key logins)

module _ (e : Env) (key : String) where
  -- After the attempt to redeem a login session, the session is gone, whatever came of it.
  exchange_login_session-gone :
      (now : ℕ) (random : Random) (org : ℕ) (s : Db)
      → find? (λ l. str_eq l.key key) (exchange_login_session e now random key org s).1.logins
        ≡ none
  unfolding exchange_login_session load_login ◌>>=◌
  exchange_login_session-gone now random org s =
      elim (Option-cases (find? (λ l. str_eq l.key key) s.logins)) [
        | inl q ↦ rw q (gone key s.logins)
        | inr (l, q) ↦ elim (Bool-cases (ltb l.expires_at now)) [
          | inl old ↦ rw (q, old) (gone key s.logins)
          | inr live ↦ rw (q, live) (deferred-gone (redeem e now random l org s))
        ]
      ]
    where
      deferred-gone :
          (done : Result TokenResponse × Db)
          → find? (λ l. str_eq l.key key) (deferred key done).1.logins ≡ none
      deferred-gone (r, t) = gone key t.logins

  exchange_login_session-missing :
      (now : ℕ) (random : Random) (org : ℕ) (t : Db)
      → find? (λ l. str_eq l.key key) t.logins ≡ none
      → (exchange_login_session e now random key org t).0 ≡ err invalid_login_session
  unfolding exchange_login_session load_login ◌>>=◌
  exchange_login_session-missing now random org t q = rw q refl

  -- A platform that has no Redis keeps login sessions in its own memory, and there a login session is
  -- redeemed at most once: after one attempt, whatever came of it, every other one fails.
  pub exchange_login_session_once :
      (now later : ℕ) (random random2 : Random) (org org2 : ℕ) (s : Db)
      → (exchange_login_session e later random2 key org2
          (exchange_login_session e now random key org s).1).0
        ≡ err invalid_login_session
  exchange_login_session_once now later random random2 org org2 s =
      exchange_login_session-missing later random2 org2
        (exchange_login_session e now random key org s).1
        (exchange_login_session-gone now random org s)

  -- A login session that is redeemed was stored, is unexpired, and offers the organisation.
  pub exchange_login_session_offers :
      (now : ℕ) (random : Random) (org : ℕ) (s : Db) (r : TokenResponse)
      → (exchange_login_session e now random key org s).0 ≡ ok r
      → (l : LoginEntry) × (find? (λ l. str_eq l.key key) s.logins ≡ some l)
        × (now ≤ l.expires_at)
        × (contains org l.available_orgs ≡ true)
  unfolding exchange_login_session load_login ◌>>=◌
  exchange_login_session_offers now random org s r h =
      elim (Option-cases (find? (λ l. str_eq l.key key) s.logins)) [
        | inl q ↦ absurd (let bad : ⊥ = ground arith in bad)
        | inr (l, q) ↦
            let live : now ≤ l.expires_at = ground arith in
            let offered : contains org l.available_orgs ≡ true = ground arith in
            (l, q, live, offered)
      ]
