-- ===== src/OAuth/Codes.antt =====
-- The authorization codes of backend/internal/oauth/oauth_service.go.
use suzuran.Prelude.{
  ℕ, ◌+◌, ◌*◌, ◌≤◌, ◌≡◌, ◌≢◌, ◌⊎◌, inl, inr, refl, sym, ◌∙◌, String, true, none, some, List, [],
  ◌∷◌, Option, find?, str_eq, str_eq_iff, arith,
}
use suzuran.Prelude.Result.{ok, err, ok-injective}
use suzuran.Prelude.Error.{Error, invalid_code}
use suzuran.Prelude.Exec.{Ensures, ignoring, ◌>>=◌}
use suzuran.Prelude.Exec.Rules.{Ensures-bind, Ensures-raise_if, Ensures-pure, >>=-ok}
use suzuran.Gorm.{IsGorm, update_where}
use suzuran.Gorm.Rows.{find?-holds}
use suzuran.OAuth.Model.{OAuthClient, OAuthSession, TokenResponse, Db}
use suzuran.OAuth.{
  Random, second, issue_tokens, admit_session, has_wrong_secret, found_or, exchange_code,
  create_session,
}
use suzuran.OAuth.Tables.{
  Env, is_open_session, is_unset, get_client, get_session_by_code, mark_used, create_token,
  create_session_row,
}

module _ (e : Env) where
  -- what a code must meet to be redeemed
  pub record IsRedeemable (now : ℕ) (code client secret redirect verifier : String) (s : Db)
      (x : OAuthSession) : Type 0 where
    pub unused : find? (is_open_session code) s.sessions ≡ some x
    pub same_code : x.code ≡ code
    pub unspent : x.used_at ≡ none
    pub live : now ≤ x.expires_at
    pub same_client : x.client_id ≡ client
    pub same_redirect : (x.redirect_uri ≡ "") ⊎ (x.redirect_uri ≡ redirect)
    pub proof_key : (x.code_challenge ≡ "") ⊎ (e.hash verifier ≡ x.code_challenge)
    pub same_secret :
        (c : OAuthClient)
        → e.gorm.first (λ c. str_eq c.id client) s.clients ≡ ok (some c)
        → c.confidential ≡ true
        → c.client_secret ≡ secret

  unset : (o : Option ℕ) → is_unset o ≡ true → o ≡ none
  unset none h = refl
  unset (some t) h = ground arith

  -- no open session is left after an update of all with the code
  no_open :
      (now : ℕ) (code : String) (t : List OAuthSession)
      → find?
          (is_open_session code)
          (update_where (λ x. str_eq x.code code) (λ x. record x { used_at = some now }) t)
        ≡ none
  no_open now code [] = refl
  no_open now code (x ∷ t) = ground (arith, no_open now code t)

  issue_tokens-sessions :
      (now : ℕ) (random : Random) (user org : ℕ) (client scope : String) (s : Db)
      → (issue_tokens e now random user org client scope s).1.sessions ≡ s.sessions
  unfolding issue_tokens create_token ◌>>=◌
  issue_tokens-sessions now random user org client scope s = ground arith

  module _ (law : IsGorm e.gorm) (now : ℕ) (code client secret redirect verifier : String) where
    -- The checks change nothing, and the session that they return is redeemable.
    admit_session-IsRedeemable :
        (s : Db)
        → Ensures
            (λ t. t ≡ s)
            (IsRedeemable now code client secret redirect verifier s)
            (admit_session e now code client secret redirect verifier)
    unfolding admit_session get_session_by_code get_client
    admit_session-IsRedeemable s =
        Ensures-bind {Q = λ x. find? (is_open_session code) s.sessions ≡ some x}
          (record { keeps = λ t h. h; returns = λ t h x q. found t h x q })
          λ x hit. Ensures-bind (Ensures-raise_if _ _) λ _ live.
            Ensures-bind (Ensures-raise_if _ _) λ _ same.
              Ensures-bind (Ensures-raise_if _ _) λ _ uri.
                Ensures-bind (Ensures-raise_if _ _) λ _ given.
                  Ensures-bind (Ensures-raise_if _ _) λ _ proof.
                    Ensures-bind
                      {Q = λ w.
                        w
                        ≡ has_wrong_secret secret
                            (e.gorm.first (λ c. str_eq c.id client) s.clients)}
                      (record {
                        keeps = λ t h. h;
                        returns = λ t h w q. sym (ok-injective (rw h at q));
                      })
                      λ w wrong. Ensures-bind (Ensures-raise_if _ _) λ _ right.
                        Ensures-pure x (record {
                          unused = hit;
                          same_code =
                              let holds = find?-holds (is_open_session code) s.sessions x hit in
                              (str_eq_iff x.code code).0 (ground (arith, holds));
                          unspent =
                              let holds = find?-holds (is_open_session code) s.sessions x hit in
                              unset x.used_at (ground (arith, holds));
                          live = ground (arith, live);
                          same_client = ground (arith, str_eq_iff x.client_id client, same);
                          same_redirect = ground (
                            arith,
                            str_eq_iff x.redirect_uri "",
                            str_eq_iff x.redirect_uri redirect,
                            uri,
                          );
                          proof_key = ground (
                            arith,
                            str_eq_iff x.code_challenge "",
                            str_eq_iff (e.hash verifier) x.code_challenge,
                            proof,
                          );
                          same_secret = λ c q conf.
                              ground
                                (arith, str_eq_iff c.client_secret secret, wrong, right, q, conf);
                        })
      where
        found :
            (t : Db)
            → t ≡ s
            → (x : OAuthSession)
            → found_or invalid_code (e.gorm.first (is_open_session code) t.sessions) ≡ ok x
            → find? (is_open_session code) s.sessions ≡ some x
        found t h x q = ground (arith, law.first_law (is_open_session code) s.sessions, rw h at q)

    -- The exchange that succeeds: the session that the checks returned, and the rest of the call.
    exchange_code-ok :
        (random : Random) (s : Db) (r : TokenResponse)
        → (exchange_code e now random code client secret redirect verifier s).0 ≡ ok r
        → (x : OAuthSession) × IsRedeemable now code client secret redirect verifier s x
          × (exchange_code e now random code client secret redirect verifier s
              ≡ issue_tokens e now random x.user_id x.org_id x.client_id x.scope
                  (mark_used e now code s).1)
    unfolding exchange_code ignoring
    exchange_code-ok random s r h =
        let (x, one, rest) =
          >>=-ok (admit_session e now code client secret redirect verifier)
            (λ x.
              ignoring (mark_used e now code)
                (issue_tokens e now random x.user_id x.org_id x.client_id x.scope))
            s h in
        let checks = admit_session-IsRedeemable s in
        (x, checks.returns s refl x one, rw (checks.keeps s refl) at rest)

    -- A code that is exchanged for tokens was stored, not used before, unexpired and of the same client; a session that
    -- stored a redirect URI was given the same one, and a session that stored a code challenge a
    -- verifier whose hash, written in hexadecimal, is the challenge, while an empty URI or challenge
    -- is not compared; a confidential client that the query finds gave its secret.
    pub exchange_code-IsRedeemable :
        (random : Random) (s : Db) (r : TokenResponse)
        → (exchange_code e now random code client secret redirect verifier s).0 ≡ ok r
        → (x : OAuthSession) × IsRedeemable now code client secret redirect verifier s x
    exchange_code-IsRedeemable random s r h =
        let (x, redeemable, rest) = exchange_code-ok random s r h in (x, redeemable)

    mark_used-cases :
        (s : Db)
        → ((mark_used e now code s).0 ≡ err Error.db)
          ⊎ (find? (is_open_session code) (mark_used e now code s).1.sessions ≡ none)
    unfolding mark_used
    mark_used-cases s =
        elim (law.update_law (λ x. str_eq x.code code) (λ x. record x { used_at = some now })
          s.sessions) [ inl q ↦ inl (rw q refl) | inr q ↦ inr (rw q (no_open now code s.sessions)) ]

  -- A code that was exchanged for tokens is exchanged for none again, by whatever call, unless the
  -- database refused to mark it as used.
  pub exchange_code_once :
      (law : IsGorm e.gorm) (now : ℕ) (random : Random)
      (code client secret redirect verifier : String) (s : Db) (r : TokenResponse)
      → (exchange_code e now random code client secret redirect verifier s).0 ≡ ok r
      → ((mark_used e now code s).0 ≡ err Error.db)
        ⊎ ((later : ℕ) (random2 : Random) (client2 secret2 redirect2 verifier2 : String)
              (r2 : TokenResponse)
            → (exchange_code e later random2 code client2 secret2 redirect2 verifier2
                (exchange_code e now random code client secret redirect verifier s).1).0
              ≢ ok r2)
  exchange_code_once law now random code client secret redirect verifier s r h =
      let (x, redeemable, rest) =
        exchange_code-ok law now code client secret redirect verifier random s r h in
      let kept =
        issue_tokens-sessions now random x.user_id x.org_id x.client_id x.scope
          (mark_used e now code s).1 in
      elim (mark_used-cases law now code client secret redirect verifier s) [
        | inl q ↦ inl q
        | inr q ↦ inr λ later random2 client2 secret2 redirect2 verifier2 r2 again.
            let (y, ready, _) =
              exchange_code-ok law later code client2 secret2 redirect2 verifier2 random2
                (exchange_code e now random code client secret redirect verifier s).1 r2 again in
            let gone : find? (is_open_session code)
                  (exchange_code e now random code client secret redirect verifier s).1.sessions
                ≡ none =
              rw (rest, kept) q in
            let hit = ready.unused in let bad : none ≡ some y = sym gone ∙ hit in cc
      ]

  -- CreateSession issues a code for a client that is not there, unless the random source or the
  -- database fails: only an error of the query is an invalid client.
  pub create_session_unknown_client :
      (law : IsGorm e.gorm) (now : ℕ) (random : Random) (user org : ℕ)
      (client redirect scope challenge method code : String) (s : Db)
      → e.gorm.first (λ c. str_eq c.id client) s.clients ≡ ok none
      → random.secret ≡ ok code
      → ((create_session e now random user org client redirect scope challenge method s).0
          ≡ ok code)
        ⊎ ((create_session e now random user org client redirect scope challenge method s).0
            ≡ err Error.db)
  unfolding create_session get_client create_session_row ◌>>=◌
  create_session_unknown_client law now random user org client redirect scope challenge method code
        s missing given =
      rw (missing, given)
        (elim (law.insert_law
          (record {
            id = random.id;
            code = code;
            code_challenge = challenge;
            code_challenge_method = method;
            user_id = user;
            org_id = org;
            client_id = client;
            redirect_uri = redirect;
            scope = scope;
            expires_at = now + 600 * second;
            used_at = none;
          })
          s.sessions) [ inl q ↦ inr (rw q refl) | inr q ↦ inl (rw q refl) ])
