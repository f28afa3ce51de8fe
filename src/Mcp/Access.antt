-- ===== src/Mcp/Access.antt =====
-- backend/internal/mcp/auth.go, and the middleware of backend/internal/middleware: auth.go,
-- permission.go and tenant.go. The token verifier is a parameter.
use suzuran.Prelude.{
  ℕ, zero, suc, ◌≡◌, inl, inr, Bool, true, false, not, ◌||◌, Option, none, some, String, List, [],
  ◌∷◌, str_eq, ◌==◌, ==_iff, Option-cases, ◌∙◌, ap, if◌then◌else◌, arith,
}
use suzuran.Prelude.Error.{
  unauthenticated, insufficient_scope, insufficient_role, org_denied, no_role, missing_header,
  invalid_token_format, invalid_token, missing_org,
}
use suzuran.Prelude.Int.{ℤ, pos, negsuc}
use suzuran.Prelude.Result.{Result, ok, err, reject_if, >>=-ok, ◌>>◌}
use suzuran.Prelude.Text.{Text, strip_prefix}

-- what a context carries
pub record Context : Type 0 where
  pub user_id : Option ℕ
  pub org_id : Option ℕ
  pub role : Option String
  pub scopes : Option (List String)

abbrev pub member : String → List String → Bool
member s [] = false
member s (t ∷ l) = str_eq t s || member s l

abbrev granted : String → List String → Result (Unit {0})
granted scope scopes =
    if member scope scopes
    then ok tt
    else if member "admin" scopes
    then ok tt
    else err insufficient_scope

unfoldable pub require_scope : Context → String → Result (Unit {0})
require_scope ctx scope = elim ctx.scopes [
  | none ↦ err insufficient_scope
  | some scopes ↦ granted scope scopes
]

unfoldable pub require_role : Context → List String → Result (Unit {0})
require_role ctx roles = elim ctx.role [
  | none ↦ err no_role
  | some r ↦ reject_if (not (member r roles)) insufficient_role
]

unfoldable pub require_org_access : Context → ℕ → Result (Unit {0})
require_org_access ctx target = elim ctx.org_id [
  | none ↦ err org_denied
  | some org ↦ reject_if (not (org == target)) org_denied
]

abbrev authenticated : Option ℕ → Result (Unit {0})
authenticated none = err unauthenticated
authenticated (some user) = ok tt

-- `if requiredOrgID > 0`
abbrev org_checked : Context → ℤ → Result (Unit {0})
org_checked ctx (pos zero) = ok tt
org_checked ctx (pos (suc n)) = require_org_access ctx (suc n)
org_checked ctx (negsuc n) = ok tt

unfoldable pub validate_tool_call : Context → String → ℤ → Result (Unit {0})
validate_tool_call ctx scope org = do
  authenticated ctx.user_id
  require_scope ctx scope
  org_checked ctx org

-- middleware

-- the claims of a token
pub record Claims : Type 0 where
  pub user_id : ℕ
  pub org_id : ℕ
  pub role : String
  pub scopes : List String

-- "Bearer "
abbrev pub bearer : Text
bearer = b'B' ∷ b'e' ∷ b'a' ∷ b'r' ∷ b'e' ∷ b'r' ∷ b' ' ∷ []

abbrev verified : Option Claims → Result Context
verified none = err invalid_token
verified (some c) = ok (record {
  user_id = some c.user_id;
  org_id = some c.org_id;
  role = some c.role;
  scopes = some c.scopes;
})

abbrev token_of : (Text → Option Claims) → Option Text → Result Context
token_of verify none = err invalid_token_format
token_of verify (some t) = verified (verify t)

-- Auth: a header without the prefix is refused.
unfoldable pub auth : (Text → Option Claims) → Text → Result Context
auth verify [] = err missing_header
auth verify (c ∷ t) = token_of verify (strip_prefix bearer (c ∷ t))

unfoldable pub require_provider : Context → Result (Unit {0})
require_provider ctx = elim ctx.role [
  | none ↦ err insufficient_role
  | some r ↦ reject_if (not (str_eq r "provider")) insufficient_role
]

unfoldable pub tenant_context : Context → Result ℕ
tenant_context ctx = elim ctx.org_id [ none ↦ err missing_org | some org ↦ ok org ]

-- the middleware of the same name as RequireScope of the package mcp
abbrev grants : String → List String → Bool
grants scope [] = false
grants scope (s ∷ l) = str_eq s scope || str_eq s "admin" || grants scope l

abbrev scopes_or_none : Option (List String) → List String
scopes_or_none none = []
scopes_or_none (some l) = l

unfoldable pub scope_middleware : Context → String → Result (Unit {0})
scope_middleware ctx scope =
    reject_if (not (grants scope (scopes_or_none ctx.scopes))) insufficient_scope

-- A caller who may use a tool: known, with the scope or "admin", and, when the call names an
-- organisation, of that one.
abbrev pub InOrg : Context → ℤ → Type 0
InOrg ctx (pos zero) = Unit
InOrg ctx (pos (suc n)) = ctx.org_id ≡ some (suc n)
InOrg ctx (negsuc n) = Unit

abbrev pub IsPermitted : Context → String → ℤ → Type 0
IsPermitted ctx scope org =
    ((user : ℕ) × (ctx.user_id ≡ some user))
    × ((scopes : List String) × (ctx.scopes ≡ some scopes)
        × ((member scope scopes || member "admin" scopes) ≡ true))
    × InOrg ctx org

granted-ok :
    (scope : String) (scopes : List String)
    → granted scope scopes ≡ ok tt
    → (member scope scopes || member "admin" scopes) ≡ true
granted-ok scope scopes h = ground arith

org_checked-InOrg : (ctx : Context) (org : ℤ) → org_checked ctx org ≡ ok tt → InOrg ctx org
unfolding require_org_access
org_checked-InOrg ctx (pos zero) h = tt
org_checked-InOrg ctx (negsuc n) h = tt
org_checked-InOrg ctx (pos (suc n)) h = elim (Option-cases ctx.org_id) [
  | inl q ↦ let bad : ⊥ = ground (arith, rw q at h) in absurd bad
  | inr (m, q) ↦
      let same : m ≡ suc n = ground (arith, ==_iff m (suc n), rw q at h) in q ∙ ap some same
]

pub validate_tool_call-IsPermitted :
    (ctx : Context) (scope : String) (org : ℤ)
    → validate_tool_call ctx scope org ≡ ok tt
    → IsPermitted ctx scope org
unfolding validate_tool_call require_scope require_org_access
validate_tool_call-IsPermitted ctx scope org h = elim (Option-cases ctx.user_id) [
  | inl q ↦ let bad : ⊥ = ground (arith, rw q at h) in absurd bad
  | inr (user, q) ↦ elim (Option-cases ctx.scopes) [
    | inl r ↦ let bad : ⊥ = ground (arith, rw (q, r) at h) in absurd bad
    | inr (scopes, r) ↦
        let (u, given, rest) =
          >>=-ok (granted scope scopes) (λ _. org_checked ctx org) tt (rw (q, r) at h) in
        ((user, q), (scopes, r, granted-ok scope scopes given), org_checked-InOrg ctx org rest)
  ]
]
