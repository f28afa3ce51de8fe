-- ===== src/Mcp/Tools.antt =====
-- WrapToolHandler of backend/internal/mcp/helpers.go: the gate, the rate limiter and the handler.
use suzuran.Prelude.{ℕ, ◌≡◌, ◌⊎◌, inl, inr, refl, Option, none, some, String, Option-cases, ap}
use suzuran.Prelude.Error.{Error}
use suzuran.Prelude.Int.{ℤ, pos}
use suzuran.Prelude.Result.{Result, ok, err}
use suzuran.Prelude.Exec.{Exec, lift, ◌>>◌}
use suzuran.Prelude.Exec.Cases.{bind_cases, lift_cases}
use suzuran.Mcp.Access.{Context, validate_tool_call, IsPermitted, validate_tool_call-IsPermitted}
use suzuran.Mcp.RateLimit.{Redis, RateLimiter, check}

-- What a call of a tool works on: the rate limits, what the handler works on, and the audit log.
pub record World (r : Redis) (S Log : Type 0) : Type 0 where
  pub sets : r.Sets
  pub state : S
  pub log : Log

-- `handler` is the tool, and `audit` appends what AuditToolCall records of its result, or nothing
-- without an audit service.
pub record ToolConfig (S Log A : Type 0) : Type 0 where
  pub name : String
  pub required_scope : String
  pub rate_limiter : Option RateLimiter
  pub handler : Exec S A
  pub audit : Result A → Log → Log

-- an argument that is missing or no number is 0
abbrev pub org_argument : Option ℤ → ℤ
org_argument none = pos 0
org_argument (some org) = org

-- the user of a context without one is 0
abbrev user_or_zero : Option ℕ → ℕ
user_or_zero none = 0
user_or_zero (some user) = user

-- The call was refused: neither the tool nor the audit log took part.
abbrev pub Refused :
    {r : Redis} {S Log A : Type 0} → World r S Log → Result A × World r S Log → Type 0
Refused w out = (x : Error) × (out.0 ≡ err x) × (out.1.state ≡ w.state) × (out.1.log ≡ w.log)

-- A call with these arguments ended with `out`.
abbrev pub Outcome :
    {r : Redis} {S Log A : Type 0}
    → ToolConfig S Log A
    → Context
    → ℤ
    → World r S Log
    → Result A × World r S Log
    → Type 0
Outcome c ctx org w out =
    Refused w out
    ⊎ (IsPermitted ctx c.required_scope org
        × (out.0 ≡ (c.handler w.state).0)
        × (out.1.state ≡ (c.handler w.state).1)
        × (out.1.log ≡ c.audit (c.handler w.state).0 w.log))

module _ (r : Redis) (decimal : ℕ → String) (S Log A : Type 0) where
  unfoldable pub limited : ToolConfig S Log A → Context → ℕ → Exec (World r S Log) (Unit {0})
  limited c ctx now w = elim c.rate_limiter [
    | none ↦ (ok tt, w)
    | some l ↦
        let (v, t) = check r decimal l (user_or_zero ctx.user_id) c.name now w.sets in
        (v, record w { sets = t })
  ]

  abbrev pub handled : ToolConfig S Log A → Exec (World r S Log) A
  handled c w = let (v, t) = c.handler w.state in (v, record w { state = t; log = c.audit v w.log })

  unfoldable pub wrap_tool_handler :
      ToolConfig S Log A → Context → Option ℤ → ℕ → Exec (World r S Log) A
  wrap_tool_handler c ctx org now = do
    lift (validate_tool_call ctx c.required_scope (org_argument org))
    limited c ctx now
    handled c

  limited_leaves :
      (c : ToolConfig S Log A) (ctx : Context) (now : ℕ) (w : World r S Log)
      → ((limited c ctx now w).1.state ≡ w.state) × ((limited c ctx now w).1.log ≡ w.log)
  unfolding limited
  limited_leaves c ctx now w = elim (Option-cases c.rate_limiter) [
    | inl q ↦ (rw q refl, rw q refl)
    | inr (l, q) ↦ (rw q refl, rw q refl)
  ]

  -- A call of a tool is refused, and then the tool did not run and nothing was logged; or the caller
  -- is permitted, and the tool ran once, its result was returned and this result was logged.
  pub wrap_tool_handler-Outcome :
      (c : ToolConfig S Log A) (ctx : Context) (org : Option ℤ) (now : ℕ) (w : World r S Log)
      → Outcome c ctx (org_argument org) w (wrap_tool_handler c ctx org now w)
  unfolding wrap_tool_handler
  wrap_tool_handler-Outcome c ctx org now w =
      let leaves = limited_leaves c ctx now w in
      lift_cases (Outcome c ctx (org_argument org) w)
        (validate_tool_call ctx c.required_scope (org_argument org)) _ w
        (λ x q. inl (x, refl, refl, refl))
        (λ u q.
          bind_cases (Outcome c ctx (org_argument org) w) (limited c ctx now) _ w
            (λ x p. inl (x, refl, leaves.0, leaves.1))
            (λ v p. inr (
              validate_tool_call-IsPermitted ctx c.required_scope (org_argument org) q,
              ap (λ t. (c.handler t).0) leaves.0,
              ap (λ t. (c.handler t).1) leaves.0,
              rw (leaves.0, leaves.1) refl,
            )))
