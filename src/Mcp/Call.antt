-- ===== src/Mcp/Call.antt =====
-- A call of a registered tool: the handler behind WrapToolHandler of backend/internal/mcp/helpers.go.
use suzuran.Prelude.{ℕ, Option, none, some, String}
use suzuran.Prelude.Int.{ℤ, int64_of}
use suzuran.Prelude.Result.{Result}
use suzuran.Prelude.Exec.{Exec}
use suzuran.Mcp.RateLimit.{Redis, RateLimiter}
use suzuran.Mcp.Request.{Numbers, Request, Tool, maybe_int}
use suzuran.Mcp.Tools.{World, ToolConfig, wrap_tool_handler}

-- `if id, ok := orgIDArg.(float64)`
abbrev pub named_org : Option ℕ → Option ℤ
named_org none = none
named_org (some org) = some (int64_of org)

module _ (redis : Redis) (decimal : ℕ → String) (n : Numbers) (S R Log : Type 0) where
  abbrev pub config_of :
      Option RateLimiter
      → (String → Request n → Result (Result R) → Log → Log)
      → Tool n S R
      → Request n
      → ToolConfig S Log (Result R)
  config_of limiter audit t q = record {
    name = t.name;
    required_scope = t.required_scope;
    rate_limiter = limiter;
    handler = t.handler q;
    audit = audit t.name q;
  }

  unfoldable pub call_tool :
      Option RateLimiter
      → (String → Request n → Result (Result R) → Log → Log)
      → Tool n S R
      → Request n
      → ℕ
      → Exec (World redis S Log) (Result R)
  call_tool limiter audit t q now =
      wrap_tool_handler redis decimal S Log (Result R) (config_of limiter audit t q) q.caller.auth
        (named_org (maybe_int n q.args "orgId")) now
