-- ===== src/Mcp/Examples.antt =====
-- The gate and the rate limiter at a Redis that keeps one sorted set.
use suzuran.Prelude.{ℕ, suc, ◌+◌, ◌*◌, ◌≡◌, refl, true, some, String, List, [], ◌∷◌, length}
use suzuran.Prelude.Error.{Error, rate_limited}
use suzuran.Prelude.Int.{pos}
use suzuran.Prelude.Result.{ok, err}
use suzuran.Mcp.Access.{Context}
use suzuran.Mcp.RateLimit.{Entry, Redis, RateLimiter, newer, with_entry, check}
use suzuran.Mcp.Tools.{World, ToolConfig, Outcome, wrap_tool_handler, wrap_tool_handler-Outcome}

abbrev pub one_set : Redis
one_set = record {
  Sets = List Entry;
  pipeline = λ k max x s. (ok (length (with_entry x (newer max s))), with_entry x (newer max s));
  first_score = λ k s. (ok [], s);
  remove_range = λ k max s. newer max s;
  card = λ k s. (ok (length s), s);
}

abbrev decimal : ℕ → String
decimal n = "1"

-- one request a minute
abbrev limiter : RateLimiter
limiter = record { has_client = true; limit = 1; window = 60000000000 }

abbrev seconds : ℕ → ℕ
seconds n = (1000 + n) * 1000000000

abbrev sixty_ago : List Entry
sixty_ago = record { score = 940; member = 940000000000 } ∷ []

-- A request after 0 seconds passes and one after 30 is refused; after 70 the window holds no request
-- that passed, and the call is refused all the same, for the refused one was recorded.
abbrev after_0 : List Entry
after_0 = (check one_set decimal limiter 7 "t" (seconds 0) []).1

abbrev after_30 : List Entry
after_30 = (check one_set decimal limiter 7 "t" (seconds 30) after_0).1

refused_counts :
    (check one_set decimal limiter 7 "t" (seconds 70) after_30).0 ≡ err (rate_limited (seconds 130))
unfolding check
refused_counts = refl

abbrev caller : Context
caller = record {
  user_id = some 7;
  org_id = some 1;
  role = some "tenant";
  scopes = some ("app" ∷ []);
}

abbrev tool : ToolConfig ℕ ℕ ℕ
tool = record {
  name = "t";
  required_scope = "app";
  rate_limiter = some limiter;
  handler = λ n. (ok n, suc n);
  audit = λ r n. suc n;
}

abbrev world : World one_set ℕ ℕ
world = record { sets = sixty_ago; state = 5; log = 0 }

wrap_tool_handler-Outcome_example :
    Outcome tool caller
      (pos 1)
      world
      (wrap_tool_handler one_set decimal ℕ ℕ ℕ tool caller (some (pos 1)) (seconds 0) world)
wrap_tool_handler-Outcome_example =
    wrap_tool_handler-Outcome one_set decimal ℕ ℕ ℕ tool caller (some (pos 1)) (seconds 0) world
