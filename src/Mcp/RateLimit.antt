-- ===== src/Mcp/RateLimit.antt =====
-- backend/internal/mcp/ratelimit.go. Redis is a parameter: `IsRedis` states what its commands on a
-- sorted set do. Times are nanoseconds since 1970.
use suzuran.Prelude.{
  ℕ, ◌+◌, ◌-◌, ◌*◌, ◌/◌, ◌≡◌, ◌⊎◌, Bool, not, String, List, ◌∷◌, length, filter, str_append, ltb,
  ◌==◌, if◌then◌else◌,
}
use suzuran.Prelude.Error.{Error, rate_limited}
use suzuran.Prelude.Result.{Result, ok, err}
use suzuran.Prelude.Exec.{Exec}

-- an entry of a sorted set: its score and its member
pub record Entry : Type 0 where
  pub score : ℕ
  pub member : ℕ

pub record Redis : Type 1 where
  pub Sets : Type 0
  -- ZREMRANGEBYSCORE key 0 max, ZADD key score member, ZCARD key and EXPIRE key in one pipeline
  pub pipeline : String → ℕ → Entry → Exec Sets ℕ
  -- ZRANGE key 0 0 WITHSCORES
  pub first_score : String → Exec Sets (List ℕ)
  -- ZREMRANGEBYSCORE key 0 max, and ZCARD key
  pub remove_range : String → ℕ → Sets → Sets
  pub card : String → Exec Sets ℕ

-- the entries that a ZREMRANGEBYSCORE leaves
abbrev pub newer : ℕ → List Entry → List Entry
newer max = filter (λ x. ltb max x.score)

-- a ZADD: a member that is there gets a new score
abbrev pub with_entry : Entry → List Entry → List Entry
with_entry x t = x ∷ filter (λ y. not (y.member == x.member)) t

pub record IsRedis (r : Redis) : Type 0 where
  -- the entries of a key, in any order
  pub entries : r.Sets → String → List Entry
  -- a pipeline that fails may have run some of its commands
  pub pipeline_law :
      (k : String) (max : ℕ) (x : Entry) (s : r.Sets)
      → ((y : Error) × ((r.pipeline k max x s).0 ≡ err y))
        ⊎ (((r.pipeline k max x s).0 ≡ ok (length (with_entry x (newer max (entries s k)))))
            × (entries (r.pipeline k max x s).1 k ≡ with_entry x (newer max (entries s k))))
  pub first_score_law : (k : String) (s : r.Sets) → (r.first_score k s).1 ≡ s

pub record RateLimiter : Type 0 where
  -- `r.client != nil`
  pub has_client : Bool
  pub limit : ℕ
  pub window : ℕ

abbrev second : ℕ
second = 1000000000

-- time.Time.Unix
abbrev pub unix : ℕ → ℕ
unix t = t / second

module _ (r : Redis) (decimal : ℕ → String) (l : RateLimiter) where
  abbrev pub key_of : ℕ → String → String
  key_of user tool = str_append "mcp:ratelimit:" (str_append (decimal user) (str_append ":" tool))

  abbrev pub this_request : ℕ → Entry
  this_request now = record { score = unix now; member = now }

  abbrev pub window_start : ℕ → ℕ
  window_start now = unix (now - l.window)

  -- when the oldest request leaves the window, or the window from now on when Redis cannot tell
  abbrev reset_at : ℕ → Result (List ℕ) → ℕ
  reset_at now (ok (s ∷ t)) = s * second + l.window
  reset_at now _ = now + l.window

  abbrev exceeded : String → ℕ → Exec r.Sets (Unit {0})
  exceeded k now s =
      let (oldest, t) = r.first_score k s in (err (rate_limited (reset_at now oldest)), t)

  -- An error of Redis lets the request through.
  abbrev verdict : String → ℕ → Result ℕ → Exec r.Sets (Unit {0})
  verdict k now (err x) s = (ok tt, s)
  verdict k now (ok count) s = if ltb l.limit count then exceeded k now s else (ok tt, s)

  abbrev counted : String → ℕ → Exec r.Sets (Unit {0})
  counted k now s =
      let (n, t) = r.pipeline k (window_start now) (this_request now) s in verdict k now n t

  unfoldable pub check : ℕ → String → ℕ → Exec r.Sets (Unit {0})
  check user tool now s = if l.has_client then counted (key_of user tool) now s else (ok tt, s)

  abbrev left_of : Result ℕ → Result ℕ
  left_of (err x) = err x
  left_of (ok count) = ok (l.limit - count)

  abbrev counted_left : String → ℕ → Exec r.Sets ℕ
  counted_left k now s =
      let (n, t) = r.card k (r.remove_range k (window_start now) s) in (left_of n, t)

  unfoldable pub get_remaining : ℕ → String → ℕ → Exec r.Sets ℕ
  get_remaining user tool now s =
      if l.has_client then counted_left (key_of user tool) now s else (ok l.limit, s)

  -- the requests in the window, with the one that is checked
  abbrev pub in_window : List Entry → ℕ → List Entry
  in_window t now = with_entry (this_request now) (newer (window_start now) t)
