-- ===== src/Mcp/Request.antt =====
-- The calls of MCP tools: the decoded arguments of a request, the readers of arguments of
-- backend/internal/mcp/helpers.go, and what backend/internal/mcp/server.go puts into a context.
-- The numbers of a call are not negative.
use suzuran.Prelude.{ℕ, Bool, Option, none, some, String, List, [], ◌∷◌, str_eq, if◌then◌else◌}
use suzuran.Prelude.Error.{
  Error, missing_argument, wrong_argument, no_user_id, no_org_id, no_app_id, no_token,
}
use suzuran.Prelude.Result.{Result, ok, err}
use suzuran.Prelude.Exec.{Exec, pure, ◌>>=◌}
use suzuran.Prelude.Text.{Text, strip_prefix}
use suzuran.Mcp.Access.{Context, bearer}

-- float64 as JSON brings it, and its conversion to `int`: the 64 bits of the result as a natural
-- number, which `int64_of` reads with its sign
pub record Numbers : Type 1 where
  pub Number : Type 0
  pub to_int : Number → ℕ

-- A decoded value, `interface{}`. The keys of an object are distinct.
mutual
  pub data Json (F : Type 0) : Type 0 where
    null : Json F
    bool : Bool → Json F
    number : F → Json F
    text : String → Json F
    array : Elements F → Json F
    object : Members F → Json F

  pub data Elements (F : Type 0) : Type 0 where
    nothing : Elements F
    element : Json F → Elements F → Elements F

  pub data Members (F : Type 0) : Type 0 where
    empty : Members F
    entry : String → Json F → Members F → Members F

abbrev pub find_member : {F : Type 0} → String → Members F → Option (Json F)
find_member key empty = none
find_member key (entry k v t) = if str_eq k key then some v else find_member key t

-- the type assertions `v.(T)`

abbrev pub as_string : {F : Type 0} → Json F → Option String
as_string (text s) = some s
as_string _ = none

abbrev pub as_bool : {F : Type 0} → Json F → Option Bool
as_bool (bool b) = some b
as_bool _ = none

abbrev pub as_array : {F : Type 0} → Json F → Option (Elements F)
as_array (array l) = some l
as_array _ = none

abbrev pub as_object : {F : Type 0} → Json F → Option (Members F)
as_object (object m) = some m
as_object _ = none

abbrev pub or_default {ℓ} : {A : Type ℓ} → A → Option A → A
or_default d none = d
or_default d (some a) = a

abbrev asserted {ℓ} : {A : Type ℓ} → Error → Option A → Result A
asserted x none = err x
asserted x (some a) = ok a

-- `v, ok := args[key].(T)`
abbrev pub member_as : {A F : Type 0} → (Json F → Option A) → Option (Json F) → Option A
member_as cast none = none
member_as cast (some v) = cast v

-- a value that has to be there and of the type
abbrev required : {A F : Type 0} → (Json F → Option A) → String → Option (Json F) → Result A
required cast key none = err (missing_argument key)
required cast key (some v) = asserted (wrong_argument key) (cast v)

module _ (n : Numbers) where
  abbrev pub Args : Type 0
  Args = Members n.Number

  abbrev pub as_int : Json n.Number → Option ℕ
  as_int (number x) = some (n.to_int x)
  as_int _ = none

  unfoldable pub get_int_arg : Args → String → Result ℕ
  get_int_arg args key = required as_int key (find_member key args)

  unfoldable pub get_string_arg : Args → String → Result String
  get_string_arg args key = required as_string key (find_member key args)

  unfoldable pub get_optional_int_arg : Args → String → ℕ → ℕ
  get_optional_int_arg args key d = or_default d (member_as as_int (find_member key args))

  unfoldable pub get_optional_string_arg : Args → String → String → String
  get_optional_string_arg args key d = or_default d (member_as as_string (find_member key args))

  unfoldable pub get_optional_bool_arg : Args → String → Bool → Bool
  get_optional_bool_arg args key d = or_default d (member_as as_bool (find_member key args))

  -- `if v, ok := args[key]; ok { if x, ok := v.(T); ok ...`
  unfoldable pub maybe_int : Args → String → Option ℕ
  maybe_int args key = member_as as_int (find_member key args)

  unfoldable pub maybe_string : Args → String → Option String
  maybe_string args key = member_as as_string (find_member key args)

  unfoldable pub maybe_bool : Args → String → Option Bool
  maybe_bool args key = member_as as_bool (find_member key args)

  -- `v, ok := args[key].(map...); if !ok { return ... }`
  unfoldable pub get_object : Args → String → Result Args
  get_object args key = asserted (wrong_argument key) (member_as as_object (find_member key args))

  unfoldable pub get_array : Args → String → Result (Elements n.Number)
  get_array args key = asserted (wrong_argument key) (member_as as_array (find_member key args))

-- What a tool finds in its context. No code sets "app_id" for injectAuthContext to read.
pub record Caller : Type 0 where
  pub auth : Context
  pub app_id : Option Text
  pub token : Option Text

abbrev long_enough : Option Text → Option Text
long_enough none = none
long_enough (some []) = none
long_enough (some (c ∷ t)) = some (c ∷ t)

-- injectAuthContext: the keys of the request's gin context, and the header "Authorization"
unfoldable pub inject_auth_context : Context → Option Text → Text → Caller
inject_auth_context keys app header = record {
  auth = keys;
  app_id = app;
  token = long_enough (strip_prefix bearer header);
}

unfoldable pub get_user_id : Caller → Result ℕ
get_user_id c = asserted no_user_id c.auth.user_id

unfoldable pub get_org_id : Caller → Result ℕ
get_org_id c = asserted no_org_id c.auth.org_id

unfoldable pub get_app_id : Caller → Result Text
get_app_id c = asserted no_app_id c.app_id

unfoldable pub get_token : Caller → Result Text
get_token c = asserted no_token c.token

-- `userID, _ := GetUserIDFromContext(ctx)`
abbrev pub user_or_zero : Caller → ℕ
user_or_zero c = or_default 0 c.auth.user_id

pub record Request (n : Numbers) : Type 0 where
  pub caller : Caller
  pub args : Args n

-- A registered tool: of its schema the top-level properties with their types and the required ones. The
-- handler gives an error of Go, or a response that may be an error response.
pub record Tool (n : Numbers) (S R : Type 0) : Type 0 where
  pub name : String
  pub required_scope : String
  pub properties : List (String × String)
  pub required : List String
  pub handler : Request n → Exec S (Result R)

module _ {S R : Type 0} where
  -- `if err != nil { return ..., err }` throughout
  unfoldable pub returning : Exec S R → Exec S (Result R)
  returning m = do r ← m; pure (ok r)

  -- `if err != nil { return CreateErrorResponse(...), nil }` throughout
  unfoldable pub answering : Exec S R → Exec S (Result R)
  answering m s = let (r, t) = m s in (ok r, t)
