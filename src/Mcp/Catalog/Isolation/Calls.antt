-- ===== src/Mcp/Catalog/Isolation/Calls.antt =====
-- Calls of the tools of backend/internal/mcp/tools, behind WrapToolHandler, that name an organisation.
use suzuran.Prelude.{
  ℕ, zero, suc, ◌^◌, ◌≤◌, ltb, Bool-cases, ◌≡◌, ◌⊎◌, inl, inr, refl, ap, ◌∙◌, false, Option, some,
  String, List, All, All-map, Option-cases, arith,
}
use suzuran.Prelude.Error.{Error}
use suzuran.Prelude.Int.{pos, int64_of}
use suzuran.Prelude.Result.{Result, ok, err}
use suzuran.Mcp.Access.{Context, InOrg, member}
use suzuran.Mcp.RateLimit.{Redis, RateLimiter}
use suzuran.Mcp.Request.{Numbers, Args, Request, Tool, get_int_arg, maybe_int, find_member, as_int}
use suzuran.Mcp.Tools.{World, org_argument, wrap_tool_handler-Outcome}
use suzuran.Mcp.Call.{named_org, config_of, call_tool}
use suzuran.Mcp.Catalog.Isolation.Organisations.{
  NamesOrg, dept_tools-NamesOrg, org_tools-NamesOrg, user_tools-NamesOrg, file_tools-NamesOrg,
  audit_tools-NamesOrg, workflow_tools-NamesOrg, data_tools-NamesOrg, app_tools-NamesOrg,
}
use suzuran.Mcp.Catalog.Server.{Services, n}
use suzuran.Mcp.Catalog.Depts.{dept_tools}
use suzuran.Mcp.Catalog.Orgs.{org_tools}
use suzuran.Mcp.Catalog.Users.{user_tools}
use suzuran.Mcp.Catalog.Files.{file_tools}
use suzuran.Mcp.Catalog.Audits.{audit_tools}
use suzuran.Mcp.Catalog.WorkflowTools.{workflow_tools}
use suzuran.Mcp.Catalog.TableTools.{data_tools}
use suzuran.Mcp.Catalog.AppTools.{app_tools}

-- The argument that the handler reads is the one that the wrapper compares.
maybe_int-get_int_arg :
    (n : Numbers) (args : Args n) (key : String) (k : ℕ)
    → get_int_arg n args key ≡ ok k
    → maybe_int n args key ≡ some k
unfolding get_int_arg maybe_int
maybe_int-get_int_arg n args key k h = elim (Option-cases (find_member key args)) [
  | inl q ↦ let bad : ⊥ = ground (arith, rw q at h) in absurd bad
  | inr (v, q) ↦ elim (Option-cases (as_int n v)) [
    | inl p ↦ let bad : ⊥ = ground (arith, rw (q, p) at h) in absurd bad
    | inr (m, p) ↦ rw (q, p) (ground (arith, rw (q, p) at h))
  ]
]

-- An organisation that is not positive, or the caller's.
abbrev pub NoOther : Context → ℕ → Type 0
NoOther ctx k = (k ≡ 0) ⊎ (2 ^ 63 ≤ k) ⊎ (ctx.org_id ≡ some k)

pos-NoOther : (ctx : Context) (k : ℕ) → InOrg ctx (pos k) → NoOther ctx k
pos-NoOther ctx zero h = inl refl
pos-NoOther ctx (suc k) h = inr (inr h)

InOrg-NoOther : (ctx : Context) (k : ℕ) → InOrg ctx (int64_of k) → NoOther ctx k
InOrg-NoOther ctx k h = elim (Bool-cases (ltb k (2 ^ 63))) [
  | inl q ↦ pos-NoOther ctx k (rw q at h)
  | inr q ↦ inr (inl (ground arith))
]

-- The call gave an error of Go or an error response, and the tool left what it works on as it was.
abbrev pub Declined :
    {redis : Redis} {S Log R : Type 0}
    → World redis S Log
    → Result (Result R) × World redis S Log
    → Type 0
Declined w out = (x : Error) × ((out.0 ≡ err x) ⊎ (out.0 ≡ ok (err x))) × (out.1.state ≡ w.state)

module _ (redis : Redis) (decimal : ℕ → String) (Log : Type 0) (limiter : Option RateLimiter)
    (audit : (n : Numbers) (R : Type 0) → String → Request n → Result (Result R) → Log → Log) where
  -- A call is declined and changes nothing, or it names no other organisation than the one of the caller.
  abbrev pub StaysHome : {n : Numbers} {S R : Type 0} → Tool n S R → Type 0
  StaysHome {n} {S} {R} t =
      (member "orgId" t.required ≡ false)
      ⊎ ((q : Request n) (now : ℕ) (w : World redis S Log)
          → Declined w (call_tool redis decimal n S R Log limiter (audit n R) t q now w)
            ⊎ ((k : ℕ) × (get_int_arg n q.args "orgId" ≡ ok k) × NoOther q.caller.auth k))

  pub call_tool-StaysHome : {n : Numbers} {S R : Type 0} (t : Tool n S R) → NamesOrg t → StaysHome t
  unfolding call_tool
  call_tool-StaysHome t (inl none_asked) = inl none_asked
  call_tool-StaysHome {n} {S} {R} t (inr named) = inr (λ q now w.
      let c = config_of redis decimal n S R Log limiter (audit n R) t q in
      let asked = named_org (maybe_int n q.args "orgId") in
      elim (wrap_tool_handler-Outcome redis decimal S Log (Result R) c q.caller.auth asked now w) [
        | inl (x, p, state, _) ↦ inl (x, inl p, state)
        | inr (permitted, reply, state, _) ↦ elim (named q) [
          | inl (k, p) ↦
              let compared : org_argument asked ≡ int64_of k =
                ap (λ o. org_argument (named_org o)) (maybe_int-get_int_arg n q.args "orgId" k p) in
              inr (k, p, InOrg-NoOther q.caller.auth k (rw compared at permitted.2))
          | inr declined ↦ elim (declined.declines w.state) [
            | inl (x, e) ↦ inl (x, inl (reply ∙ ap (λ t. t.0) e), state ∙ ap (λ t. t.1) e)
            | inr (x, e) ↦ inl (x, inr (reply ∙ ap (λ t. t.0) e), state ∙ ap (λ t. t.1) e)
          ]
        ]
      ])

  All-StaysHome :
      {n : Numbers} {S R : Type 0} (ts : List (Tool n S R)) → All NamesOrg ts → All StaysHome ts
  All-StaysHome ts = All-map NamesOrg StaysHome ts call_tool-StaysHome

  module _ (v : Services) where
    -- what StaysHome says, of every tool
    abbrev pub EveryStaysHome : Type 0
    EveryStaysHome =
        All StaysHome (dept_tools v.gorm (n v))
        × All StaysHome (org_tools v.gorm (n v))
        × All StaysHome (user_tools v.members (n v))
        × All StaysHome (file_tools v.storage (n v) v.decimal v.decode_base64 v.now)
        × All StaysHome (audit_tools v.gorm (n v) v.Metadata v.metadata_of v.parse_time v.now)
        × All StaysHome (workflow_tools v.workflows v.decoding v.fuel v.now)
        × All StaysHome (data_tools v.tables (n v) v.value_of)
        × All StaysHome (app_tools v.apps (n v) v.creation)

    -- A call of a tool whose schema requires an organisation is declined, by an error or by an error
    -- response, and changes nothing that the tool works on; or it names an organisation that is
    -- negative or 0, or the organisation of the caller.
    pub all_tools-StaysHome : EveryStaysHome
    all_tools-StaysHome = (
      All-StaysHome (dept_tools v.gorm (n v)) (dept_tools-NamesOrg v.gorm (n v)),
      All-StaysHome (org_tools v.gorm (n v)) (org_tools-NamesOrg v.gorm (n v)),
      All-StaysHome (user_tools v.members (n v)) (user_tools-NamesOrg v.members (n v)),
      All-StaysHome (file_tools v.storage (n v) v.decimal v.decode_base64 v.now)
          (file_tools-NamesOrg v.storage (n v) v.decimal v.decode_base64 v.now),
      All-StaysHome (audit_tools v.gorm (n v) v.Metadata v.metadata_of v.parse_time v.now)
          (audit_tools-NamesOrg v.gorm (n v) v.Metadata v.metadata_of v.parse_time v.now),
      All-StaysHome (workflow_tools v.workflows v.decoding v.fuel v.now)
          (workflow_tools-NamesOrg v.workflows v.decoding v.fuel v.now),
      All-StaysHome (data_tools v.tables (n v) v.value_of)
          (data_tools-NamesOrg v.tables (n v) v.value_of),
      All-StaysHome (app_tools v.apps (n v) v.creation)
          (app_tools-NamesOrg v.apps (n v) v.creation),
    )
