-- ===== src/PublicApi/Quotas.antt =====
-- Entitlements and quotas: src/services/entitlements.py and src/mcp_server/quotas.py of the public
-- API service.
pub mod Budget
pub mod Outage
pub mod Retry
mod Tests
use Prim.Native.String.{◌++◌}
use inherent.Prelude.{
  ℕ, ◌+◌, ◌-◌, ◌*◌, ◌/◌, ◌%◌, String, Bool, true, false, ◌&&◌, not, Option, none, some, List, [],
  ◌∷◌, ltb, str_eq, if◌then◌else◌,
}
use inherent.Prelude.Text.{show}
use inherent.PublicApi.RateLimit.Types.{second, RateLimitResult}
use inherent.PublicApi.RateLimit.Backend.{RateLimiterBackend, check_rate_limit}

-- `None` is no limit of this kind.
pub record Entitlements : Type 0 where
  pub calls_per_month : Option ℕ
  pub writes_per_day : Option ℕ
  pub calls_per_minute : Option ℕ
  pub max_documents : Option ℕ
  pub upgrade_url : Option String

is_none : {A : Type 0} → Option A → Bool
is_none none = true
is_none (some a) = false

unfoldable pub unlimited : Entitlements → Bool
unfolding is_none
unlimited e =
    is_none e.calls_per_month
    && (is_none e.writes_per_day && (is_none e.calls_per_minute && is_none e.max_documents))

-- `NullEntitlementsProvider`
unfoldable pub null_entitlements : Entitlements
null_entitlements = record {
  calls_per_month = none;
  writes_per_day = none;
  calls_per_minute = none;
  max_documents = none;
  upgrade_url = none;
}

pub record Principal : Type 0 where
  pub principal_id : String
  pub principal_type : String
  pub scopes : List String
  pub resolved_user_id : Option String

pub record QuotaDenial : Type 0 where
  pub limit_name : String
  pub limit : ℕ
  pub reset_at : Option ℕ
  pub upgrade_url : Option String

-- Reads from outside: the entitlements provider, the workspaces that count for the principal (no
-- provider, a provider that raises, or its list) and the number of documents in workspaces. `none`
-- is a read that raised.
pub data Workspaces : Type 0 where
  no_provider : Workspaces
  unavailable : Workspaces
  listed : List String → Workspaces

pub record Sources : Type 0 where
  pub get_entitlements : Principal → Option Entitlements
  pub workspace_ids : Workspaces
  pub get_document_count : List String → Option ℕ

abbrev pub seconds_per_minute : ℕ
seconds_per_minute = 60

abbrev pub seconds_per_day : ℕ
seconds_per_day = 24 * 60 * 60

abbrev pub seconds_per_month : ℕ
seconds_per_month = 30 * (24 * 60 * 60)

-- `_DOCUMENT_INCREASING_TOOLS`
abbrev pub increases_documents : String → Bool
increases_documents tool_name = str_eq tool_name "upload_document"

unfoldable pub bucket_key : Principal → String → String
bucket_key principal limit_name =
    "entitlement:"
    ++ (principal.principal_type ++ (":" ++ (principal.principal_id ++ (":" ++ limit_name))))

-- `_check_max_documents`
unfoldable pub check_max_documents : Sources → ℕ → Option String → Option QuotaDenial
check_max_documents sources limit upgrade_url = elim sources.workspace_ids [
  | no_provider ↦ none
  | unavailable ↦ none
  | listed [] ↦ none
  | listed (w ∷ ws) ↦ elim (sources.get_document_count (w ∷ ws)) [
    | none ↦ none
    | some current ↦
        if ltb current limit
        then none
        else some (record {
          limit_name = "max_documents";
          limit = limit;
          reset_at = none;
          upgrade_url = upgrade_url;
        })
  ]
]

module _ {S : Type 0} (backend : RateLimiterBackend S) (now : ℕ) where
  denial_of : String → ℕ → Option String → Option RateLimitResult → Option QuotaDenial
  denial_of limit_name limit upgrade_url none = none
  denial_of limit_name limit upgrade_url (some r) =
      if r.allowed
      then none
      else some (record {
        limit_name = limit_name;
        limit = limit;
        reset_at = some r.info.reset_at;
        upgrade_url = upgrade_url;
      })

  -- `_check_counter`
  unfoldable pub check_counter :
      String → String → ℕ → ℕ → Option String → S → Option QuotaDenial × S
  unfolding denial_of
  check_counter key limit_name limit window_seconds upgrade_url s =
      let (r, s') = check_rate_limit backend now key limit window_seconds s in
      (denial_of limit_name limit upgrade_url r, s')

  -- One `if ... is not None:` block of `check_quota`: check the counter if the limit applies and is
  -- set, return a denial, and go on otherwise.
  unfoldable pub counter_then :
      Principal
      → Bool
      → String
      → Option ℕ
      → ℕ
      → Option String
      → (S → Option QuotaDenial × S)
      → S
      → Option QuotaDenial × S
  counter_then principal applies limit_name none window_seconds upgrade_url rest s = rest s
  counter_then principal applies limit_name (some limit) window_seconds upgrade_url rest s =
      let checked =
        check_counter (bucket_key principal limit_name) limit_name limit window_seconds upgrade_url
          s in
      if applies
      then elim checked.0 [ none ↦ rest checked.1 | some denial ↦ (some denial, checked.1) ]
      else rest s

  -- The last block.
  unfoldable pub documents_then : Sources → String → Entitlements → S → Option QuotaDenial × S
  documents_then sources tool_name e s = elim e.max_documents [
    | none ↦ (none, s)
    | some limit ↦
        if increases_documents tool_name
        then (check_max_documents sources limit e.upgrade_url, s)
        else (none, s)
  ]

  unfoldable pub check_limits :
      Sources → Principal → String → Bool → Entitlements → S → Option QuotaDenial × S
  check_limits sources principal tool_name is_write e =
      counter_then principal true "calls_per_minute" e.calls_per_minute seconds_per_minute
        e.upgrade_url
        (counter_then principal true "calls_per_month" e.calls_per_month seconds_per_month
          e.upgrade_url
          (counter_then principal is_write "writes_per_day" e.writes_per_day seconds_per_day
            e.upgrade_url (documents_then sources tool_name e)))

  -- `check_quota`; `none` lets the call proceed.
  unfoldable pub check_quota : Sources → Principal → String → String → S → Option QuotaDenial × S
  check_quota sources principal tool_name tool_permission s =
      elim (sources.get_entitlements principal) [
        | none ↦ (none, s)
        | some e ↦
            if unlimited e
            then (none, s)
            else check_limits sources principal tool_name (str_eq tool_permission "write") e s
      ]

pub record RateLimitError : Type 0 where
  pub detail : String
  pub retry_after : Option ℕ
  pub limit : ℕ
  pub remaining : ℕ
  pub limit_name : String

-- `round`: to the nearest second, a half to the even one.
unfoldable pub round_seconds : ℕ → ℕ
round_seconds time =
    let whole = time / second in
    let twice_rest = 2 * (time - whole * second) in
    if ltb twice_rest second
    then whole
    else if ltb second twice_rest
    then whole + 1
    else whole + whole % 2

-- `f" Raise this limit: {url}"`, if there is a URL that is not empty.
upgrade_hint : Option String → String
upgrade_hint none = ""
upgrade_hint (some url) = if str_eq url "" then "" else " Raise this limit: " ++ url

-- `quota_denial_to_rate_limit_error`. A reset in the past is a retry after 0 seconds.
unfoldable pub quota_denial_to_rate_limit_error : ℕ → QuotaDenial → RateLimitError
unfolding upgrade_hint
quota_denial_to_rate_limit_error now denial = record {
  detail =
      "'"
      ++ (denial.limit_name
          ++ ("' limit exceeded (limit: "
              ++ (show denial.limit ++ (")." ++ upgrade_hint denial.upgrade_url))));
  retry_after = elim denial.reset_at [
    | none ↦ none
    | some reset_at ↦ some (round_seconds (reset_at - now))
  ];
  limit = denial.limit;
  remaining = 0;
  limit_name = denial.limit_name;
}
