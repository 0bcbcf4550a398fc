-- ===== src/PublicApi/Quotas/Tests.antt =====
-- Quotas on a sample principal, and the theorems there.
use inherent.Prelude.{ℕ, ◌+◌, ◌-◌, ◌*◌, ◌≤◌, ◌≡◌, ◌⊎◌, refl, true, none, some, [], ◌∷◌, str_eq, ap}
use inherent.PublicApi.RateLimit.Types.{second}
use inherent.PublicApi.RateLimit.InMemory.{new_backend}
use inherent.PublicApi.RateLimit.Backend.{RateLimiterBackend, in_memory}
use inherent.PublicApi.Quotas.{
  Entitlements, Principal, QuotaDenial, listed, Sources, unlimited, null_entitlements,
  check_max_documents, counter_then, documents_then, check_limits, check_quota,
  quota_denial_to_rate_limit_error, round_seconds,
}
use inherent.PublicApi.Quotas.Budget.{Justified, check_quota-Justified}
use inherent.PublicApi.Quotas.Outage.{check_quota-fails_open}
use inherent.PublicApi.Quotas.Retry.{quota_denial_to_rate_limit_error-Near}

abbrev someone : Principal
someone = record {
  principal_id = "k1";
  principal_type = "api_key";
  scopes = [];
  resolved_user_id = some "u1";
}

-- A cap of two documents, and a limiter that is never used for it.
abbrev two_documents : Entitlements
two_documents = record {
  calls_per_month = none;
  writes_per_day = none;
  calls_per_minute = none;
  max_documents = some 2;
  upgrade_url = none;
}

abbrev full : Sources
full = record {
  get_entitlements = λ p. some two_documents;
  workspace_ids = listed ("w" ∷ []);
  get_document_count = λ ids. some 2;
}

abbrev over_documents : QuotaDenial
over_documents = record {
  limit_name = "max_documents";
  limit = 2;
  reset_at = none;
  upgrade_url = none;
}

denied_at_cap :
    check_quota in_memory 0 full someone "upload_document" "write" (new_backend 0)
    ≡ (some over_documents, new_backend 0)
unfolding check_quota unlimited check_limits counter_then documents_then check_max_documents
denied_at_cap = refl

delete_passes :
    check_quota in_memory 0 full someone "delete_document" "write" (new_backend 0)
    ≡ (none, new_backend 0)
unfolding check_quota unlimited check_limits counter_then documents_then check_max_documents
delete_passes = refl

check_quota-Justified_example :
    (e : Entitlements) × (full.get_entitlements someone ≡ some e)
    × Justified in_memory 0 someone full "upload_document" (str_eq "write" "write") e over_documents
check_quota-Justified_example =
    check_quota-Justified in_memory 0 full someone "upload_document" "write" (new_backend 0)
      over_documents (ap (λ r. r.0) denied_at_cap)

-- A limiter that raises, and entitlements of one call a minute and two documents.
abbrev down : RateLimiterBackend ℕ
down = record {
  check_and_consume = λ now key limit window s. (none, s);
  get_info = λ now key limit window s. (none, s);
}

abbrev dark : Sources
dark = record {
  get_entitlements = λ p. some (record {
    calls_per_month = none;
    writes_per_day = none;
    calls_per_minute = some 1;
    max_documents = some 2;
    upgrade_url = none;
  });
  workspace_ids = listed ("w" ∷ []);
  get_document_count = λ ids. none;
}

check_quota-fails_open_example :
    (check_quota down 0 dark someone "upload_document" "write" 7).0 ≡ none
check_quota-fails_open_example =
    check_quota-fails_open down 0 dark someone "upload_document"
      (record { raises = λ now key limit window s. refl; uncounted = λ ids. refl }) "write" 7

-- The shipped provider gives everyone no limits.
abbrev shipped : Sources
shipped = record {
  get_entitlements = λ p. some null_entitlements;
  workspace_ids = listed ("w" ∷ []);
  get_document_count = λ ids. none;
}

null_entitlements-unlimited : unlimited null_entitlements ≡ true
unfolding unlimited null_entitlements
null_entitlements-unlimited = refl

abbrev late : QuotaDenial
late = record {
  limit_name = "calls_per_minute";
  limit = 5;
  reset_at = some 61600;
  upgrade_url = none;
}

rounds_up : (quota_denial_to_rate_limit_error 0 late).retry_after ≡ some 62
unfolding quota_denial_to_rate_limit_error round_seconds second
rounds_up = refl

quota_denial_to_rate_limit_error-Near_example :
    ((late.reset_at ≡ none) × ((quota_denial_to_rate_limit_error 0 late).retry_after ≡ none))
    ⊎ ((reset : ℕ) × (wait : ℕ) × (late.reset_at ≡ some reset)
        × ((quota_denial_to_rate_limit_error 0 late).retry_after ≡ some wait)
        × (2 * (wait * second) ≤ 2 * (reset - 0) + second)
        × (2 * (reset - 0) ≤ 2 * (wait * second) + second)
        × (reset ≤ 0 → wait ≡ 0))
quota_denial_to_rate_limit_error-Near_example = quota_denial_to_rate_limit_error-Near 0 late
