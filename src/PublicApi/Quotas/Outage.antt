-- ===== src/PublicApi/Quotas/Outage.antt =====
-- A limiter, a count of documents or an entitlements provider that raises.
use inherent.Prelude.{
  ◌⊎◌, ℕ, String, ◌≡◌, refl, inl, inr, Bool, true, false, Option, none, some, List, [], ◌∷◌, arith,
  str_eq, Option-cases, Bool-cases,
}
use inherent.PublicApi.RateLimit.Backend.{RateLimiterBackend, check_rate_limit}
use inherent.PublicApi.Quotas.{
  Entitlements, Principal, QuotaDenial, Workspaces, no_provider, unavailable, listed, Sources,
  unlimited, denial_of, bucket_key, check_max_documents, check_counter, counter_then,
  documents_then, check_limits, check_quota,
}

-- Every check of a counter raises, and so does every count of documents.
pub record IsDown {S : Type 0} (backend : RateLimiterBackend S) (sources : Sources) : Type 0 where
  pub raises :
      (now : ℕ) (key : String) (limit : ℕ) (window : ℕ) (s : S)
      → (backend.check_and_consume now key limit window s).0 ≡ none
  pub uncounted : (ids : List String) → sources.get_document_count ids ≡ none

module _ {S : Type 0} (backend : RateLimiterBackend S) (now : ℕ) (sources : Sources)
    (principal : Principal) (tool : String) where
  -- No denial from any state.
  Open : (S → Option QuotaDenial × S) → Type 0
  Open m = (s : S) → (m s).0 ≡ none

  module _ (down : IsDown backend sources) where
    counter-none :
        (key : String) (name : String) (limit : ℕ) (window : ℕ) (url : Option String) (s : S)
        → (check_counter backend now key name limit window url s).0 ≡ none
    unfolding check_counter denial_of check_rate_limit
    counter-none key name limit window url s = rw (down.raises now key limit window s) refl

    counter_then-Open :
        (applies : Bool) (name : String) (set_limit : Option ℕ) (window : ℕ) (url : Option String)
        (rest : S → Option QuotaDenial × S)
        → Open rest
        → Open (counter_then backend now principal applies name set_limit window url rest)
    unfolding Open counter_then
    counter_then-Open applies name none window url rest all = all
    counter_then-Open false name (some limit) window url rest all = all
    counter_then-Open true name (some limit) window url rest all =
        λ s. rw (counter-none (bucket_key principal name) name limit window url s) (all _)

    max_documents-none :
        (limit : ℕ) (url : Option String) (w : Workspaces)
        → sources.workspace_ids ≡ w
        → check_max_documents sources limit url ≡ none
    unfolding check_max_documents
    max_documents-none limit url no_provider e = rw e refl
    max_documents-none limit url unavailable e = rw e refl
    max_documents-none limit url (listed []) e = rw e refl
    max_documents-none limit url (listed (w ∷ ws)) e = rw (e, down.uncounted (w ∷ ws)) refl

    documents_then-Open : (e : Entitlements) → Open (documents_then backend now sources tool e)
    unfolding Open documents_then
    documents_then-Open e s = elim (Option-cases e.max_documents) [
      | inl unset ↦ rw unset refl
      | inr (limit, set) ↦
          let all = max_documents-none limit e.upgrade_url sources.workspace_ids refl in
          ground arith
    ]

    -- If every check of a counter and every count of documents raises, no call is denied: an outage
    -- of the metering never takes the tools away.
    pub check_quota-fails_open :
        (permission : String) (s : S)
        → (check_quota backend now sources principal tool permission s).0 ≡ none
    unfolding check_quota check_limits
    check_quota-fails_open permission s = elim (Option-cases (sources.get_entitlements principal)) [
      | inl unknown ↦ rw (unknown, check_quota) refl
      | inr (e, found) ↦
          let all : Open
              (check_limits backend now sources principal tool (str_eq permission "write") e) =
            counter_then-Open true _ _ _ _ _ (
              counter_then-Open true _ _ _ _ _
                (counter_then-Open _ _ _ _ _ _ (documents_then-Open e))) in
          elim (Bool-cases (unlimited e)) [
            | inl free ↦ rw (found, check_quota, free) refl
            | inr limited ↦ rw (found, check_quota, limited) (unfold Open in all s)
          ]
    ]

  -- With an unknown principal, or one without limits, the limiter is not asked: the call passes and
  -- no counter moves.
  check_quota-untouched :
      (permission : String) (s : S)
      → (sources.get_entitlements principal ≡ none)
        ⊎ ((e : Entitlements) × (sources.get_entitlements principal ≡ some e)
            × (unlimited e ≡ true))
      → check_quota backend now sources principal tool permission s ≡ (none, s)
  unfolding check_quota
  check_quota-untouched permission s (inl unknown) = rw (unknown, check_quota) refl
  check_quota-untouched permission s (inr (e, found, free)) = rw (found, check_quota, free) refl
