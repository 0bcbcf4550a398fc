-- ===== src/PublicApi/Quotas/Budget.antt =====
-- When a call is denied, and when it is let through.
use inherent.Prelude.{
  ℕ, ◌≤◌, String, ◌≡◌, ◌⊎◌, refl, ap, sym, subst, inl, inr, Bool, true, false, Option, none, some,
  List, [], ◌∷◌, arith, str_eq, eq_iff, Option-cases,
}
use inherent.PublicApi.RateLimit.Types.{RateLimitResult}
use inherent.PublicApi.RateLimit.Backend.{RateLimiterBackend, check_rate_limit}
use inherent.PublicApi.Quotas.{
  Entitlements, Principal, QuotaDenial, Workspaces, no_provider, unavailable, listed, Sources,
  denial_of, bucket_key, seconds_per_minute, seconds_per_month, seconds_per_day,
  check_max_documents, check_counter, counter_then, documents_then, check_limits, check_quota,
}

module _ {S : Type 0} (backend : RateLimiterBackend S) (now : ℕ) (principal : Principal) where
  -- The limiter was asked for the principal's counter of this name with this limit and window, has
  -- answered, and has not allowed the call: the denial has the reset that it named.
  pub record Refused (name : String) (window limit : ℕ) (reset_at : Option ℕ) : Type 0 where
    pub asked : S
    pub answer : RateLimitResult
    pub answered :
        (check_rate_limit backend now (bucket_key principal name) limit window asked).0
        ≡ some answer
    pub not_allowed : answer.allowed ≡ false
    pub reset : reset_at ≡ some answer.info.reset_at

  -- A denial that its limit justifies: the limit is set to the number that the denial names, it
  -- applies to the call, and the limiter has refused the call under it or, for documents, the count
  -- has reached it.
  pub data Justified (sources : Sources) (tool : String) (is_write : Bool) (e : Entitlements)
      : QuotaDenial → Type 0 where
    per_minute :
        {d : QuotaDenial}
        → d.limit_name ≡ "calls_per_minute"
        → e.calls_per_minute ≡ some d.limit
        → Refused "calls_per_minute" seconds_per_minute d.limit d.reset_at
        → Justified sources tool is_write e d
    per_month :
        {d : QuotaDenial}
        → d.limit_name ≡ "calls_per_month"
        → e.calls_per_month ≡ some d.limit
        → Refused "calls_per_month" seconds_per_month d.limit d.reset_at
        → Justified sources tool is_write e d
    per_day :
        {d : QuotaDenial}
        → d.limit_name ≡ "writes_per_day"
        → is_write ≡ true
        → e.writes_per_day ≡ some d.limit
        → Refused "writes_per_day" seconds_per_day d.limit d.reset_at
        → Justified sources tool is_write e d
    documents :
        {d : QuotaDenial} (ids : List String) (current : ℕ)
        → d.limit_name ≡ "max_documents"
        → tool ≡ "upload_document"
        → e.max_documents ≡ some d.limit
        → d.reset_at ≡ none
        → sources.workspace_ids ≡ listed ids
        → sources.get_document_count ids ≡ some current
        → d.limit ≤ current
        → Justified sources tool is_write e d

-- A denial for documents is a count that was read and has reached the limit.
max_documents-reached :
    (sources : Sources) (limit : ℕ) (url : Option String) (d : QuotaDenial) (w : Workspaces)
    → sources.workspace_ids ≡ w
    → check_max_documents sources limit url ≡ some d
    → (ids : List String) × (current : ℕ) × (sources.workspace_ids ≡ listed ids)
      × (sources.get_document_count ids ≡ some current)
      × (limit ≤ current)
      × (d.limit_name ≡ "max_documents")
      × (d.limit ≡ limit)
      × (d.reset_at ≡ none)
unfolding check_max_documents
max_documents-reached sources limit url d no_provider e h = absurd (ground arith)
max_documents-reached sources limit url d unavailable e h = absurd (ground arith)
max_documents-reached sources limit url d (listed []) e h = absurd (ground arith)
max_documents-reached sources limit url d (listed (w ∷ ws)) e h =
    elim (Option-cases (sources.get_document_count (w ∷ ws))) [
      | inl unread ↦ absurd (ground arith)
      | inr (current, read) ↦
          (w ∷ ws, current, e, read, ground arith, ground arith, ground arith, ground arith)
    ]

module _ {S : Type 0} (backend : RateLimiterBackend S) (now : ℕ) (sources : Sources)
    (principal : Principal) (tool : String) where
  denial_of-eq-some :
      (name : String) (limit : ℕ) (url : Option String) (o : Option RateLimitResult)
      (d : QuotaDenial)
      → denial_of backend now name limit url o ≡ some d
      → (r : RateLimitResult) × (o ≡ some r)
        × (r.allowed ≡ false)
        × (d.reset_at ≡ some r.info.reset_at)
        × (d.limit_name ≡ name)
        × (d.limit ≡ limit)
  unfolding denial_of
  denial_of-eq-some name limit url none d h = cc
  denial_of-eq-some name limit url (some r) d h =
      (r, refl, ground arith, ground arith, ground arith, ground arith)

  module _ (is_write : Bool) (e : Entitlements) where
    -- A step whose denials are justified.
    record Sound (m : S → Option QuotaDenial × S) : Type 0 where
      at :
          (s : S) (d : QuotaDenial)
          → (m s).0 ≡ some d
          → Justified backend now principal sources tool is_write e d

    -- A denial is the counter's, or that of the rest.
    settle :
        (rest : S → Option QuotaDenial × S) (o : Option QuotaDenial) (s : S) (d : QuotaDenial)
        → (elim o as (λ x. Option QuotaDenial × S) [
          | none ↦ rest s
          | some denial ↦ (some denial, s)
        ]).0
          ≡ some d
        → (o ≡ some d) ⊎ ((rest s).0 ≡ some d)
    settle rest none s d h = inr h
    settle rest (some denial) s d h = inl h

    counter_then-Sound :
        (applies : Bool) (name : String) (set_limit : Option ℕ) (window : ℕ) (url : Option String)
        (rest : S → Option QuotaDenial × S)
        → ((d : QuotaDenial)
            → applies ≡ true
            → set_limit ≡ some d.limit
            → d.limit_name ≡ name
            → Refused backend now principal name window d.limit d.reset_at
            → Justified backend now principal sources tool is_write e d)
        → Sound rest
        → Sound (counter_then backend now principal applies name set_limit window url rest)
    unfolding counter_then check_counter
    counter_then-Sound applies name none window url rest justify sound = sound
    counter_then-Sound false name (some limit) window url rest justify sound = sound
    counter_then-Sound true name (some limit) window url rest justify sound = record {
      at = λ s d h.
          let checked =
            check_counter backend now (bucket_key principal name) name limit window url s in
          elim (settle rest checked.0 checked.1 d h) [
            | inl denied ↦
                let r = check_rate_limit backend now (bucket_key principal name) limit window s in
                let (result, answered, not_allowed, reset, named, same) =
                  denial_of-eq-some name limit url r.0 d denied in
                justify d refl (ap some (sym same)) named (
                  subst (λ l. Refused backend now principal name window l d.reset_at) (sym same)
                    (record {
                      asked = s;
                      answer = result;
                      answered = answered;
                      not_allowed = not_allowed;
                      reset = reset;
                    }))
            | inr later ↦ sound.at checked.1 d later
          ];
    }

    documents_then-denied :
        (s : S) (d : QuotaDenial) (set_limit : Option ℕ)
        → e.max_documents ≡ set_limit
        → (documents_then backend now sources tool e s).0 ≡ some d
        → (limit : ℕ) × (e.max_documents ≡ some limit)
          × (str_eq tool "upload_document" ≡ true)
          × (check_max_documents sources limit e.upgrade_url ≡ some d)
    unfolding documents_then
    documents_then-denied s d none g h = absurd (ground arith)
    documents_then-denied s d (some limit) g h = (limit, g, ground arith, ground arith)

    documents_then-Sound : Sound (documents_then backend now sources tool e)
    documents_then-Sound = record {
      at = λ s d h.
          let (limit, g, uploads, denied) = documents_then-denied s d e.max_documents refl h in
          let (ids, current, i, read, reached, named, same, no_reset) =
            max_documents-reached sources limit e.upgrade_url d sources.workspace_ids refl denied in
          documents ids current named ((eq_iff tool "upload_document").0 uploads) (rw same g)
            no_reset i read (rw same reached);
    }

    check_limits-Sound : Sound (check_limits backend now sources principal tool is_write e)
    unfolding check_limits
    check_limits-Sound =
        counter_then-Sound true _ _ _ _ _ (λ d a l n r. per_minute n l r)
          (counter_then-Sound true _ _ _ _ _ (λ d a l n r. per_month n l r)
            (counter_then-Sound is_write _ _ _ _ _ (λ d a l n r. per_day n a l r)
              documents_then-Sound))

  -- A denied call is over a limit of its own: the provider was reached, and the denial names a limit
  -- that is set, with its number. Either the limiter, asked for the counter of that name with that
  -- number and its window, did not allow the call, and the denial has its reset, only a write being
  -- denied for writes; or the call is an upload, and the count of documents was read and has reached
  -- the number, and the denial names no time of reset.
  pub check_quota-Justified :
      (permission : String) (s : S) (d : QuotaDenial)
      → (check_quota backend now sources principal tool permission s).0 ≡ some d
      → (e : Entitlements) × (sources.get_entitlements principal ≡ some e)
        × Justified backend now principal sources tool (str_eq permission "write") e d
  unfolding check_quota
  check_quota-Justified permission s d h =
      elim (Option-cases (sources.get_entitlements principal)) [
        | inl unknown ↦ absurd (ground arith)
        | inr (e, found) ↦
            (e, found, (check_limits-Sound (str_eq permission "write") e).at s d (ground arith))
      ]
