-- ===== src/PublicApi/Access/Entry.antt =====
-- A write request from its headers to its workspace.
use inherent.Prelude.{
  ℕ, String, ◌≡◌, ◌≢◌, ◌⊎◌, refl, ap, subst, ◌∙◌, sym, Bool, true, false, ◌&&◌, not, Option, none,
  some, List, [], ◌∷◌, arith, str_eq, eq_iff, Bool-cases, inl, inr, if-eq_of_true, if-eq_of_false,
  if-of_true, if-of_false, and-left, and-right,
}
use text.Mathlib.Text.{starts_with}
use inherent.PublicApi.Access.Directory.{Reads}
use inherent.PublicApi.Access.Keys.{
  ApiKeyInfo, has_permission, is_expired, Answer, ok, raised, ◌>>=◌, without_bearer, accept_row,
  lookup_key, validate_api_key, check_key, require_api_key, presented_key, get_api_key_info,
  require_permission, text_or,
}
use inherent.PublicApi.Access.Resolve.{
  scope_of, selected, resolve_only, resolve_selected, resolve_user, resolve_by, resolve_workspace,
  resolve_workspace_write,
}
use inherent.PublicApi.Access.Grants.{bind-eq-ok, bound-eq-ok, resolve_scoped-eq-ok}

-- The text of the key that a request presents: that of its X-API-Key header or, if that is absent or
-- empty, of its Authorization header, with a leading `Bearer ` taken off.
pub data Presented (x_api_key authorization : Option String) : String → Type 0 where
  by_x_api_key :
      (k : String)
      → x_api_key ≡ some k
      → k ≢ ""
      → Presented x_api_key authorization (without_bearer k)
  by_authorization :
      (k : String)
      → (x_api_key ≡ none) ⊎ (x_api_key ≡ some "")
      → authorization ≡ some k
      → Presented x_api_key authorization (without_bearer (without_bearer k))

module _ (hash : String → String) (rows : String → Option (Option ApiKeyInfo)) (now : ℕ) where
  by_header :
      (x_api_key authorization : Option String)
      → (x_api_key ≡ none) ⊎ (x_api_key ≡ some "")
      → str_eq (without_bearer (text_or hash rows now authorization)) "" ≡ false
      → Presented x_api_key authorization
          (without_bearer (without_bearer (text_or hash rows now authorization)))
  unfolding without_bearer
  by_header x_api_key none absent given = absurd (ground arith)
  by_header x_api_key (some k) absent given = by_authorization k absent refl

  presented_key-Presented :
      (x_api_key authorization : Option String)
      → str_eq (presented_key hash rows now x_api_key authorization) "" ≡ false
      → Presented x_api_key authorization
          (without_bearer (presented_key hash rows now x_api_key authorization))
  unfolding presented_key
  presented_key-Presented none authorization given = by_header none authorization (inl refl) given
  presented_key-Presented (some k) authorization given = elim (Bool-cases (str_eq k "")) [
    | inl empty ↦
        let unset =
          if-of_true (str_eq k "") (without_bearer (text_or hash rows now authorization)) k empty in
        subst (λ t. Presented (some k) authorization (without_bearer t)) (sym unset)
          (by_header (some k) authorization (inr (ap some ((eq_iff k "").0 empty)))
            (subst (λ t. str_eq t "" ≡ false) unset given))
    | inr full ↦
        subst (λ t. Presented (some k) authorization (without_bearer t))
          (sym (
            if-of_false (str_eq k "") (without_bearer (text_or hash rows now authorization)) k
              full))
          (by_x_api_key k refl (λ e. let same = (eq_iff k "").1 e in cc))
  ]

  -- The key's row is stored under the hash of the text, is active and has not expired.
  pub Valid : String → ApiKeyInfo → Type 0
  Valid text key =
      (rows (hash text) ≡ some (some key)) × (key.status ≡ "active") × (is_expired now key ≡ false)

  accept_row-eq-some :
      (row : Option ApiKeyInfo) (key : ApiKeyInfo)
      → accept_row hash rows now row ≡ some key
      → (row ≡ some key) × (key.status ≡ "active") × (is_expired now key ≡ false)
  unfolding accept_row
  accept_row-eq-some none key h = absurd (ground arith)
  accept_row-eq-some (some row) key h =
      elim (Bool-cases (str_eq row.status "active" && not (is_expired now row))) [
        | inl accepted ↦
            let found = if-eq_of_true _ _ _ accepted h in
            let same : row ≡ key = cc in
            (
              ap some same,
              subst (λ k. k.status ≡ "active") same
                  ((eq_iff row.status "active").0 (and-left _ _ accepted)),
              subst (λ k. is_expired now k ≡ false) same
                  (not-eq_true _ (and-right (str_eq row.status "active") _ accepted)),
            )
        | inr refused ↦ let nothing = if-eq_of_false _ _ _ refused h in absurd (ground arith)
      ]
    where
      not-eq_true : (b : Bool) → not b ≡ true → b ≡ false
      not-eq_true true h = absurd (ground arith)
      not-eq_true false h = refl

  lookup_key-Valid :
      (text : String) (key : ApiKeyInfo)
      → lookup_key hash rows now text ≡ ok (some key)
      → Valid text key
  unfolding lookup_key Valid
  lookup_key-Valid text key h = elim (Bool-cases (starts_with text "ink_")) [
    | inr other ↦ let nothing = if-eq_of_false _ _ _ other h in absurd (ground arith)
    | inl shaped ↦ by_row (rows (hash text)) refl (if-eq_of_true _ _ _ shaped h)
  ]
    where
      by_row :
          (read : Option (Option ApiKeyInfo))
          → rows (hash text) ≡ read
          → (elim read as (λ r. Answer (Option ApiKeyInfo)) [
            | none ↦ raised
            | some row ↦ ok (accept_row hash rows now row)
          ])
            ≡ ok (some key)
          → Valid text key
      by_row none e h = absurd (ground arith)
      by_row (some row) e h =
          let found : accept_row hash rows now row ≡ some key = cc in
          let (same, active, fresh) = accept_row-eq-some row key found in
          (e ∙ ap some same, active, fresh)

  require_api_key-Valid :
      (text : String) (key : ApiKeyInfo)
      → require_api_key hash rows now text ≡ ok key
      → Valid (without_bearer text) key
  unfolding require_api_key validate_api_key check_key
  require_api_key-Valid text key h =
      let (found, looked, checked) =
        bind-eq-ok (validate_api_key hash rows now text) (check_key hash rows now) key h in
      by_found found looked checked
    where
      by_found :
          (found : Option ApiKeyInfo)
          → validate_api_key hash rows now text ≡ ok found
          → check_key hash rows now found ≡ ok key
          → Valid (without_bearer text) key
      by_found none looked checked = absurd (ground arith)
      by_found (some row) looked checked = elim (Bool-cases (is_expired now row)) [
        | inl expired ↦
            let refused = if-eq_of_true (is_expired now row) _ _ expired checked in
            absurd (ground arith)
        | inr fresh ↦
            let kept = if-eq_of_false (is_expired now row) _ _ fresh checked in
            let same : row ≡ key = cc in
            elim (Bool-cases (str_eq text "")) [
              | inl empty ↦
                  let nothing = if-eq_of_true (str_eq text "") _ _ empty looked in
                  absurd (ground arith)
              | inr given ↦
                  lookup_key-Valid (without_bearer text) key
                    (if-eq_of_false (str_eq text "") _ _ given looked ∙ ap (λ k. ok (some k)) same)
            ]
      ]

  get_api_key_info-Valid :
      (x_api_key authorization : Option String) (key : ApiKeyInfo)
      → get_api_key_info hash rows now x_api_key authorization ≡ ok key
      → (text : String) × Presented x_api_key authorization text × Valid text key
  unfolding get_api_key_info
  get_api_key_info-Valid x_api_key authorization key h =
      let text = presented_key hash rows now x_api_key authorization in
      elim (Bool-cases (str_eq text "")) [
        | inl missing ↦
            let refused = if-eq_of_true (str_eq text "") _ _ missing h in absurd (ground arith)
        | inr given ↦ (
          without_bearer text,
          presented_key-Presented x_api_key authorization given,
          require_api_key-Valid text key (if-eq_of_false (str_eq text "") _ _ given h),
        )
      ]

require_permission-eq-ok :
    (permission : String) (key found : ApiKeyInfo)
    → require_permission permission key ≡ ok found
    → (found ≡ key) × (has_permission permission key ≡ true)
unfolding require_permission
require_permission-eq-ok permission key found h =
    elim (Bool-cases (has_permission permission key)) [
      | inl held ↦ let same = if-eq_of_true _ _ _ held h in (cc, held)
      | inr missing ↦ let refused = if-eq_of_false _ _ _ missing h in absurd (ground arith)
    ]

module _ (reads : Reads) (key : ApiKeyInfo) where
  selected-eq-ok :
      (write : Bool) (header : Option String) (ids : List String) (r : Option String)
      → resolve_selected reads key write true header ids ≡ ok r
      → (ws : String) × (r ≡ some ws)
  unfolding resolve_selected resolve_only
  selected-eq-ok write none [] r h = absurd (ground arith)
  selected-eq-ok write none (ws ∷ []) r h = (ws, cc)
  selected-eq-ok write none (ws ∷ other ∷ more) r h = absurd (ground arith)
  selected-eq-ok write (some ws) ids r h =
      let (same, within) = bound-eq-ok reads key write ws _ ids r h in (ws, same)

  resolve_by-eq-ok :
      (write : Bool) (header scope : Option String) (ids : List String) (r : Option String)
      → resolve_by reads key write true header scope ids ≡ ok r
      → (ws : String) × (r ≡ some ws)
  unfolding resolve_by resolve_user
  resolve_by-eq-ok write header none ids r h = selected-eq-ok write (selected header) ids r h
  resolve_by-eq-ok write header (some ws) ids r h =
      let (same, within) = resolve_scoped-eq-ok reads key write header ws ids r h in (ws, same)

-- A write request that is let through presents a key in its own headers, whose row is stored under
-- the hash of that key, is active, has not expired and holds the permission to write, and the request
-- resolves to exactly one workspace: it never goes on without one.
pub resolve_workspace_write-Valid :
    (hash : String → String) (rows : String → Option (Option ApiKeyInfo)) (now : ℕ) (reads : Reads)
    (x_api_key authorization header : Option String) (r : Option String)
    → (get_api_key_info hash rows now x_api_key authorization
        >>= (λ key. resolve_workspace_write reads key header))
      ≡ ok r
    → (key : ApiKeyInfo) × (text : String) × Presented x_api_key authorization text
      × Valid hash rows now text key
      × (has_permission "write" key ≡ true)
      × (resolve_workspace reads key true true header ≡ ok r)
      × (ws : String) × (r ≡ some ws)
unfolding resolve_workspace_write resolve_workspace
resolve_workspace_write-Valid hash rows now reads x_api_key authorization header r h =
    let (key, found, resolved) = bind-eq-ok _ (λ k. resolve_workspace_write reads k header) r h in
    let (same_key, permitted, entered) =
      bind-eq-ok _ (λ k. resolve_workspace reads k true true header) r resolved in
    let (same, held) = require_permission-eq-ok "write" key same_key permitted in
    let passed = subst (λ k. resolve_workspace reads k true true header ≡ ok r) same entered in
    let (ids, authorized, chosen) =
      bind-eq-ok _ (resolve_by reads key true true header (scope_of key)) r passed in
    let (ws, some_ws) = resolve_by-eq-ok reads key true header (scope_of key) ids r chosen in
    let (text, presented, valid) =
      get_api_key_info-Valid hash rows now x_api_key authorization key found in
    (key, text, presented, valid, held, passed, ws, some_ws)
