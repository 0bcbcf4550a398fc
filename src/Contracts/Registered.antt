-- ===== src/Contracts/Registered.antt =====
-- Which types an upload resolves to.
use inherent.Prelude.{
  ◌⊎◌, ℕ, String, ◌≡◌, refl, subst, sym, ◌∙◌, inl, inr, true, false, none, some, List, [], ◌∷◌,
  arith, Bool-cases, Option-cases,
}
use mathlib.Core.Option.{some-injective}
use inherent.Prelude.Text.{codes, lower}
use inherent.Ingestion.Chunking.Text.{strip}
use inherent.Contracts.FileTypes.{
  FileTypeSpec, UploadResolution, normalized_mime, has_mime, has_extension, get_spec_for_mime,
  extension_of, get_spec_for_extension, is_generic, resolve_by_name, resolve_upload_spec,
  same_codes, first_mime, mime_override, mime_type_for_extension,
}

-- Is a specification one of the registry's?
abbrev pub In : FileTypeSpec → List FileTypeSpec → Type 0
In spec [] = ⊥
In spec (s ∷ registry) = (s ≡ spec) ⊎ In spec registry

-- Do the pairs give an extension this MIME type?
abbrev pub Paired : List ℕ → String → List (List ℕ × String) → Type 0
Paired extension mime [] = ⊥
Paired extension mime ((candidate, own) ∷ pairs) =
    ((same_codes candidate extension ≡ true) × (own ≡ mime)) ⊎ Paired extension mime pairs

-- The MIME type that a specification has for an extension: one that its table pairs with the
-- extension, or the first of its types, where it has no table or the table has no pair for it.
pub data OwnMime (spec : FileTypeSpec) (extension : List ℕ) : String → Type 0 where
  paired :
      (pairs : List (List ℕ × String)) (mime : String)
      → spec.mime_type_by_extension ≡ some pairs
      → Paired (lower (strip extension)) mime pairs
      → OwnMime spec extension mime
  first :
      ((pairs : List (List ℕ × String)) (mime : String)
        → spec.mime_type_by_extension ≡ some pairs
        → ¬ Paired (lower (strip extension)) mime pairs)
      → OwnMime spec extension (first_mime spec.mime_types)

-- Why a type counts as registered: the declared MIME type is one of a registered format's, or it is
-- generic and the file's extension is one of a registered format's.
pub data Registered (registry : List FileTypeSpec) (mime filename : String)
    : UploadResolution → Type 0 where
  by_mime :
      (spec : FileTypeSpec)
      → In spec registry
      → has_mime (normalized_mime mime) spec.mime_types ≡ true
      → Registered registry mime filename (record { spec = spec; via_generic_fallback = false })
  by_extension :
      (spec : FileTypeSpec) (extension : List ℕ)
      → In spec registry
      → is_generic mime ≡ true
      → extension_of (codes filename) ≡ some extension
      → has_extension (lower (strip extension)) spec.extensions ≡ true
      → Registered registry mime filename (record { spec = spec; via_generic_fallback = true })

-- The type to store: the declared one, or where that is generic the extension's own.
pub record IsStoredMime (mime filename : String) (r : UploadResolution) (own : String)
    : Type 0 where
  pub declared : r.via_generic_fallback ≡ false → own ≡ mime
  pub derived :
      (extension : List ℕ)
      → r.via_generic_fallback ≡ true
      → extension_of (codes filename) ≡ some extension
      → OwnMime r.spec extension own

pair_missing :
    (extension : List ℕ) (pairs : List (List ℕ × String))
    → mime_override extension pairs ≡ none
    → (mime : String) → ¬ Paired extension mime pairs
unfolding mime_override
pair_missing extension [] h mime p = p
pair_missing extension ((candidate, own) ∷ pairs) h mime p =
    elim (Bool-cases (same_codes candidate extension)) [
      | inl same ↦ absurd (ground (arith, same, h))
      | inr other ↦ elim p [
        | inl (same, e) ↦ absurd (ground (arith, same, other))
        | inr later ↦ pair_missing extension pairs (ground (arith, other, h)) mime later
      ]
    ]

pair_found :
    (extension : List ℕ) (pairs : List (List ℕ × String)) (mime : String)
    → mime_override extension pairs ≡ some mime
    → Paired extension mime pairs
unfolding mime_override
pair_found extension [] mime h = absurd (ground arith)
pair_found extension ((candidate, own) ∷ pairs) mime h =
    elim (Bool-cases (same_codes candidate extension)) [
      | inl same ↦ inl (same, ground (arith, same, h))
      | inr other ↦ inr (pair_found extension pairs mime (ground (arith, other, h)))
    ]

pub mime_type_for_extension-OwnMime :
    (spec : FileTypeSpec) (extension : List ℕ)
    → OwnMime spec extension (mime_type_for_extension spec extension)
unfolding mime_type_for_extension
mime_type_for_extension-OwnMime spec extension = elim (Option-cases spec.mime_type_by_extension) [
  | inl e ↦ rw (e, mime_type_for_extension) (first (λ pairs mime f. absurd (ground (arith, e, f))))
  | inr (pairs, e) ↦ elim (Option-cases (mime_override (lower (strip extension)) pairs)) [
    | inl missing ↦
        rw (e, mime_type_for_extension, missing)
          (first (λ others mime f.
            subst (λ l. ¬ Paired (lower (strip extension)) mime l) (some-injective _ _ f)
              (pair_missing (lower (strip extension)) pairs missing mime)))
    | inr (mime, found) ↦
        rw (e, mime_type_for_extension, found)
          (paired pairs mime refl (pair_found (lower (strip extension)) pairs mime found))
  ]
]

get_spec_for_mime-has_mime :
    (registry : List FileTypeSpec) (mime : String) (spec : FileTypeSpec)
    → get_spec_for_mime registry mime ≡ some spec
    → In spec registry × (has_mime (normalized_mime mime) spec.mime_types ≡ true)
unfolding get_spec_for_mime
get_spec_for_mime-has_mime [] mime spec h = absurd (ground arith)
get_spec_for_mime-has_mime (s ∷ registry) mime spec h =
    ground (arith, get_spec_for_mime-has_mime registry mime spec)

get_spec_for_extension-has_extension :
    (registry : List FileTypeSpec) (extension : List ℕ) (spec : FileTypeSpec)
    → get_spec_for_extension registry extension ≡ some spec
    → In spec registry × (has_extension (lower (strip extension)) spec.extensions ≡ true)
unfolding get_spec_for_extension
get_spec_for_extension-has_extension [] extension spec h = absurd (ground arith)
get_spec_for_extension-has_extension (s ∷ registry) extension spec h =
    ground (arith, get_spec_for_extension-has_extension registry extension spec)

module _ (registry : List FileTypeSpec) (mime filename : String) (r : UploadResolution) where
  resolve_by_name-Registered :
      is_generic mime ≡ true
      → resolve_by_name registry (codes filename) ≡ some r
      → Registered registry mime filename r
  unfolding resolve_by_name
  resolve_by_name-Registered generic h = elim (Option-cases (extension_of (codes filename))) [
    | inl e ↦ absurd (ground (arith, e, h))
    | inr (extension, e) ↦ elim (Option-cases (get_spec_for_extension registry extension)) [
      | inl f ↦ absurd (ground (arith, e, f, h))
      | inr (spec, f) ↦
          let found : resolve_by_name registry (codes filename)
              ≡ some (record { spec = spec; via_generic_fallback = true }) =
            rw (e, resolve_by_name, f) refl in
          subst (Registered registry mime filename) (some-injective _ _ (sym found ∙ h)) (
            let (within, listed) = get_spec_for_extension-has_extension registry extension spec f in
            by_extension spec extension within generic e listed)
    ]
  ]

  -- A specific type that is not registered resolves to nothing, whatever the file is called.
  pub resolve_upload_spec-Registered :
      resolve_upload_spec registry mime filename ≡ some r → Registered registry mime filename r
  unfolding resolve_upload_spec
  resolve_upload_spec-Registered h = elim (Option-cases (get_spec_for_mime registry mime)) [
    | inl e ↦ elim (Bool-cases (is_generic mime)) [
      | inl generic ↦ resolve_by_name-Registered generic (ground (arith, e, generic, h))
      | inr specific ↦ absurd (ground (arith, e, specific, h))
    ]
    | inr (spec, e) ↦
        let found : resolve_upload_spec registry mime filename
            ≡ some (record { spec = spec; via_generic_fallback = false }) =
          rw (e, resolve_upload_spec) refl in
        subst (Registered registry mime filename) (some-injective _ _ (sym found ∙ h)) (
          let (within, listed) = get_spec_for_mime-has_mime registry mime spec e in
          by_mime spec within listed)
  ]
