-- ===== src/PublicApi/Documents/Checked.antt =====
-- Which uploads pass the checks of an intake.
use inherent.Prelude.{
  ℕ, true, false, sym, subst, refl, All, eq_iff, List, [], ◌∷◌, ◌≤◌, ◌<◌, String, ◌≡◌, refl, inl,
  inr, Option, none, some, length, arith, ltb, ◌==◌, Bool-cases, Option-cases,
}
use inherent.Prelude.Text.{codes, lower}
use inherent.Contracts.FileTypes.{
  ExplicitlyUnsupportedSpec, has_mime, normalized_mime, extension_of, get_spec_for_extension,
  mime_type_for_extension, FileTypeSpec, UploadResolution, explicitly_unsupported_message_for_mime,
  resolve_upload_spec,
}
use inherent.Contracts.Checks.{
  sniff_content_type, check_extension_consistency, contradicting_key, contradicts,
}
use inherent.Contracts.Registered.{
  Registered, IsStoredMime, OwnMime, mime_type_for_extension-OwnMime,
  resolve_upload_spec-Registered,
}
use inherent.Contracts.Sniffed.{Genuine, sniff_content_type-Genuine}
use inherent.PublicApi.Documents.Intake.{
  Upload, FileTypes, max_size_of, stored_mime, checked_content, checked_name, checked_upload,
}

-- What an accepted upload is, with the type that is stored.
pub record Accepted (types : FileTypes) (up : Upload) (mime : String) : Type 0 where
  pub resolution : UploadResolution
  pub registered : Registered types.registry up.content_type up.filename resolution
  pub supported :
      All
        (λ u. has_mime (normalized_mime up.content_type) u.mime_types ≡ false)
        types.unsupported_formats
  -- an extension of a registered binary format is the resolved format's
  pub consistent :
      (extension magic : List ℕ) (other : FileTypeSpec)
      → extension_of (codes up.filename) ≡ some extension
      → get_spec_for_extension types.registry (lower extension) ≡ some other
      → other.magic ≡ some magic
      → other.extension_check_exempt ≡ false
      → other.key ≡ resolution.spec.key
  pub not_empty : 0 < length up.content_bytes
  pub within : length up.content_bytes ≤ max_size_of resolution.spec.max_size_bytes
  pub genuine : Genuine types.registry up.content_bytes resolution.spec
  pub stored : IsStoredMime up.content_type up.filename resolution mime

explicitly_unsupported-All :
    (table : List ExplicitlyUnsupportedSpec) (mime : String)
    → explicitly_unsupported_message_for_mime table mime ≡ none
    → All (λ u. has_mime (normalized_mime mime) u.mime_types ≡ false) table
unfolding explicitly_unsupported_message_for_mime
explicitly_unsupported-All [] mime h = tt
explicitly_unsupported-All (u ∷ table) mime h =
    elim (Bool-cases (has_mime (normalized_mime mime) u.mime_types)) [
      | inl listed ↦ absurd (ground (arith, listed, h))
      | inr free ↦ (free, explicitly_unsupported-All table mime (ground (arith, free, h)))
    ]

contradicting_key-same :
    (declared other : FileTypeSpec) (magic : List ℕ)
    → contradicting_key declared (some other) ≡ none
    → other.magic ≡ some magic
    → other.extension_check_exempt ≡ false
    → other.key ≡ declared.key
unfolding contradicting_key contradicts
contradicting_key-same declared other magic h binary checked =
    ground (arith, eq_iff other.key declared.key)

check_extension_consistency-same :
    (registry : List FileTypeSpec) (filename : String) (declared other : FileTypeSpec)
    (extension magic : List ℕ)
    → check_extension_consistency registry filename declared ≡ none
    → extension_of (codes filename) ≡ some extension
    → get_spec_for_extension registry (lower extension) ≡ some other
    → other.magic ≡ some magic
    → other.extension_check_exempt ≡ false
    → other.key ≡ declared.key
unfolding check_extension_consistency
check_extension_consistency-same registry filename declared other extension magic h e f =
    contradicting_key-same declared other magic (ground (arith, e, f, h))

stored_mime-IsStoredMime :
    (up : Upload) (r : UploadResolution)
    → IsStoredMime up.content_type up.filename r (stored_mime up r)
unfolding stored_mime
stored_mime-IsStoredMime up r = record {
  declared = λ specific. ground (arith, specific);
  derived = λ extension generic e.
      subst (OwnMime r.spec extension) (sym (derived_mime extension generic e))
        (mime_type_for_extension-OwnMime r.spec extension);
}
  where
    derived_mime :
        (extension : List ℕ)
        → r.via_generic_fallback ≡ true
        → extension_of (codes up.filename) ≡ some extension
        → stored_mime up r ≡ mime_type_for_extension r.spec extension
    derived_mime extension generic e = rw (generic, stored_mime, e) refl

module _ (types : FileTypes) (up : Upload) (mime : String) where
  checked_content-passed :
      (r : UploadResolution)
      → checked_content types up r ≡ inr mime
      → (0 < length up.content_bytes)
        × (length up.content_bytes ≤ max_size_of r.spec.max_size_bytes)
        × (sniff_content_type types.registry up.content_bytes r.spec ≡ none)
        × (mime ≡ stored_mime up r)
  unfolding checked_content
  checked_content-passed r h = elim (Bool-cases (length up.content_bytes == 0)) [
    | inl none_at_all ↦ absurd (ground (arith, none_at_all, h))
    | inr some_bytes ↦
        elim (Bool-cases (ltb (max_size_of r.spec.max_size_bytes) (length up.content_bytes))) [
          | inl too_many ↦ absurd (ground (arith, some_bytes, too_many, h))
          | inr few ↦
              elim (Option-cases (sniff_content_type types.registry up.content_bytes r.spec)) [
                | inl sniffed ↦ (
                  ground (arith, some_bytes),
                  ground (arith, few),
                  sniffed,
                  ground (arith, some_bytes, few, sniffed, h),
                )
                | inr (why, refused) ↦ absurd (ground (arith, some_bytes, few, refused, h))
              ]
        ]
  ]

  checked_name-Accepted :
      (o : Option UploadResolution)
      → resolve_upload_spec types.registry up.content_type up.filename ≡ o
      → explicitly_unsupported_message_for_mime types.unsupported_formats up.content_type ≡ none
      → checked_name types up o ≡ inr mime
      → Accepted types up mime
  unfolding checked_name
  checked_name-Accepted none e s h = absurd (ground arith)
  checked_name-Accepted (some r) e s h =
      elim (Option-cases (check_extension_consistency types.registry up.filename r.spec)) [
        | inl consistent ↦
            let (not_empty, within, sniffed, stored) =
              checked_content-passed r (ground (arith, consistent, h)) in
            record {
              resolution = r;
              registered =
                  resolve_upload_spec-Registered types.registry up.content_type up.filename r e;
              supported = explicitly_unsupported-All types.unsupported_formats up.content_type s;
              consistent = λ extension magic other.
                  check_extension_consistency-same types.registry up.filename r.spec other extension
                    magic consistent;
              not_empty = not_empty;
              within = within;
              genuine = sniff_content_type-Genuine types.registry up.content_bytes r.spec sniffed;
              stored =
                  subst (IsStoredMime up.content_type up.filename r) (sym stored)
                    (stored_mime-IsStoredMime up r);
            }
        | inr (key, mismatch) ↦ absurd (ground (arith, mismatch, h))
      ]

  -- An upload passes the checks only if its declared type is one of a registered format, or is generic
  -- and its extension is, and is not explicitly unsupported; if the extension does not contradict
  -- that format; if it has a byte at least and no more than the format allows; and if its bytes have
  -- the format's signature, where it has one, and none of another family. The type that is stored is
  -- then the declared one, or the extension's own where the declared one is generic.
  pub checked_upload-Accepted : checked_upload types up ≡ inr mime → Accepted types up mime
  unfolding checked_upload
  checked_upload-Accepted h =
      elim (Option-cases
        (explicitly_unsupported_message_for_mime types.unsupported_formats up.content_type)) [
          | inl supported ↦ checked_name-Accepted _ refl supported (ground (arith, supported, h))
          | inr (message, refused) ↦ absurd (ground (arith, refused, h))
        ]
