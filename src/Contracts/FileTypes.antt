-- ===== src/Contracts/FileTypes.antt =====
-- src/inh_contracts/file_types.py: what an upload's declared type, its file's name and its bytes say.
-- The registry and the table of unsupported formats are arguments. Of the texts only the MIME types
-- that are stored and the messages are strings; all others are lists of code points.
use inherent.Prelude.{
  ℕ, String, Bool, true, false, ◌&&◌, ◌||◌, Option, none, some, List, [], ◌∷◌, ◌==◌, if◌then◌else◌,
}
use inherent.Prelude.Text.{codes, lower, starts_with, contains}
use inherent.Ingestion.Chunking.Text.{strip, take}

pub record FileTypeSpec : Type 0 where
  pub key : String
  pub mime_types : List String
  pub extensions : List (List ℕ)
  pub magic : Option (List ℕ)
  pub max_size_bytes : Option ℕ
  pub magic_anchor_window : Option ℕ
  pub extension_check_exempt : Bool
  pub mime_type_by_extension : Option (List (List ℕ × String))

pub record ExplicitlyUnsupportedSpec : Type 0 where
  pub mime_types : List String
  pub message : String

pub record UploadResolution : Type 0 where
  pub spec : FileTypeSpec
  pub via_generic_fallback : Bool

-- `a == b` on lists of code points
unfoldable pub same_codes : List ℕ → List ℕ → Bool
same_codes [] [] = true
same_codes [] (d ∷ t) = false
same_codes (c ∷ s) [] = false
same_codes (c ∷ s) (d ∷ t) = c == d && same_codes s t

-- `content_type.split(";", 1)[0]`
unfoldable pub before_parameters : List ℕ → List ℕ
before_parameters [] = []
before_parameters (c ∷ s) = let rest = before_parameters s in if c == b';' then [] else c ∷ rest

-- `content_type.split(";", 1)[0].strip().lower()`
unfoldable pub normalized_mime : String → List ℕ
unfolding codes lower strip before_parameters
normalized_mime mime = lower (strip (before_parameters (codes mime)))

unfoldable pub has_mime : List ℕ → List String → Bool
unfolding same_codes codes
has_mime mime [] = false
has_mime mime (m ∷ types) = same_codes (codes m) mime || has_mime mime types

unfoldable pub has_extension : List ℕ → List (List ℕ) → Bool
unfolding same_codes
has_extension extension [] = false
has_extension extension (e ∷ extensions) =
    same_codes e extension || has_extension extension extensions

unfoldable pub explicitly_unsupported_message_for_mime :
    List ExplicitlyUnsupportedSpec → String → Option String
unfolding has_mime normalized_mime
explicitly_unsupported_message_for_mime [] mime = none
explicitly_unsupported_message_for_mime (u ∷ table) mime =
    if has_mime (normalized_mime mime) u.mime_types
    then some u.message
    else explicitly_unsupported_message_for_mime table mime

unfoldable pub get_spec_for_mime : List FileTypeSpec → String → Option FileTypeSpec
unfolding has_mime normalized_mime
get_spec_for_mime [] mime = none
get_spec_for_mime (spec ∷ registry) mime =
    if has_mime (normalized_mime mime) spec.mime_types
    then some spec
    else get_spec_for_mime registry mime

-- `"." + filename.rsplit(".", 1)[-1]`, or nothing without a dot
unfoldable pub extension_of : List ℕ → Option (List ℕ)
extension_of [] = none
extension_of (c ∷ s) = elim (extension_of s) [
  | some extension ↦ some extension
  | none ↦ if c == b'.' then some (c ∷ s) else none
]

-- `normalized.strip().lower()`, for an extension with its dot
unfoldable pub get_spec_for_extension : List FileTypeSpec → List ℕ → Option FileTypeSpec
unfolding has_extension lower strip
get_spec_for_extension [] extension = none
get_spec_for_extension (spec ∷ registry) extension =
    if has_extension (lower (strip extension)) spec.extensions
    then some spec
    else get_spec_for_extension registry extension

unfoldable pub mime_override : List ℕ → List (List ℕ × String) → Option String
unfolding same_codes
mime_override extension [] = none
mime_override extension ((candidate, mime) ∷ pairs) =
    if same_codes candidate extension then some mime else mime_override extension pairs

-- `mime_types[0]`; every specification of the registry has one.
abbrev pub first_mime : List String → String
first_mime [] = ""
first_mime (m ∷ types) = m

-- `mime_type_for_extension`, for an extension with its dot
unfoldable pub mime_type_for_extension : FileTypeSpec → List ℕ → String
unfolding mime_override lower strip
mime_type_for_extension spec extension = elim spec.mime_type_by_extension [
  | none ↦ first_mime spec.mime_types
  | some pairs ↦ elim (mime_override (lower (strip extension)) pairs) [
    | none ↦ first_mime spec.mime_types
    | some mime ↦ mime
  ]
]

-- `normalized not in GENERIC_CONTENT_TYPES`
unfoldable pub is_generic : String → Bool
unfolding normalized_mime has_mime
is_generic mime = has_mime (normalized_mime mime) ("application/octet-stream" ∷ "" ∷ [])

abbrev pub fallback_resolution : Option FileTypeSpec → Option UploadResolution
fallback_resolution none = none
fallback_resolution (some spec) = some (record { spec = spec; via_generic_fallback = true })

unfoldable pub resolve_by_name : List FileTypeSpec → List ℕ → Option UploadResolution
unfolding extension_of get_spec_for_extension
resolve_by_name registry filename = elim (extension_of filename) [
  | none ↦ none
  | some extension ↦ fallback_resolution (get_spec_for_extension registry extension)
]

unfoldable pub resolve_upload_spec : List FileTypeSpec → String → String → Option UploadResolution
unfolding get_spec_for_mime is_generic resolve_by_name codes
resolve_upload_spec registry mime filename = elim (get_spec_for_mime registry mime) [
  | some spec ↦ some (record { spec = spec; via_generic_fallback = false })
  | none ↦ if is_generic mime then resolve_by_name registry (codes filename) else none
]

-- `_SNIFF_WINDOW`
abbrev pub sniff_window : ℕ
sniff_window = 1024

abbrev pub window_of : Option ℕ → ℕ
window_of none = sniff_window
window_of (some window) = window

-- `_contains_signature`, in the specification's own window
unfoldable pub contains_signature : List ℕ → List ℕ → Option ℕ → Bool
unfolding contains take
contains_signature content magic window = contains (take (window_of window) content) magic

unfoldable pub magic_families_overlap : List ℕ → List ℕ → Bool
unfolding starts_with
magic_families_overlap a b = starts_with a b || starts_with b a
