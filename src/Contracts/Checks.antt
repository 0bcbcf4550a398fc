-- ===== src/Contracts/Checks.antt =====
-- The two cross-checks of src/inh_contracts/file_types.py: the bytes, and the file's name, against
-- the declared type.
use inherent.Prelude.{
  ℕ, String, Bool, false, ◌&&◌, not, Option, none, some, List, [], ◌∷◌, str_eq, if◌then◌else◌,
}
use inherent.Prelude.Text.{codes, lower}
use inherent.Contracts.FileTypes.{
  FileTypeSpec, extension_of, get_spec_for_extension, contains_signature, magic_families_overlap,
}

-- Why bytes are refused: they lack the own signature of the type, or have that of another key.
pub data ContentMismatch : Type 0 where
  own_missing : String → ContentMismatch
  other_found : String → ContentMismatch

-- `spec.magic is not None and not _contains_signature(…)`
unfoldable pub lacks_own : List ℕ → FileTypeSpec → Bool
unfolding contains_signature
lacks_own content spec = elim spec.magic [
  | none ↦ false
  | some magic ↦ not (contains_signature content magic spec.magic_anchor_window)
]

-- `spec.magic is not None and _magic_families_overlap(…)`
unfoldable pub same_family : Option (List ℕ) → List ℕ → Bool
unfolding magic_families_overlap
same_family none other = false
same_family (some magic) other = magic_families_overlap magic other

-- Does the loop refuse the content at this entry of the registry?
unfoldable pub has_foreign : List ℕ → FileTypeSpec → FileTypeSpec → Bool
unfolding same_family contains_signature
has_foreign content spec other = elim other.magic [
  | none ↦ false
  | some magic ↦
      if str_eq other.key spec.key
      then false
      else if same_family spec.magic magic
      then false
      else contains_signature content magic other.magic_anchor_window
]

unfoldable pub foreign_signature :
    List ℕ → FileTypeSpec → List FileTypeSpec → Option ContentMismatch
unfolding has_foreign
foreign_signature content spec [] = none
foreign_signature content spec (other ∷ registry) =
    if has_foreign content spec other
    then some (other_found other.key)
    else foreign_signature content spec registry

-- `sniff_content_type` on a resolved specification, which returns, or raises the mismatch.
unfoldable pub sniff_content_type :
    List FileTypeSpec → List ℕ → FileTypeSpec → Option ContentMismatch
unfolding lacks_own foreign_signature
sniff_content_type registry content spec =
    if lacks_own content spec
    then some (own_missing spec.key)
    else foreign_signature content spec registry

-- Does the type of the extension contradict the declared one?
unfoldable pub contradicts : FileTypeSpec → FileTypeSpec → Bool
contradicts declared by_extension = elim by_extension.magic [
  | none ↦ false
  | some magic ↦
      not by_extension.extension_check_exempt && not (str_eq by_extension.key declared.key)
]

unfoldable pub contradicting_key : FileTypeSpec → Option FileTypeSpec → Option String
unfolding contradicts
contradicting_key declared none = none
contradicting_key declared (some by_extension) =
    if contradicts declared by_extension then some by_extension.key else none

-- The key of the extension's type in the mismatch that it raises, if it does.
unfoldable pub check_extension_consistency :
    List FileTypeSpec → String → FileTypeSpec → Option String
unfolding extension_of get_spec_for_extension contradicting_key codes lower
check_extension_consistency registry filename declared = elim (extension_of (codes filename)) [
  | none ↦ none
  | some extension ↦ contradicting_key declared (get_spec_for_extension registry (lower extension))
]
