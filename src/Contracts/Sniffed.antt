-- ===== src/Contracts/Sniffed.antt =====
-- Which bytes pass for a type.
use inherent.Prelude.{
  ℕ, ◌≡◌, inl, inr, true, false, none, some, List, [], ◌∷◌, All, arith, str_eq, Bool-cases,
}
use inherent.Contracts.FileTypes.{FileTypeSpec, contains_signature}
use inherent.Contracts.Checks.{
  lacks_own, same_family, has_foreign, foreign_signature, sniff_content_type,
}

-- The bytes have the signature of the type, if it has one, and none of another key, but of the same
-- family.
pub record Genuine (registry : List FileTypeSpec) (content : List ℕ) (spec : FileTypeSpec)
    : Type 0 where
  pub own :
      (magic : List ℕ)
      → spec.magic ≡ some magic
      → contains_signature content magic spec.magic_anchor_window ≡ true
  pub no_other :
      All
        (λ other.
          (magic : List ℕ)
          → other.magic ≡ some magic
          → str_eq other.key spec.key ≡ false
          → same_family spec.magic magic ≡ false
          → contains_signature content magic other.magic_anchor_window ≡ false)
        registry

lacks_own-own :
    (content : List ℕ) (spec : FileTypeSpec) (magic : List ℕ)
    → lacks_own content spec ≡ false
    → spec.magic ≡ some magic
    → contains_signature content magic spec.magic_anchor_window ≡ true
unfolding lacks_own
lacks_own-own content spec magic h e = ground arith

has_foreign-other :
    (content : List ℕ) (spec other : FileTypeSpec) (magic : List ℕ)
    → has_foreign content spec other ≡ false
    → other.magic ≡ some magic
    → str_eq other.key spec.key ≡ false
    → same_family spec.magic magic ≡ false
    → contains_signature content magic other.magic_anchor_window ≡ false
unfolding has_foreign
has_foreign-other content spec other magic h e k f = ground arith

foreign_signature-All :
    (content : List ℕ) (spec : FileTypeSpec) (registry : List FileTypeSpec)
    → foreign_signature content spec registry ≡ none
    → All (λ other. has_foreign content spec other ≡ false) registry
unfolding foreign_signature
foreign_signature-All content spec [] h = tt
foreign_signature-All content spec (other ∷ registry) h =
    elim (Bool-cases (has_foreign content spec other)) [
      | inl found ↦ absurd (ground arith)
      | inr clean ↦ (clean, foreign_signature-All content spec registry (ground arith))
    ]

All-map :
    {A : Type 0} (P Q : A → Type 0) (xs : List A) → ((a : A) → P a → Q a) → All P xs → All Q xs
All-map P Q [] f h = tt
All-map P Q (x ∷ xs) f (p, h) = (f x p, All-map P Q xs f h)

pub sniff_content_type-Genuine :
    (registry : List FileTypeSpec) (content : List ℕ) (spec : FileTypeSpec)
    → sniff_content_type registry content spec ≡ none
    → Genuine registry content spec
unfolding sniff_content_type
sniff_content_type-Genuine registry content spec h = elim (Bool-cases (lacks_own content spec)) [
  | inl lacking ↦ absurd (ground arith)
  | inr has ↦ record {
    own = λ magic. lacks_own-own content spec magic has;
    no_other =
        All-map _ _ registry (λ other clean magic. has_foreign-other content spec other magic clean)
          (foreign_signature-All content spec registry (ground arith));
  }
]
