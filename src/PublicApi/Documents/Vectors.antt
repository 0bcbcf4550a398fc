-- ===== src/PublicApi/Documents/Vectors.antt =====
-- The batch delete of the vector store, and the answers on which a deletion goes on.
use inherent.Prelude.{
  ℕ, ◌≤◌, suc, ◌≡◌, ◌≢◌, refl, ap, ◌∙◌, Bool, true, false, ◌&&◌, List, [], ◌∷◌, ◌⊎◌, inl, inr, All,
  arith, str_eq, if◌then◌else◌,
}
use inherent.PublicApi.Documents.Site.{VectorKey, Site, Raised}
use inherent.PublicApi.Documents.Calls.{After}
use inherent.PublicApi.Documents.Deletion.{BatchReply, response, lost, Backends, read_batch}

-- Is an object of the place's document, collection and tenant?
abbrev pub is_at : VectorKey → VectorKey → Bool
is_at at v =
    str_eq v.collection at.collection
    && str_eq v.tenant at.tenant
    && str_eq v.document_id at.document_id

abbrev pub matches : VectorKey → List VectorKey → ℕ
matches at [] = 0
matches at (v ∷ vectors) = let rest = matches at vectors in if is_at at v then suc rest else rest

abbrev pub NoVectors : VectorKey → List VectorKey → Type 0
NoVectors at = All (λ v. is_at at v ≡ false)

-- What the vector store documents of a batch delete: up to `limit` matching objects are deleted or
-- counted as failed, and a collection that it does not find holds none.
pub record IsBatchDelete (env : Backends) (limit : ℕ) : Type 0 where
  pub complete :
      (n : ℕ) (at : VectorKey) (vectors : List VectorKey) (no_class : Bool) (successful : ℕ)
      → matches at vectors ≤ limit
      → (env.batch_delete n at vectors).0 ≡ response 200 no_class successful 0
      → NoVectors at (env.batch_delete n at vectors).1
  pub absent_class :
      (n : ℕ) (at : VectorKey) (vectors : List VectorKey) (status successful left : ℕ)
      → (env.batch_delete n at vectors).0 ≡ response status true successful left
      → status ≢ 200
      → NoVectors at (env.batch_delete n at vectors).1

pub returned-After :
    (Q : ℕ → Site → Type 0) (R : Raised → Site → Type 0) (r : Raised ⊎ ℕ) (w : Site)
    → ((n : ℕ) → r ≡ inr n → Q n w)
    → ((e : Raised) → R e w)
    → After Q R (r, w)
unfolding After
returned-After Q R (inr n) w q r = q n refl
returned-After Q R (inl e) w q r = r e

-- The two answers that count as a clean vector store.
read_batch-clean :
    (status : ℕ) (no_class : Bool) (successful left k : ℕ)
    → read_batch (response status no_class successful left) ≡ inr k
    → ((status ≡ 200) × (left ≡ 0)) ⊎ ((status ≢ 200) × (no_class ≡ true))
unfolding read_batch
read_batch-clean status no_class successful left k h = ground arith

module _ (env : Backends) (limit : ℕ) (laws : IsBatchDelete env limit) where
  pub read_batch-NoVectors :
      (n : ℕ) (at : VectorKey) (vectors : List VectorKey) (reply : BatchReply) (k : ℕ)
      → matches at vectors ≤ limit
      → (env.batch_delete n at vectors).0 ≡ reply
      → read_batch reply ≡ inr k
      → NoVectors at (env.batch_delete n at vectors).1
  unfolding read_batch
  read_batch-NoVectors n at vectors (lost e) k le r h = absurd (ground arith)
  read_batch-NoVectors n at vectors (response status c done left) k le r h =
      elim (read_batch-clean status c done left k h) [
        | inl (a, b) ↦
            laws.complete n at vectors c done le
              (r ∙ ap (λ s. response s c done left) a ∙ ap (λ l. response 200 c done l) b)
        | inr (a, b) ↦
            laws.absent_class n at vectors status done left
              (r ∙ ap (λ c. response status c done left) b) a
      ]
