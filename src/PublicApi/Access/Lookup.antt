-- ===== src/PublicApi/Access/Lookup.antt =====
-- Membership in lists of ids, and what the queries on the collection find.
use inherent.Prelude.{
  String, ◌≡◌, refl, ap, subst, ◌∙◌, Bool, true, false, ◌&&◌, ◌||◌, not, some, List, [], ◌∷◌, ◌++◌,
  arith, str_eq, eq_iff, eq_refl, Bool-cases, inl, inr, if◌then◌else◌,
}
use inherent.PublicApi.Access.Roles.{WorkspaceDoc}
use inherent.PublicApi.Access.Directory.{mem, minus, find_ids, find_one}

-- A document of the collection.
pub data In (doc : WorkspaceDoc) : List WorkspaceDoc → Type 0 where
  here : (docs : List WorkspaceDoc) → In doc (doc ∷ docs)
  there : (other : WorkspaceDoc) (docs : List WorkspaceDoc) → In doc docs → In doc (other ∷ docs)

pub mem-append : (x : String) (xs ys : List String) → mem x (xs ++ ys) ≡ (mem x xs || mem x ys)
unfolding mem
mem-append x [] ys = refl
mem-append x (y ∷ xs) ys = ap (λ b. str_eq y x || b) (mem-append x xs ys) ∙ assoc (str_eq y x)
  where
    assoc : (b : Bool) → (b || (mem x xs || mem x ys)) ≡ ((b || mem x xs) || mem x ys)
    assoc true = refl
    assoc false = refl

pub mem-minus :
    (x : String) (xs ys : List String) → mem x (minus xs ys) ≡ (mem x xs && not (mem x ys))
unfolding mem minus
mem-minus x [] ys = refl
mem-minus x (y ∷ xs) ys =
    let rest = mem-minus x xs ys in
    elim (Bool-cases (str_eq y x)) [
      | inl same ↦
          let kept : mem y ys ≡ mem x ys = ap (λ z. mem z ys) ((eq_iff y x).0 same) in ground arith
      | inr other ↦ ground arith
    ]

pub mem-find_ids :
    (x : String) (passes : WorkspaceDoc → Bool) (docs : List WorkspaceDoc)
    → mem x (find_ids passes docs) ≡ true
    → (doc : WorkspaceDoc) × In doc docs × (doc.id ≡ x) × (passes doc ≡ true)
unfolding mem find_ids
mem-find_ids x passes [] h = absurd (ground arith)
mem-find_ids x passes (d ∷ docs) h = elim (Bool-cases (passes d)) [
  | inl yes_ ↦ elim (Bool-cases (str_eq d.id x)) [
    | inl same ↦ (d, here docs, (eq_iff d.id x).0 same, yes_)
    | inr other ↦
        let (doc, within, named, passed) = mem-find_ids x passes docs (ground arith) in
        (doc, there d docs within, named, passed)
  ]
  | inr no_ ↦
      let (doc, within, named, passed) = mem-find_ids x passes docs (ground arith) in
      (doc, there d docs within, named, passed)
]

pub In-find_ids :
    (passes : WorkspaceDoc → Bool) (doc : WorkspaceDoc) (docs : List WorkspaceDoc)
    → In doc docs
    → passes doc ≡ true
    → mem doc.id (find_ids passes docs) ≡ true
unfolding mem find_ids
In-find_ids passes doc [] m h = elim m [ ]
In-find_ids passes doc (d ∷ docs) (here _) h = rw (h, find_ids, eq_refl doc.id) refl
In-find_ids passes doc (d ∷ docs) (there _ _ m) h =
    let rest = In-find_ids passes doc docs m h in ground arith

pub find_one-eq-some :
    (passes : WorkspaceDoc → Bool) (docs : List WorkspaceDoc) (doc : WorkspaceDoc)
    → find_one passes docs ≡ some doc
    → In doc docs × (passes doc ≡ true)
unfolding find_one
find_one-eq-some passes [] doc h = absurd (ground arith)
find_one-eq-some passes (d ∷ docs) doc h = elim (Bool-cases (passes d)) [
  | inl yes_ ↦
      let found : some d ≡ some doc =
        subst (λ b. (if b then some d else find_one passes docs) ≡ some doc) yes_ h in
      let same : d ≡ doc = cc in
      subst (λ d'. In d' (d ∷ docs) × (passes d' ≡ true)) same (here docs, yes_)
  | inr no_ ↦
      let (within, passed) =
        find_one-eq-some passes docs doc
          (subst (λ b. (if b then some d else find_one passes docs) ≡ some doc) no_ h) in
      (there d docs within, passed)
]
