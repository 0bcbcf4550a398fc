-- ===== src/PublicApi/Access/Grants.antt =====
-- What a resolved workspace rests on.
use inherent.Prelude.{
  String, ◌≡◌, ◌≢◌, refl, subst, Bool, true, ◌&&◌, Option, none, some, List, arith, str_eq, eq_iff,
  Bool-cases, Option-cases, if-eq_of_true, if-eq_of_false, and-left, inl, inr, if◌then◌else◌,
}
use inherent.PublicApi.Access.Roles.{WorkspaceDoc, role_in_workspace_doc}
use inherent.PublicApi.Access.Directory.{
  Reads, mem, access_filter, find_one, get_workspace_role, permits, role_of,
  user_can_access_workspace,
}
use inherent.PublicApi.Access.Lookup.{In, find_one-eq-some}
use inherent.PublicApi.Access.Keys.{ApiKeyInfo, Answer, ok, http_error, raised, ◌>>=◌}
use inherent.PublicApi.Access.Resolve.{
  scope_of, scoped_ids, get_authorized_workspace_ids, authorized_for, resolve_by, deny,
  resolve_scoped, resolve_workspace,
}

pub bind-eq-ok :
    {A B : Type 0} (m : Answer A) (f : A → Answer B) (b : B)
    → (m >>= f) ≡ ok b
    → (a : A) × (m ≡ ok a) × (f a ≡ ok b)
bind-eq-ok (ok a) f b h = (a, refl, h)
bind-eq-ok (http_error status detail) f b h = cc
bind-eq-ok raised f b h = cc

-- The collection has a document of the workspace in which the user's role permits the access.
unfoldable pub RoleGrant : List WorkspaceDoc → String → Bool → String → Type 0
RoleGrant docs user_id write ws =
    (doc : WorkspaceDoc) × In doc docs
    × (doc.id ≡ ws)
    × (permits write (role_in_workspace_doc doc user_id) ≡ true)

module _ (reads : Reads) (key : ApiKeyInfo) (write : Bool) where
  pub deny-ne-ok : (ws detail : String) (r : Option String) → deny reads key write ws detail ≢ ok r
  unfolding deny
  deny-ne-ok ws detail r h = ground arith

  found-permits :
      (o : Option WorkspaceDoc)
      → permits write (role_of o key.user_id) ≡ true
      → (doc : WorkspaceDoc) × (o ≡ some doc)
        × (permits write (role_in_workspace_doc doc key.user_id) ≡ true)
  found-permits none p = absurd (ground arith)
  found-permits (some doc) p = (doc, refl, p)

  role-permits :
      (docs : List WorkspaceDoc) (ws : String)
      → permits write (
          role_of
            (find_one (λ doc. str_eq doc.id ws && access_filter key.user_id doc) docs)
            key.user_id)
        ≡ true
      → RoleGrant docs key.user_id write ws
  unfolding RoleGrant
  role-permits docs ws p =
      let (doc, found, permitted) = found-permits _ p in
      let (within, passed) = find_one-eq-some _ docs doc found in
      (doc, within, (eq_iff doc.id ws).0 (and-left (str_eq doc.id ws) _ passed), permitted)

  scoped_ids-RoleGrant :
      (ws : String) (ids : List String)
      → scoped_ids reads key write ws ≡ ok ids
      → mem ws ids ≡ true
      → (docs : List WorkspaceDoc) × (reads.role ≡ some docs) × RoleGrant docs key.user_id write ws
  unfolding scoped_ids user_can_access_workspace get_workspace_role mem
  scoped_ids-RoleGrant ws ids h m = elim (Option-cases reads.role) [
    | inl unread ↦ absurd (ground arith)
    | inr (docs, read) ↦
        elim (Bool-cases (
          permits write (
            role_of (find_one (λ doc. str_eq doc.id ws && access_filter key.user_id doc) docs)
              key.user_id))) [
                | inl permitted ↦ (docs, read, role-permits docs ws permitted)
                | inr refused ↦ absurd (ground arith)
              ]
  ]

  pub bound-eq-ok :
      (ws detail : String) (ids : List String) (r : Option String)
      → (if mem ws ids then ok (some ws) else deny reads key write ws detail) ≡ ok r
      → (r ≡ some ws) × (mem ws ids ≡ true)
  bound-eq-ok ws detail ids r h = elim (Bool-cases (mem ws ids)) [
    | inl within ↦ let same = if-eq_of_true (mem ws ids) _ _ within h in (cc, within)
    | inr outside ↦ absurd (deny-ne-ok ws detail r (if-eq_of_false (mem ws ids) _ _ outside h))
  ]

  pub resolve_scoped-eq-ok :
      (header : Option String) (ws : String) (ids : List String) (r : Option String)
      → resolve_scoped reads key write header ws ids ≡ ok r
      → (r ≡ some ws) × (mem ws ids ≡ true)
  unfolding resolve_scoped
  resolve_scoped-eq-ok none ws ids r h = bound-eq-ok ws _ ids r h
  resolve_scoped-eq-ok (some requested) ws ids r h = elim (Bool-cases (str_eq requested ws)) [
    | inl same ↦ bound-eq-ok ws _ ids r (if-eq_of_true (str_eq requested ws) _ _ same h)
    | inr other ↦
        let refused = if-eq_of_false (str_eq requested ws) _ _ other h in absurd (ground arith)
  ]

  -- A key that is bound to a workspace resolves to that workspace alone, whatever the header asks
  -- for, and only if Mongo answers and the role that it records for the key's user permits the
  -- access: for a write, not a viewer's.
  pub resolve_workspace-RoleGrant :
      (required : Bool) (header : Option String) (ws : String) (r : Option String)
      → scope_of key ≡ some ws
      → resolve_workspace reads key write required header ≡ ok r
      → (r ≡ some ws)
        × (docs : List WorkspaceDoc) × (reads.role ≡ some docs)
        × RoleGrant docs key.user_id write ws
  unfolding resolve_workspace get_authorized_workspace_ids
  resolve_workspace-RoleGrant required header ws r scoped h =
      let (ids, found, resolved) =
        bind-eq-ok (authorized_for reads key write (some ws))
          (resolve_by reads key write required header (some ws)) r
          (subst
            (λ o.
              (authorized_for reads key write o >>= resolve_by reads key write required header o)
              ≡ ok r)
            scoped h) in
      let (same, within) = resolve_scoped-eq-ok header ws ids r (unfold resolve_by in resolved) in
      let (docs, read, granted) =
        scoped_ids-RoleGrant ws ids (unfold authorized_for in found) within in
      (same, docs, read, granted)
