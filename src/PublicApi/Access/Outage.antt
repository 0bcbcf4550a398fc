-- ===== src/PublicApi/Access/Outage.antt =====
-- Writes while Mongo does not answer.
use inherent.Prelude.{String, ◌≡◌, refl, ap, Bool, true, Option, none, some}
use inherent.PublicApi.Access.Directory.{
  Reads, get_workspace_role, user_can_access_workspace, get_read_only_workspace_ids,
}
use inherent.PublicApi.Access.Keys.{ApiKeyInfo, raised, ◌>>=◌}
use inherent.PublicApi.Access.Resolve.{
  scope_of, scoped_ids, user_ids, writable_ids, authorized_for, get_authorized_workspace_ids,
  resolve_by, resolve_workspace,
}

module _ (reads : Reads) (key : ApiKeyInfo) where
  authorized_for-raised :
      (scope : Option String)
      → reads.role ≡ none
      → reads.read_only ≡ none
      → authorized_for reads key true scope ≡ raised
  unfolding authorized_for scoped_ids user_ids user_can_access_workspace get_workspace_role
      get_read_only_workspace_ids writable_ids
  authorized_for-raised none role read_only = rw read_only refl
  authorized_for-raised (some ws) role read_only = rw role refl

  -- While Mongo does not answer the reads of roles, no write resolves, for no kind of key and no
  -- header: the request raises, instead of being granted or refused on what is left of the data.
  pub resolve_workspace-raised :
      (required : Bool) (header : Option String)
      → reads.role ≡ none
      → reads.read_only ≡ none
      → resolve_workspace reads key true required header ≡ raised
  unfolding resolve_workspace get_authorized_workspace_ids
  resolve_workspace-raised required header role read_only =
      ap (λ a. a >>= resolve_by reads key true required header (scope_of key))
        (authorized_for-raised (scope_of key) role read_only)
