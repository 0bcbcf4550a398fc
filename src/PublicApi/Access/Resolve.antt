-- ===== src/PublicApi/Access/Resolve.antt =====
-- `get_authorized_workspace_ids`, the denials and `_resolve_workspace`.
use Prim.Native.String.{◌++◌}
use inherent.Prelude.{
  String, Bool, true, false, Option, none, some, List, [], ◌∷◌, str_eq, if◌then◌else◌,
}
use inherent.PublicApi.Access.Directory.{
  Reads, mem, minus, is_viewer, get_user_workspace_ids, get_workspace_role,
  user_can_access_workspace, get_read_only_workspace_ids,
}
use inherent.PublicApi.Access.Keys.{
  ApiKeyInfo, Answer, ok, http_error, raised, ◌>>=◌, require_permission,
}

-- `if key_info.workspace_id:`, an empty id counting as none
unfoldable pub scope_of : ApiKeyInfo → Option String
scope_of key = elim key.workspace_id [
  | none ↦ none
  | some ws ↦ if str_eq ws "" then none else some ws
]

-- An optional id that is not empty.
unfoldable pub selected : Option String → Option String
selected none = none
selected (some ws) = if str_eq ws "" then none else some ws

module _ (reads : Reads) (key : ApiKeyInfo) (write : Bool) where
  -- A scoped key may act on its own workspace, as long as the role in Mongo permits it.
  unfoldable pub scoped_ids : String → Answer (List String)
  scoped_ids ws = elim (user_can_access_workspace reads key.user_id ws write) [
    | none ↦ raised
    | some allowed ↦ if allowed then ok (ws ∷ []) else ok []
  ]

  -- The listing less the read-only workspaces, whose read must answer.
  unfoldable pub writable_ids : List String → Option (List String) → Answer (List String)
  writable_ids ids none = raised
  writable_ids ids (some read_only) = ok (minus ids read_only)

  -- A user-scoped key may act on all workspaces of its user, but for a write on none where the
  -- user is a viewer.
  unfoldable pub user_ids : Answer (List String)
  user_ids =
      let ids = get_user_workspace_ids reads key.user_id in
      if write
      then writable_ids ids (get_read_only_workspace_ids reads.read_only key.user_id)
      else ok ids

  unfoldable pub authorized_for : Option String → Answer (List String)
  authorized_for none = user_ids
  authorized_for (some ws) = scoped_ids ws

  unfoldable pub get_authorized_workspace_ids : Answer (List String)
  get_authorized_workspace_ids = authorized_for (scope_of key)

  -- `describe_workspace_denial`
  unfoldable pub describe_workspace_denial : String → String
  describe_workspace_denial requested = elim (scope_of key) [
    | none ↦ "You don't have access to workspace '" ++ (requested ++ "'")
    | some ws ↦
        "API key is scoped to workspace '"
        ++ (ws ++ ("' and cannot access workspace '" ++ (requested ++ "'")))
  ]

  -- The 403 of a denied write tells a viewer so (`viewer_write_denial`), and has the usual wording
  -- otherwise.
  unfoldable pub deny : String → String → Answer (Option String)
  deny ws detail =
      if write
      then elim (get_workspace_role reads.denial_role key.user_id ws) [
        | none ↦ raised
        | some role ↦
            if is_viewer role
            then http_error 403 (
                "Your role in workspace '"
                ++ (ws
                    ++ "' is 'viewer', which is read-only; write operations require the owner, admin or member role"))
            else http_error 403 detail
      ]
      else http_error 403 detail

  unfoldable pub resolve_scoped : Option String → String → List String → Answer (Option String)
  resolve_scoped header ws authorized =
      let stale =
        deny ws
          ("API key is scoped to workspace '" ++ (ws ++ "', which is no longer accessible")) in
      let bound = if mem ws authorized then ok (some ws) else stale in
      elim header [
        | none ↦ bound
        | some requested ↦
            if str_eq requested ws
            then bound
            else http_error 403 (describe_workspace_denial requested)
      ]

  -- No workspace is named: the only one, if there is exactly one.
  unfoldable pub resolve_only : Bool → List String → Answer (Option String)
  resolve_only required [] =
      if required
      then http_error 400 "No workspaces found. Provide X-Workspace-Id header."
      else ok none
  resolve_only required (ws ∷ []) = ok (some ws)
  resolve_only required (ws ∷ other ∷ more) =
      if required
      then http_error 400
          "Multiple workspaces found. Provide X-Workspace-Id header to specify which workspace to use."
      else ok none

  unfoldable pub resolve_selected : Bool → Option String → List String → Answer (Option String)
  resolve_selected required none authorized = resolve_only required authorized
  resolve_selected required (some ws) authorized =
      if mem ws authorized then ok (some ws) else deny ws (describe_workspace_denial ws)

  -- A key without a workspace of its own: the header selects.
  unfoldable pub resolve_user : Bool → Option String → List String → Answer (Option String)
  resolve_user required header authorized = resolve_selected required (selected header) authorized

  -- What is done with the authorised set, by the scope of the key.
  unfoldable pub resolve_by :
      Bool → Option String → Option String → List String → Answer (Option String)
  resolve_by required header none authorized = resolve_user required header authorized
  resolve_by required header (some ws) authorized = resolve_scoped header ws authorized

  -- `_resolve_workspace`
  unfoldable pub resolve_workspace : Bool → Option String → Answer (Option String)
  resolve_workspace required header =
      get_authorized_workspace_ids >>= resolve_by required header (scope_of key)

-- `resolve_workspace_write`, `resolve_workspace_read` and `resolve_workspace_search`, behind their
-- permission
unfoldable pub resolve_workspace_write : Reads → ApiKeyInfo → Option String → Answer (Option String)
resolve_workspace_write reads key header =
    require_permission "write" key >>= (λ key. resolve_workspace reads key true true header)

unfoldable pub resolve_workspace_read : Reads → ApiKeyInfo → Option String → Answer (Option String)
resolve_workspace_read reads key header =
    require_permission "read" key >>= (λ key. resolve_workspace reads key false false header)

unfoldable pub resolve_workspace_search :
    Reads → ApiKeyInfo → Option String → Answer (Option String)
resolve_workspace_search reads key header =
    require_permission "search" key >>= (λ key. resolve_workspace reads key false false header)
