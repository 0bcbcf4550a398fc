-- ===== src/PublicApi/Access/Tests.antt =====
-- Requests on a sample directory, and the theorems there.
use inherent.Prelude.{String, ◌≡◌, refl, true, Option, none, some, List, [], ◌∷◌}
use inherent.PublicApi.Access.Roles.{
  WorkspaceDoc, valid_role, better, best_role, role_in_workspace_doc,
}
use inherent.PublicApi.Access.Directory.{
  Reads, mem, minus, has_member, access_filter, find_ids, find_one, managed_workspace_ids,
  listed_ids, uploaded_ids, fallback_ids, get_user_workspace_ids, get_workspace_role,
  user_can_access_workspace, any_member, reads_only, get_read_only_workspace_ids,
}
use inherent.PublicApi.Access.Keys.{
  ApiKeyInfo, ok, http_error, raised, ◌>>=◌, has_permission, is_expired, drop, without_bearer,
  accept_row, lookup_key, validate_api_key, check_key, require_api_key, presented_key,
  get_api_key_info, require_permission,
}
use inherent.PublicApi.Access.Resolve.{
  scope_of, selected, scoped_ids, writable_ids, user_ids, authorized_for,
  get_authorized_workspace_ids, deny, resolve_scoped, resolve_only, resolve_selected, resolve_user,
  resolve_by, resolve_workspace, resolve_workspace_write,
}
use inherent.PublicApi.Access.Grants.{RoleGrant, resolve_workspace-RoleGrant}
use inherent.PublicApi.Access.Outage.{resolve_workspace-raised}
use inherent.PublicApi.Access.Entry.{Presented, Valid, resolve_workspace_write-Valid}

-- Ann owns `w1`; Ben is a member of it, and Vic a viewer.
abbrev shared : WorkspaceDoc
shared = record {
  id = "w1";
  user_id = some "ann";
  members = some (
      record { user_id = "ben"; role = "member" }
      ∷ record { user_id = "vic"; role = "viewer" }
      ∷ []);
}

abbrev docs : List WorkspaceDoc
docs = shared ∷ []

abbrev w1 : Option String
w1 = some "w1"

abbrev reads : Reads
reads = record {
  listing = some docs;
  managed = some docs;
  role = some docs;
  read_only = some docs;
  denial_role = some docs;
  uploads = some [];
}

abbrev key_of : Option String → ApiKeyInfo
key_of scope = record {
  key_id = "k";
  user_id = "ben";
  workspace_id = scope;
  permissions = "write" ∷ [];
  expires_at = none;
  status = "active";
}

scoped_run : resolve_workspace reads (key_of (some "w1")) true true none ≡ ok (some "w1")
unfolding scope_of selected scoped_ids authorized_for get_authorized_workspace_ids resolve_scoped
    resolve_by resolve_workspace user_can_access_workspace get_workspace_role find_one access_filter
    has_member role_in_workspace_doc best_role valid_role mem better
scoped_run = refl

scoped : scope_of (key_of (some "w1")) ≡ some "w1"
unfolding scope_of
scoped = refl

resolve_workspace-RoleGrant_example :
    (w1 ≡ some "w1")
    × (ds : List WorkspaceDoc) × (reads.role ≡ some ds)
    × RoleGrant ds "ben" true "w1"
resolve_workspace-RoleGrant_example =
    resolve_workspace-RoleGrant reads (key_of (some "w1")) true true none "w1" (some "w1") scoped
      scoped_run

listed_run : resolve_workspace reads (key_of none) true true none ≡ ok (some "w1")
unfolding scope_of selected user_ids writable_ids authorized_for get_authorized_workspace_ids
    resolve_only resolve_selected resolve_user resolve_by resolve_workspace mem minus has_member
    access_filter find_ids managed_workspace_ids listed_ids uploaded_ids fallback_ids
    get_user_workspace_ids any_member reads_only get_read_only_workspace_ids role_in_workspace_doc
    best_role valid_role better
listed_run = refl

unscoped : scope_of (key_of none) ≡ none
unfolding scope_of
unscoped = refl

abbrev dark : Reads
dark = record {
  listing = none;
  managed = none;
  role = none;
  read_only = none;
  denial_role = none;
  uploads = some ("w1" ∷ []);
}

resolve_workspace-raised_example :
    resolve_workspace dark (key_of none) true true (some "w1") ≡ raised
resolve_workspace-raised_example =
    resolve_workspace-raised dark (key_of none) true (some "w1") refl refl

abbrev rows : String → Option (Option ApiKeyInfo)
rows text = some (some (key_of none))

abbrev hash : String → String
hash text = text

entry_run :
    (get_api_key_info hash rows 7 none (some "Bearer ink_1")
      >>= (λ key. resolve_workspace_write reads key none))
    ≡ ok (some "w1")
unfolding scope_of selected user_ids writable_ids authorized_for get_authorized_workspace_ids
    resolve_only resolve_selected resolve_user resolve_by resolve_workspace mem minus has_member
    access_filter find_ids managed_workspace_ids listed_ids uploaded_ids fallback_ids
    get_user_workspace_ids any_member reads_only get_read_only_workspace_ids role_in_workspace_doc
    best_role valid_role better has_permission is_expired drop without_bearer accept_row lookup_key
    validate_api_key check_key require_api_key presented_key get_api_key_info require_permission
    resolve_workspace_write
entry_run = refl

resolve_workspace_write-Valid_example :
    (key : ApiKeyInfo) × (text : String) × Presented none (some "Bearer ink_1") text
    × Valid hash rows 7 text key
    × (has_permission "write" key ≡ true)
    × (resolve_workspace reads key true true none ≡ ok (some "w1"))
    × (ws : String) × (w1 ≡ some ws)
resolve_workspace_write-Valid_example =
    resolve_workspace_write-Valid hash rows 7 reads none (some "Bearer ink_1") none (some "w1")
      entry_run

-- Ann's workspace now, without members, to which Ben has uploaded before she had it.
abbrev transferred : Reads
transferred = record {
  listing = some (record { id = "w2"; user_id = some "ann"; members = none } ∷ []);
  managed = some (record { id = "w2"; user_id = some "ann"; members = none } ∷ []);
  role = some (record { id = "w2"; user_id = some "ann"; members = none } ∷ []);
  read_only = some (record { id = "w2"; user_id = some "ann"; members = none } ∷ []);
  denial_role = some (record { id = "w2"; user_id = some "ann"; members = none } ∷ []);
  uploads = some ("w2" ∷ []);
}

past_uploader_writes :
    resolve_workspace transferred (key_of none) true true (some "w2") ≡ ok (some "w2")
unfolding scope_of selected user_ids writable_ids authorized_for get_authorized_workspace_ids
    resolve_only resolve_selected resolve_user resolve_by resolve_workspace mem minus has_member
    access_filter find_ids managed_workspace_ids listed_ids uploaded_ids fallback_ids
    get_user_workspace_ids any_member reads_only get_read_only_workspace_ids role_in_workspace_doc
    best_role valid_role better
past_uploader_writes = refl

scoped_key_refused :
    resolve_workspace transferred (key_of (some "w2")) true true none
    ≡ http_error 403 "API key is scoped to workspace 'w2', which is no longer accessible"
unfolding scope_of selected scoped_ids authorized_for get_authorized_workspace_ids resolve_scoped
    resolve_by resolve_workspace user_can_access_workspace get_workspace_role find_one access_filter
    has_member role_in_workspace_doc best_role mem deny
scoped_key_refused = refl
