-- ===== src/PublicApi/Access/Directory.antt =====
-- The reads of the control plane and of the uploads, in src/services/database.py. Each read finds
-- the collection as it is at that time, or raises (`none`).
-- Ids are texts. That Mongo may hold an id as an ObjectId, which the code's queries match beside the
-- text, is not represented.
use inherent.Prelude.{
  String, Bool, true, false, ◌&&◌, ◌||◌, not, Option, none, some, List, [], ◌∷◌, ◌++◌, str_eq,
  if◌then◌else◌,
}
use inherent.PublicApi.Access.Roles.{
  WorkspaceRole, writes, valid_role, Member, WorkspaceDoc, members_of, is_user,
  role_in_workspace_doc,
}

-- What the reads of one request find: the listing, the workspaces with members, the role, the
-- read-only workspaces, the role once more for the denial, and the uploads of the user.
pub record Reads : Type 0 where
  pub listing : Option (List WorkspaceDoc)
  pub managed : Option (List WorkspaceDoc)
  pub role : Option (List WorkspaceDoc)
  pub read_only : Option (List WorkspaceDoc)
  pub denial_role : Option (List WorkspaceDoc)
  pub uploads : Option (List String)

unfoldable pub mem : String → List String → Bool
mem x [] = false
mem x (y ∷ ys) = str_eq y x || mem x ys

unfoldable pub minus : List String → List String → List String
minus [] ys = []
minus (x ∷ xs) ys = if mem x ys then minus xs ys else x ∷ minus xs ys

abbrev pub is_some : {A : Type 0} → Option A → Bool
is_some none = false
is_some (some a) = true

-- The `$elemMatch` on a user and a recognised role.
unfoldable pub has_member : String → List Member → Bool
has_member user_id [] = false
has_member user_id (m ∷ ms) =
    (str_eq m.user_id user_id && is_some (valid_role m.role)) || has_member user_id ms

-- `_workspace_access_filter`
unfoldable pub access_filter : String → WorkspaceDoc → Bool
access_filter user_id doc = is_user doc.user_id user_id || has_member user_id (members_of doc)

-- The ids of the documents that pass a filter.
unfoldable pub find_ids : (WorkspaceDoc → Bool) → List WorkspaceDoc → List String
find_ids passes [] = []
find_ids passes (doc ∷ docs) =
    if passes doc then doc.id ∷ find_ids passes docs else find_ids passes docs

-- `find_one`
unfoldable pub find_one : (WorkspaceDoc → Bool) → List WorkspaceDoc → Option WorkspaceDoc
find_one passes [] = none
find_one passes (doc ∷ docs) = if passes doc then some doc else find_one passes docs

-- `_membership_managed_workspace_ids`; a raising read drops nothing.
unfoldable pub managed_workspace_ids : Option (List WorkspaceDoc) → List String
managed_workspace_ids none = []
managed_workspace_ids (some docs) = find_ids (λ doc. is_some doc.members) docs

-- The ids that the listing finds; a raising listing finds none.
unfoldable pub listed_ids : Option (List WorkspaceDoc) → String → List String
listed_ids none user_id = []
listed_ids (some docs) user_id = find_ids (access_filter user_id) docs

-- The uploads; a raising read finds none.
unfoldable pub uploaded_ids : Option (List String) → List String
uploaded_ids none = []
uploaded_ids (some ids) = ids

-- `pg_only`: the uploads less the listed ids and, if the listing has answered, less the managed ids.
unfoldable pub fallback_ids : Option (List WorkspaceDoc) → Reads → String → List String
fallback_ids none reads user_id = minus (uploaded_ids reads.uploads) (listed_ids none user_id)
fallback_ids (some docs) reads user_id =
    minus (minus (uploaded_ids reads.uploads) (listed_ids (some docs) user_id))
      (managed_workspace_ids reads.managed)

unfoldable pub get_user_workspace_ids : Reads → String → List String
get_user_workspace_ids reads user_id =
    listed_ids reads.listing user_id ++ fallback_ids reads.listing reads user_id

-- `role_in_workspace_doc(doc, user_id) if doc else None`
abbrev pub role_of : Option WorkspaceDoc → String → Option WorkspaceRole
role_of none user_id = none
role_of (some doc) user_id = role_in_workspace_doc doc user_id

-- `get_workspace_role_in_mongo`, on what its read finds; `none` is a read that raised.
unfoldable pub get_workspace_role :
    Option (List WorkspaceDoc) → String → String → Option (Option WorkspaceRole)
get_workspace_role none user_id workspace_id = none
get_workspace_role (some docs) user_id workspace_id = some (
    role_of (find_one (λ doc. str_eq doc.id workspace_id && access_filter user_id doc) docs)
      user_id)

abbrev pub permits : Bool → Option WorkspaceRole → Bool
permits write none = false
permits true (some role) = writes role
permits false (some role) = true

-- `user_can_access_workspace_in_mongo`
unfoldable pub user_can_access_workspace : Reads → String → String → Bool → Option Bool
user_can_access_workspace reads user_id workspace_id write =
    elim (get_workspace_role reads.role user_id workspace_id) [
      | none ↦ none
      | some role ↦ some (permits write role)
    ]

abbrev pub is_viewer : Option WorkspaceRole → Bool
is_viewer none = false
is_viewer (some role) = not (writes role)

unfoldable pub any_member : String → List Member → Bool
any_member user_id [] = false
any_member user_id (m ∷ ms) = str_eq m.user_id user_id || any_member user_id ms

-- Is the user a member, and a viewer?
unfoldable pub reads_only : String → WorkspaceDoc → Bool
reads_only user_id doc =
    any_member user_id (members_of doc) && is_viewer (role_in_workspace_doc doc user_id)

-- `get_read_only_workspace_ids_in_mongo`
unfoldable pub get_read_only_workspace_ids :
    Option (List WorkspaceDoc) → String → Option (List String)
get_read_only_workspace_ids none user_id = none
get_read_only_workspace_ids (some docs) user_id = some (find_ids (reads_only user_id) docs)
