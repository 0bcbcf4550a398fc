-- ===== src/PublicApi/Access/Roles.antt =====
-- src/services/workspace_roles.py. Ids are the strings that the code compares, `str(...)` of what
-- the control plane stores.
use inherent.Prelude.{
  ℕ, String, Bool, true, false, Option, none, some, List, [], ◌∷◌, ltb, str_eq, if◌then◌else◌,
}

pub data WorkspaceRole : Type 0 where
  owner : WorkspaceRole
  admin : WorkspaceRole
  member : WorkspaceRole
  viewer : WorkspaceRole

-- `role in VALID_ROLES`, with the role
unfoldable pub valid_role : String → Option WorkspaceRole
valid_role role =
    if str_eq role "owner"
    then some owner
    else if str_eq role "admin"
    then some admin
    else if str_eq role "member"
    then some member
    else if str_eq role "viewer"
    then some viewer
    else none

-- `role in WRITE_ROLES`
abbrev pub writes : WorkspaceRole → Bool
writes owner = true
writes admin = true
writes member = true
writes viewer = false

-- `_ROLE_RANK`
abbrev pub rank : WorkspaceRole → ℕ
rank viewer = 0
rank member = 1
rank admin = 2
rank owner = 3

pub record Member : Type 0 where
  pub user_id : String
  pub role : String

-- A document of `workspaces`; one written before members existed has no such field.
pub record WorkspaceDoc : Type 0 where
  pub id : String
  pub user_id : Option String
  pub members : Option (List Member)

-- `doc.get("members") or []`
abbrev pub members_of : WorkspaceDoc → List Member
members_of doc = elim doc.members [ none ↦ [] | some ms ↦ ms ]

abbrev pub is_user : Option String → String → Bool
is_user none user_id = false
is_user (some id) user_id = str_eq id user_id

-- `best is None or _ROLE_RANK[role] > _ROLE_RANK[best]`
unfoldable pub better : Option WorkspaceRole → WorkspaceRole → WorkspaceRole
better none role = role
better (some best) role = if ltb (rank best) (rank role) then role else best

-- The loop over the members.
unfoldable pub best_role : String → Option WorkspaceRole → List Member → Option WorkspaceRole
best_role user_id best [] = best
best_role user_id best (m ∷ ms) =
    let skipped = best_role user_id best ms in
    let raised : Option WorkspaceRole = elim (valid_role m.role) [
      | none ↦ skipped
      | some role ↦ best_role user_id (some (better best role)) ms
    ] in
    if str_eq m.user_id user_id then raised else skipped

unfoldable pub role_in_workspace_doc : WorkspaceDoc → String → Option WorkspaceRole
role_in_workspace_doc doc user_id =
    if is_user doc.user_id user_id then some owner else best_role user_id none (members_of doc)
