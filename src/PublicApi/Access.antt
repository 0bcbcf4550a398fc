-- ===== src/PublicApi/Access.antt =====
-- Who may act on which workspace: src/services/workspace_roles.py, src/services/auth.py up to its
-- OAuth part, and the control-plane reads of src/services/database.py, all of the public API.
pub mod Roles
pub mod Directory
pub mod Keys
pub mod Resolve
pub mod Lookup
pub mod Grants
pub mod Outage
pub mod Entry
mod Tests
