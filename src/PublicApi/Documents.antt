-- ===== src/PublicApi/Documents.antt =====
-- Upload and deletion of whole documents: src/services/document_intake.py and
-- src/services/deletion.py of the public API service, on the tables of src/services/database.py.
pub mod Rows
pub mod Site
pub mod Deletion
pub mod Intake
pub mod Calls
pub mod Found
pub mod Dropped
pub mod Vectors
pub mod Accepted
pub mod Checked
pub mod Uploaded
pub mod Deleted
mod Tests
