-- ===== src/Ingestion/Chunking.antt =====
-- How a text is cut into chunks: temporal/activities/chunk.py of the ingestion service.
pub mod Text
pub mod Tokens
pub mod Size
pub mod Cover
pub mod Stuck
pub mod Paragraphs
pub mod Offsets
pub mod Order
pub mod Packing
pub mod Slices
pub mod Sliced
mod Tests
