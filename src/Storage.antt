-- ===== src/Storage.antt =====
-- storage/database.py: what the repository computes, and the tables that it keeps.
pub mod Retrieval
pub mod Hybrid
pub mod FetchRuns
pub mod Upsert
pub mod Search
pub mod Records
pub mod Cursors
pub mod Documents
pub mod Facets
