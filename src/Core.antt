-- ===== src/Core.antt =====
-- core/: the domain model and the functions on it.
pub mod Json
pub mod Models
pub mod Normalization
pub mod Countries
pub mod Scoring
pub mod Ranking
pub mod Catalogs
pub mod Quality
pub mod Dedupe
pub mod Public
pub mod Parsing
