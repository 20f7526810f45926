-- ===== src/Sources.antt =====
-- sources/: the connectors of PLACSP and TED.
pub mod Period
pub mod TedQuery
pub mod TedNotice
pub mod TedResponse
pub mod TedFetch
pub mod Placsp
