-- ===== src/Ocds.antt =====
-- ocds/: the OCDS releases of tenders, and their package.
pub mod Release
