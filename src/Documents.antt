-- ===== src/Documents.antt =====
-- documents/: a document from its address to its text.
pub mod Download
pub mod Processor
