-- ===== src/Cli.antt =====
-- cli.py: the commands that change the stored data.
pub mod Backfill
pub mod DocumentsProcess
