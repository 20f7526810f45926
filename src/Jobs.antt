-- ===== src/Jobs.antt =====
-- jobs/: the scheduler worker and the job runner.
pub mod Scheduler
pub mod Ingest
pub mod Runner
pub mod PeriodIngest
