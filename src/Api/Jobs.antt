-- ===== src/Api/Jobs.antt =====
-- services/api-service/src/services/job.service.ts: a job's creation, and what users do with their jobs.
mod Creation
mod Access
unfoldable pub use Creation.*
unfoldable pub use Access.*
