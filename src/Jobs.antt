-- ===== src/Jobs.antt =====
-- The job service (server/app/services/job_service.py), a child for each part of it.
pub mod LineBuffer
pub mod Chunks
pub mod HostSlots
pub mod Redaction
pub mod Service
pub mod Workers
