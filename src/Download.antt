-- ===== src/Download.antt =====
-- internal/download: the queue worker and its parts.
pub mod Throttle
pub mod Retry
pub mod Worker
pub mod Failure
pub mod Quality
pub mod Streams
pub mod Enqueue
pub mod Watchdog
