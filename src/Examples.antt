-- ===== src/Examples.antt =====
-- Tests, and witnesses: each theorem applied to concrete rows, buckets and throttles.
mod Bucket
mod Queue
mod Attempts
mod Grabs
mod Indexer
mod Buckets
mod Shim
mod Episodes
