-- ===== src/Examples.antt =====
-- The theorems at concrete inputs, which show that their hypotheses can hold.
mod Dates
mod Ranges
mod Places
mod Messages
mod Queries
mod Containers
mod Texts
mod Encoded
mod Reports
mod Inserts
mod Batches
mod Caches
