-- ===== src/Examples.antt =====
-- Concrete runs: sample data, and the theorems at concrete inputs.
pub mod Samples
pub mod Ingest
pub mod Users
pub mod Vendors
pub mod Seconds
pub mod Texts
pub mod Reading
pub mod Again
pub mod Counting
pub mod Delivered
pub mod Batched
pub mod Answers
pub mod Start
pub mod Flow
