-- ===== src/Webhooks.antt =====
-- src/webhooks/: the payloads of the vendors and their parsers.
pub mod Routes
pub mod Proswing
pub mod Trackpro
pub mod Swingmetric
