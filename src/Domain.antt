-- ===== src/Domain.antt =====
-- src/shared/domain: the normalised shot, the club vocabulary and the unit conversions.
pub mod Json
pub mod Club
pub mod Shot
pub mod Units
