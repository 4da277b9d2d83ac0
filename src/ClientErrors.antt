-- ===== src/ClientErrors.antt =====
-- Client error monitoring (business/domain/clienterrorbus): reports, their grouping into issues, and
-- the queue between the two.
pub mod Model
pub mod Scrub
pub mod Fingerprint
pub mod World
pub mod Maps
pub mod Issues
pub mod Reports
pub mod Group
pub mod Artifacts
pub mod Spikes
pub mod Listings
