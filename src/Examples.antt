-- ===== src/Examples.antt =====
-- Concrete runs of the development: the data, the tests and an instance of each theorem.
pub mod Data
pub mod Alerts
pub mod Conditions
pub mod Stores
pub mod Admission
pub mod Listings
pub mod Errors
pub mod Tenants
pub mod Purges
pub mod Members
