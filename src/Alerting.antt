-- ===== src/Alerting.antt =====
-- Alerting (business/domain/integrationbus): conditions, the suppression decision, the table of
-- alert events and the engine that raises, delivers and resolves alerts.
pub mod Condition
pub mod Model
pub mod Suppress
pub mod Events
pub mod World
pub mod Engine
pub mod Threshold
pub mod Rules
pub mod Connections
pub mod Queries
