-- ===== src/Sources.antt =====
-- Log sources: business/domain/sourcebus, its store and app/sdk/mid/authenticatesource.go.
pub mod Model
pub mod Store
pub mod Auth
pub mod Health
pub mod Admit
pub mod Rotate
