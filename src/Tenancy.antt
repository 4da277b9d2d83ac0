-- ===== src/Tenancy.antt =====
-- Who belongs to which organization and may see which project: orgbus, projectbus and invitationbus of
-- business/domain with their handlers and the authorization of app/sdk/mid.
pub mod Model
pub mod Orgs
pub mod Access
pub mod Handlers
pub mod Invites
