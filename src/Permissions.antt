-- ===== src/Permissions.antt =====
-- packages/identity/src/permissions: who may ask the signer for what.
pub mod Key
pub mod Scope
pub mod Host
pub mod Tree
pub mod Grants
pub mod Authentication
pub mod Store
pub mod Migrations
