-- ===== src/Signing.antt =====
-- packages/identity/src/signing: the signer core.
pub mod Queue
pub mod Requests
pub mod RemoteEvent
pub mod Core
