-- ===== src/Tests.antt =====
-- Runs of the model at concrete inputs, and the theorems at inputs that meet their hypotheses.
pub mod Requests
pub mod Policies
pub mod Blobs
pub mod Access
pub mod Objects
pub mod Chunks
pub mod Accounts
pub mod Codec
pub mod Escapes
pub mod Naturals
pub mod Sessions
pub mod Limits
pub mod Keys
pub mod Uploads
pub mod Links
