-- ===== src/Convert.antt =====
-- server/src/convert: the writing of a session in another tool's own format.
pub mod BundleGuard
pub mod Tests
pub mod WorkspaceName
