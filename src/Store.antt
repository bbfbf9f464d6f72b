-- ===== src/Store.antt =====
-- server/src/store: the in-memory archive store, one module for each of its domains.
pub mod Records
pub mod Tables
pub mod Keys
pub mod TurnIdentity
pub mod Sessions
pub mod Curation
pub mod MemoryDocuments
pub mod Artifacts
pub mod Machines
pub mod Settings
pub mod Retention
pub mod TeamVisibility
pub mod TransferCopy
pub mod Sharing
pub mod Teams
pub mod TeamOptins
