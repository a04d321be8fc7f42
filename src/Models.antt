-- ===== src/Models.antt =====
-- The stored records of custom_components/homepass/models, and their serialized form.
pub mod Json
pub mod Person
pub mod Synchronization
pub mod AccessPoint
pub mod AccessGrant
pub mod LifecycleOperation
pub mod AccessMetadata
