-- ===== src/Fake.antt =====
-- backend/internal/storage/fake: the storage in memory.
pub mod State
pub mod Valid
pub mod Paging
pub mod Aggregate
pub mod Hierarchy
pub mod Focuses
pub mod Goals
pub mod Calls
pub mod Listing
pub mod Repositories
