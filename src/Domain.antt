-- ===== src/Domain.antt =====
-- The pure core of src/domain, and the older reducer of src/store that it replaces.
pub mod Events
pub mod TieBreak
pub mod Projector
pub mod Reducer
pub mod Timestamp
