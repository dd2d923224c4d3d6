-- ===== src/Store.antt =====
-- internal/store: the rows of the Bolt database and the transactions over them.
pub mod Types
pub mod Bolt
pub mod Queue
pub mod Downloads
pub mod Move
pub mod History
pub mod Catalogue
pub mod Tables
pub mod Overrides
pub mod QualityCaches
pub mod FirstSeen
pub mod Settings
pub mod Programmes
pub mod Names
pub mod Series
