-- ===== src/Newznab.antt =====
-- internal/newznab: the indexer that Sonarr and Radarr query.
pub mod Guid
pub mod Subtitles
pub mod Titles
pub mod Generate
pub mod Parse
pub mod Brands
pub mod Filter
pub mod Limits
