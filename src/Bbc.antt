-- ===== src/Bbc.antt =====
-- internal/bbc: what the BBC's services answer.
pub mod Playlist
