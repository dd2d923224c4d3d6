-- ===== src/Sabnzbd.antt =====
-- internal/sabnzbd/handler.go: the SABnzbd API that Sonarr sends its grabs to.
pub mod Requests
pub mod Slots
pub mod Serve
pub mod Laws
pub mod Grab
pub mod Refusals
