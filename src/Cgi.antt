-- ===== src/Cgi.antt =====
-- cgi_bin: the programs that the servers start for a request.
pub mod RequestSong
pub mod Jansson
pub mod Accounts
pub mod Playlists
pub mod ChatRooms
pub mod Mixtape
