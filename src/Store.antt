-- ===== src/Store.antt =====
-- pkg/store: the stores keep a slice of rows in memory and write it whole to a JSON file.
pub mod Table
pub mod Recordings
pub mod Channels
pub mod Users
pub mod Profiles
pub mod Clients
mod Tests
