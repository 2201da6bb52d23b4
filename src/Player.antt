-- ===== src/Player.antt =====
-- src/player: the playback session and what it drives.
pub mod Syncer
pub mod Timeline
pub mod Effects
pub mod Mpv
pub mod State
pub mod Sleep
pub mod Load
pub mod Sync
pub mod Seek
pub mod Open
pub mod Events
pub mod Quiet
pub mod Accounting
pub mod Invariant
pub mod Confinement
pub mod Replies
pub mod Ending
pub mod Seeking
pub mod Fixture
pub mod Examples
pub mod SleepLaws
pub mod Mpris
