-- ===== src/App.antt =====
-- src/app: what the program does with its components, and how its starts talk to each other.
pub mod Backend
pub mod Frames
pub mod Settings
pub mod Start
pub mod Log
pub mod Program
pub mod Runs
pub mod Examples
