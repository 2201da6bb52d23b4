-- ===== src/Server.antt =====
-- src/server: the servers that the user has signed in to.
pub mod Manager
pub mod Memory
pub mod Tables
pub mod Refinement
pub mod Listed
pub mod Examples
