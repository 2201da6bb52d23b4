-- ===== src/Auth.antt =====
-- src/auth: signing in, and the tokens of the user who is signed in.
pub mod Manager
pub mod Saved
pub mod TokenStore
pub mod Refresh
pub mod SingleFlight
pub mod Pkce
pub mod Choice
pub mod Choices
pub mod Examples
