-- ===== src/Handlers.antt =====
-- The HTTP handlers of handlers/.
pub mod Slug
pub mod Response
pub mod Redirect
pub mod Management
pub mod Transfer
pub mod Access
pub mod Auth
pub mod Session
pub mod Export
pub mod QrCode
pub mod Health
