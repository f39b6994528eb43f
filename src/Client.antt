-- ===== src/Client.antt =====
-- The command-line client of cmd/gottem/.
pub mod BaseUrl
pub mod Flags
pub mod Arguments
pub mod Requests
pub mod Confirm
pub mod Run
