-- ===== src/Ui.antt =====
-- The administration console's server (src/ui): one module for each of its components.
pub mod RateLimit
pub mod Lockout
pub mod Users
pub mod Sessions
pub mod SsoGrant
pub mod StoreLock
