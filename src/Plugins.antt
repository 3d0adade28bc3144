-- ===== src/Plugins.antt =====
-- src/plugins: what the DNS provider plugins share.
pub mod Names
pub mod Apex
pub mod Quoting
mod Tests
