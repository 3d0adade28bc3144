-- ===== src/RecordTypes.antt =====
-- src/dns_record_types.py: record types, host names, record values and the guards on changes.
mod Types
mod Hostname
mod Rdata
mod Guards
pub mod HostnameLaws
pub mod Tokens
pub mod Formats
pub mod RoundTrip
pub mod Guarded
mod Tests
unfoldable pub use Types.*
unfoldable pub use Hostname.*
unfoldable pub use Rdata.*
unfoldable pub use Guards.*
