-- ===== src/Ssrf.antt =====
-- internal/ssrf: which addresses and URLs a delivery may go to.
pub mod Addr
pub mod Blocked
pub mod Validate
pub mod Dialer
pub mod Located
pub mod Safe
pub mod Pinned
