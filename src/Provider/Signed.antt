-- ===== src/Provider/Signed.antt =====
-- What a signature that is accepted consists of (internal/provider/provider.go and
-- internal/provider/declarative.go).
pub mod Rules
pub mod Token
pub mod Accepted
