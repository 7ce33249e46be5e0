-- ===== src/Verifier.antt =====
-- pkg/verifier/verifier.go: signatures over a timestamp and the raw body of a webhook.
pub mod Header
pub mod Verify
pub mod Valid
pub mod Sign
