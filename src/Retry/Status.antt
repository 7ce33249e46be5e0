-- ===== src/Retry/Status.antt =====
-- Which HTTP answers are tried again (internal/retry/retry.go).
use webhookery.Common.{ℕ, ◌≤◌, ◌≡◌, ◌↔◌, ◌⊎◌, true, arith}
use webhookery.Retry.{classify_status}

-- A status is tried again exactly when it is 408, 409, 425, 429 or a server error.
pub classify_status-retryable :
    (status : ℕ)
    → ((classify_status status).retryable ≡ true) ↔ (
        (status ≡ 408)
        ⊎ (status ≡ 409)
        ⊎ (status ≡ 425)
        ⊎ (status ≡ 429)
        ⊎ (500 ≤ status) × (status ≤ 599))
unfolding classify_status
classify_status-retryable status = ground arith
