-- ===== src/Tests.antt =====
-- Runs of the model on concrete inputs, and each theorem with hypotheses at an input that meets them.
mod RetryRuns
mod AuthzRuns
mod ChainRuns
mod DeliveryRuns
mod FanoutRuns
mod TransformRuns
mod WorkerRuns
mod VerifierRuns
mod SsrfRuns
mod PolicyRuns
mod IngestRuns
mod AccessRuns
mod ReplayRuns
