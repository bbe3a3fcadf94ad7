-- ===== src/Tests.antt =====
-- The theorems at concrete inputs, and runs of the definitions.
mod AnalysisRuns
mod NetworkRuns
mod CaptureRuns
mod ModelRuns
mod BundleRuns
mod ManifestRuns
mod ContractRuns
mod WsRuns
mod PairingRuns
mod LifecycleRuns
mod OrderRuns
mod HttpRuns
