-- ===== src/Samples.antt =====
-- Concrete inputs: the theorems at them, and runs of the modelled code.
mod TaskSamples
mod RecordSamples
mod OptionSamples
mod WorkflowSamples
mod WatchSamples
mod ReceiptSamples
mod DaemonSamples
mod CompletionSamples
mod ManifestSamples
mod ExecutorSamples
