-- ===== src/Examples.antt =====
-- The theorems at concrete inputs.
mod Memory
mod Leader
mod Registry
mod Processor
mod Webhooks
mod Auth
mod RateLimit
mod Safety
mod Outcomes
mod Sweeps
mod Builder
mod Clipboard
mod Validator
mod Plugins
mod Requests
mod Workflow
