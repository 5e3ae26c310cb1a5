-- ===== src/Tests.antt =====
-- Runs of the model on small inputs, and the theorems at concrete inputs that meet their
-- hypotheses.
mod Containers
mod Queue
mod Scheduling
mod Sharing
mod Validation
mod Counters
mod Mining
mod Polling
mod Selling
mod Watching
mod Control
mod Encryption
mod Tasks
mod Changing
mod Buying
mod Connecting
mod Naming
