-- ===== src/Tests.antt =====
-- The theorems at concrete inputs, and runs of the model.
mod Btree
mod Delete
mod Engine
mod Parser
mod Storage
mod Execution
mod Analysis
mod Changes
