-- ===== src/Tests.antt =====
-- The theorems at concrete inputs: a small queue, a worker, a registry of providers, and documents.
mod Queues
mod Workers
mod Kernel
mod Contracts
mod Flows
mod Limits
mod Stores
mod Retries
