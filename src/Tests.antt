-- ===== src/Tests.antt =====
-- Concrete runs of the models, and the theorems at concrete inputs.
mod Memory
mod Storage
mod Merging
mod Mimics
mod Logging
mod Replay
mod Sample
mod Service
mod Making
mod Life
mod Accounts
mod Arguments
mod Bucket
mod Unique
mod Calls
mod Gathering
mod Measuring
mod Environments
