-- ===== src/Tests.antt =====
-- Runs of the theorems on concrete inputs.
mod Codecs
mod Envs
mod Patches
mod Utxos
mod Contracts
mod Concilia
mod Votes
mod Pools
mod Payments
mod Blocks
mod Nodes
