-- ===== src/Node.antt =====
-- node/node.js: what the node does with transactions and blocks. The network is left out.
pub mod Types
pub mod Fees
pub mod Callbacks
pub mod Contracts
pub mod Transactions
pub mod Conservation
pub mod Limit
pub mod Blocks
pub mod Accept
pub mod Checks
pub mod Rollback
