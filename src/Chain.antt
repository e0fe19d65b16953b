-- ===== src/Chain.antt =====
-- backend/src/modules/blockchain: the indexer that reads the registry's events, and the commands
-- that are sent to it. Identifiers, addresses and hashes are only compared, so they are numbers.
pub mod Identifiers
pub mod Checkpoint
pub mod Scan
pub mod Commands
pub mod Relay
