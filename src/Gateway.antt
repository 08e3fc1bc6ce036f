-- ===== src/Gateway.antt =====
-- The gateway, koinos-evm/rpc: Ethereum JSON-RPC in front of a Koinos node.
pub mod EngineProto
pub mod TxMetaStore
pub mod PendingNonceStore
pub mod KoinosTx
pub mod EthTx
pub mod Relay
pub mod Bloom
pub mod Receipts
pub mod Limit
pub mod Base58
pub mod Db
pub mod EthCodec
pub mod Indexer
pub mod Json
pub mod Logs
pub mod Subscriptions
pub mod Settling
