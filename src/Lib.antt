-- ===== src/Lib.antt =====
-- The koinos-evm-engine repository: an Ethereum execution engine that runs as a contract on the
-- Koinos chain (koinos-evm/engine), and the gateway that serves Ethereum JSON-RPC for it
-- (koinos-evm/rpc).
--
-- Parts, and the files that model them:
--   Base           lists, bits, bytes and big-endian words, ASCII texts, tests on numbers.
--   Engine/Proto   engine/src/proto.rs: varints, fields and the field iterator.
--   Engine/Koinos  engine/src/koinos.rs: identifiers, arguments and replies of the system calls.
--   Engine/Sys     engine/src/koinos.rs (mod sys) and state.rs: the calls, over any host.
--   Engine/Database engine/src/database.rs: accounts, code, storage and the commit of changes.
--   Engine/Tx      engine/src/tx.rs: parse_raw_tx, its checks, and the recovery of the sender.
--   Engine/Precompiles engine/src/precompiles.rs.
--   Engine/Evm, Handlers, Reads, Submit  engine/src/engine.rs.
--   Engine/Start   engine/src/lib.rs: the dispatch on the entry point.
--   Engine/Trace   the system calls of a run as a relation between two worlds of the host.
--   Gateway/EngineProto   rpc/src/engine_proto.rs: the messages between the gateway and the engine.
--   Gateway/TxMetaStore, PendingNonceStore  rpc/src/state.rs: the bounded stores, over Base/Dict.
--   Gateway/KoinosTx      rpc/src/koinos_tx.rs: the relayed transaction and its signature.
--   Gateway/EthTx         rpc/src/eth_tx.rs: the gateway's reader of Ethereum transactions.
--   Gateway/Receipts      rpc/src/rpc.rs: what a receipt's events say, and create_address.
--   Gateway/Bloom         rpc/src/bloom.rs: the filter of a receipt's logs.
--   Gateway/Limit         rpc/src/limit.rs: the token buckets, and the address that is limited.
--   Gateway/Relay         rpc/src/rpc.rs: handle_send_raw_tx and its submit task, the operator's
--                         nonce and the transaction count, and Relay/Steps these in any order.
--   Gateway/Db            rpc/src/db.rs: the tables of the durable store, and what is read of them.
--   Gateway/EthCodec, Json  rpc/src/eth_codec.rs: the hex texts, and the values they stand in.
--   Gateway/Indexer       rpc/src/indexer.rs: the pass over the account history, and its cursor.
--   Gateway/Logs          rpc/src/rpc.rs: the log filter, and handle_get_logs.
--   Gateway/Subscriptions rpc/src/ws.rs: subscriptions, what is pushed to them, and the pollers.
--   Gateway/Settling      rpc/src/rpc.rs: how a receipt gets from the chain into the store.
--   Gateway/Base58        rpc/src/state.rs: the reader of Koinos addresses.
--   Runs           concrete hosts and codecs, and runs on them.
--
-- A run of the contract is a state transformer on the world of a host (Engine/Koinos). The host is a
-- parameter: any function from a call and a world to a reply and a world. SC_EXIT ends the run. The
-- handlers call mod sys, revm calls back into Database and the precompiles, and dispatch calls the
-- handlers, as in the source.
--
-- The gateway's state (Gateway/Relay, record Gateway) is the part of AppState that the relay changes.
-- What the source does under one lock is one step: admit is the critical section of
-- handle_send_raw_tx, submit_task the detached task, whose settle bookkeeping behind the lock is in
-- the same step. Relay/Steps lets them, the reconciliation and the count follow each other in any
-- order. Both sides of the wire are modelled, so that EngineProto/Agree and CallArgs compose them.
--
-- The store (Gateway/Db) is four tables, each the list of its rows, and a statement of SQL is a
-- function on them: the indexer writes it by index_tx, handle_get_logs and the logs poller read it by
-- query_logs. Relay takes is_settled as a function, and hands over its rows as a list.
--
-- Words: numbers are ℕ, with the wrap of a word written out. A usize of the engine is that of
-- wasm32, 32 bits; one of the gateway has 64. A
-- U256 is a number, its conversions to and from bytes are revm's. Fuel: the field iterator runs on
-- the length of its input, which is enough (Engine/Proto/Messages), as each round moves forward. A
-- cycle of the indexer runs on a number of pages, for which the entries that are left, and one more,
-- are enough (Indexer/Ends).
--
-- Not modelled: revm, alloy_rlp and the host are parameters. The host-crypto twins of the crypto
-- functions serve unit tests. An input of a precompile is taken shorter than 2^32 bytes, so that its
-- gas fits a u64.
-- Of the gateway (koinos-evm/rpc), the Koinos node, the hash functions, the signature and the clocks
-- are parameters, and so is the crate hex. SQLite is taken to run the statements as they are
-- documented, and, but for the calls that settle a receipt (Gateway/Settling), not to fail. Blocks,
-- the JSON of results, calls and estimates, the writer of base58, sockets and the process set-up are
-- not modelled, and the web page (koinos-evm/ui) is not either.
pub mod Base
pub mod Engine
pub mod Gateway
pub mod Runs
