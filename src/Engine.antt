-- ===== src/Engine.antt =====
-- The engine: koinos-evm/engine/src, revm compiled into one Koinos contract.
pub mod Proto
pub mod Koinos
pub mod Sys
pub mod Database
pub mod Tx
pub mod Precompiles
pub mod Evm
pub mod Handlers
pub mod Reads
pub mod Submit
pub mod Start
pub mod Trace
