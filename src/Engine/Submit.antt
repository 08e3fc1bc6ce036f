-- ===== src/Engine/Submit.antt =====
-- koinos-evm/engine/src/engine.rs: `handle_submit_raw_tx`.
use koinos_evm_engine.Base.{
  ℕ, true, false, not, Option, none, some, [], ◌++◌, is_empty, ◌==◌, if◌then◌else◌,
}
use koinos_evm_engine.Base.Words.{Bytes}
use koinos_evm_engine.Base.Text.{codes, decimal}
use koinos_evm_engine.Engine.Proto.{fields}
use koinos_evm_engine.Engine.Koinos.{Host, pure, ◌>>=◌, ◌>>◌, last_bytes}
use koinos_evm_engine.Engine.Sys.{Run, log}
use koinos_evm_engine.Engine.Database.{Primitives, AccountInfo, DbResult, basic}
use koinos_evm_engine.Engine.Tx.{TxResult, Rlp, ParsedTx}
use koinos_evm_engine.Engine.Tx.Sender.{parse_raw_tx}
use koinos_evm_engine.Engine.Evm.{
  engine_chain_id, TxEnv, ExecutionResult, EvmOutcome, ok, evm_error, Revm, debug_parse_error,
  encode_evm_result, emit_evm_result_event, execution_result_to_response,
}
use koinos_evm_engine.Engine.Handlers.{run_evm}

unfoldable pub mismatch : Bytes → ℕ → ℕ → Bytes
mismatch what got expected =
    what ++ (codes " mismatch: tx=" ++ (decimal got ++ (codes " expected=" ++ decimal expected)))

module _ (rlp : Rlp) (p : Primitives) (host : Host) (revm : Revm host.World) where
  unfoldable pub reject_submit : Bytes → Run host Bytes
  reject_submit message = do
    emit_evm_result_event host false 0 none
    pure (encode_evm_result false message 0 none)

  -- A message is logged and the transaction rejected with it.
  unfoldable pub reject_logged : Bytes → Run host Bytes
  reject_logged message = do log host message; reject_submit message

  abbrev pub submit_env : ParsedTx → TxEnv
  submit_env parsed = record {
    caller = parsed.sender;
    gas_limit = parsed.gas_limit;
    gas_price = 0;
    transact_to = parsed.to;
    value = parsed.value;
    input = parsed.input;
    nonce = some parsed.nonce;
    chain_id = parsed.chain_id;
  }

  unfoldable pub submit_outcome : EvmOutcome ExecutionResult → Run host Bytes
  submit_outcome (ok result) = execution_result_to_response host result true
  submit_outcome (evm_error e) = reject_logged (codes "EVM error: " ++ e)

  -- The nonce check, and the run.
  unfoldable pub submit_with_nonce : ParsedTx → DbResult (Option AccountInfo) → Run host Bytes
  submit_with_nonce parsed (DbResult.err e) = reject_submit (codes "db basic read failed")
  submit_with_nonce parsed (DbResult.ok found) =
      let expected : ℕ = elim found [ none ↦ 0 | some info ↦ info.nonce ] in
      if not (parsed.nonce == expected)
      then reject_logged (mismatch (codes "nonce") parsed.nonce expected)
      else do outcome ← run_evm p host revm (submit_env parsed) true; submit_outcome outcome

  -- The checks behind the parser.
  unfoldable pub submit_parsed : ParsedTx → Run host Bytes
  submit_parsed parsed =
      let cid : ℕ = elim parsed.chain_id [ none ↦ engine_chain_id | some c ↦ c ] in
      if not (cid == engine_chain_id)
      then reject_logged (mismatch (codes "chain_id") cid engine_chain_id)
      else do found ← basic p host parsed.sender; submit_with_nonce parsed found

  unfoldable pub submit_result : TxResult ParsedTx → Run host Bytes
  submit_result (TxResult.err e) =
      reject_logged (codes "raw_tx parse error: " ++ debug_parse_error e)
  submit_result (TxResult.ok parsed) = submit_parsed parsed

  unfoldable pub handle_submit_raw_tx : Bytes → Run host Bytes
  handle_submit_raw_tx args =
      let raw_tx = last_bytes 1 [] (fields args) in
      if is_empty raw_tx
      then reject_submit (codes "empty raw_tx")
      else do parsed ← parse_raw_tx rlp p host raw_tx; submit_result parsed
