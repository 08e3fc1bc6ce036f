-- ===== src/Engine/Handlers.antt =====
-- koinos-evm/engine/src/engine.rs: the runs of revm, and the handlers that call.
-- `transact_commit` is `transact`, then `commit` of the changes.
use koinos_evm_engine.Base.{◌/◌, Bool, true, false, none, replicate, if◌then◌else◌}
use koinos_evm_engine.Base.Words.{Bytes}
use koinos_evm_engine.Base.Text.{codes}
use koinos_evm_engine.Engine.Koinos.{Host, pure, ◌>>=◌, ◌>>◌}
use koinos_evm_engine.Engine.Sys.{Run, get_head_info}
use koinos_evm_engine.Engine.Database.{Primitives, basic, code_by_hash, storage, block_hash, commit}
use koinos_evm_engine.Engine.Precompiles.{ec_recover, sha256_run, ripemd160_run, identity_run}
use koinos_evm_engine.Engine.Evm.{
  engine_chain_id, EvmCallArgs, TxEnv, BlockEnv, ExecutionResult, EvmOutcome, ok, evm_error,
  Callbacks, Changes, Revm, parse_call_args, respond,
}

module _ (p : Primitives) (host : Host) (revm : Revm host.World) where
  abbrev pub callbacks : Callbacks host.World
  callbacks = record {
    basic = basic p host;
    code_by_hash = code_by_hash p host;
    storage = storage p host;
    block_hash = block_hash p host;
    ec_recover = ec_recover host;
    sha256_run = sha256_run host;
    ripemd160_run = ripemd160_run host;
    identity_run = identity_run host;
  }

  unfoldable pub build_block_env : Run host BlockEnv
  build_block_env = do
    head ← get_head_info host
    pure (record {
      number = head.height;
      timestamp = head.head_block_time / 1000;
      basefee = 0;
      gas_limit = 30_000_000;
      coinbase = replicate 20 0;
      difficulty = 0;
    })

  -- The changes of a run are committed, or dropped.
  unfoldable pub settle :
      Bool → EvmOutcome (ExecutionResult × Changes) → Run host (EvmOutcome ExecutionResult)
  settle commits (evm_error e) = pure (evm_error e)
  settle commits (ok (result, changes)) =
      if commits then (commit p host changes >> pure (ok result)) else pure (ok result)

  -- `transact`, and the commit of its changes where `commits` says so.
  unfoldable pub run_evm : TxEnv → Bool → Run host (EvmOutcome ExecutionResult)
  run_evm tx_env commits = do
    block ← build_block_env
    outcome ← revm.transact engine_chain_id block tx_env callbacks
    settle commits outcome

  unfoldable pub execute_evm : EvmCallArgs → Bool → Run host (EvmOutcome ExecutionResult)
  execute_evm args commits =
      run_evm
        (record {
          caller = args.caller;
          gas_limit = args.gas_limit;
          gas_price = 0;
          transact_to = args.to;
          value = args.value;
          input = args.input;
          nonce = none;
          chain_id = none;
        })
        commits

  unfoldable pub handle_execute : Bytes → Run host Bytes
  handle_execute args = do
    outcome ← execute_evm (parse_call_args p args) true
    respond host (codes "EVM error: ") true outcome

  unfoldable pub handle_call_view : Bytes → Run host Bytes
  handle_call_view args = do
    outcome ← execute_evm (parse_call_args p args) false
    respond host (codes "EVM error: ") false outcome

  unfoldable pub handle_deploy_code : Bytes → Run host Bytes
  handle_deploy_code args = do
    outcome ← execute_evm (record (parse_call_args p args) { to = none }) true
    respond host (codes "EVM deploy error: ") true outcome
