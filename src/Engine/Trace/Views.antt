-- ===== src/Engine/Trace/Views.antt =====
-- The entry points that only look: a view call, and the reads of accounts, storage and code.
use koinos_evm_engine.Base.{ℕ, ◌≢◌, Bool, false, Option, none, some, length, ltb, ◌==◌, ==_iff}
use koinos_evm_engine.Base.Words.{Bytes}
use koinos_evm_engine.Engine.Koinos.{Host}
use koinos_evm_engine.Engine.Database.{Primitives, AccountInfo, DbResult}
use koinos_evm_engine.Engine.Tx.{Rlp}
use koinos_evm_engine.Engine.Evm.{
  TxEnv, BlockEnv, ExecutionResult, EvmOutcome, ok, evm_error, Callbacks, Changes, Revm, success,
  revert, halt, execution_result_to_response, respond,
}
use koinos_evm_engine.Engine.Handlers.{
  callbacks, build_block_env, settle, run_evm, execute_evm, handle_call_view,
}
use koinos_evm_engine.Engine.Reads.{
  code_reply, handle_get_account, handle_get_storage_at, handle_get_code,
}
use koinos_evm_engine.Engine.Start.{
  ep_submit_raw_tx, ep_store_value, ep_read_value, ep_echo, ep_call_view, ep_get_account,
  ep_get_storage_at, ep_get_code, ep_execute, ep_deploy_code, read_reply, handle_read_value,
  handle_echo, refuse, dispatch,
}
use koinos_evm_engine.Engine.Trace.{AllowsReads, is_quiet, is_quiet-AllowsReads, Only}
use koinos_evm_engine.Engine.Trace.Calls.{
  bind-Only, pure-Only, if-Only, else-Only, log-Only, exit_error-Only, get_object-Only,
  engine_space-Only, get_head_info-Only,
}
use koinos_evm_engine.Engine.Trace.Components.{
  basic-Only, code_by_hash-Only, storage-Only, block_hash-Only, ec_recover-Only, sha256_run-Only,
  ripemd160_run-Only, identity_run-Only,
}

module _ (host : Host) where
  -- Callbacks that make allowed system calls only.
  pub record OnlyCallbacks (allows : ℕ → Bool) (cb : Callbacks host.World) : Type 0 where
    pub basic : (a : Bytes) → Only host allows (cb.basic a)
    pub code_by_hash : (h : Bytes) → Only host allows (cb.code_by_hash h)
    pub storage : (a : Bytes) (i : ℕ) → Only host allows (cb.storage a i)
    pub block_hash : (n : ℕ) → Only host allows (cb.block_hash n)
    pub ec_recover : (i : Bytes) (g : ℕ) → Only host allows (cb.ec_recover i g)
    pub sha256_run : (i : Bytes) (g : ℕ) → Only host allows (cb.sha256_run i g)
    pub ripemd160_run : (i : Bytes) (g : ℕ) → Only host allows (cb.ripemd160_run i g)
    pub identity_run : (i : Bytes) (g : ℕ) → Only host allows (cb.identity_run i g)

  -- revm reaches the host by its callbacks alone.
  pub record IsContained (revm : Revm host.World) : Type 0 where
    pub contained :
        (allows : ℕ → Bool) (cb : Callbacks host.World)
        → OnlyCallbacks allows cb
        → (chain_id : ℕ) (block : BlockEnv) (tx : TxEnv)
        → Only host allows (revm.transact chain_id block tx cb)

  module _ (allows : ℕ → Bool) (r : AllowsReads allows) (p : Primitives)
      (revm : Revm host.World) where
    pub callbacks-Only : OnlyCallbacks allows (callbacks p host revm)
    callbacks-Only = record {
      basic = basic-Only host allows r p;
      code_by_hash = code_by_hash-Only host allows r p;
      storage = storage-Only host allows r p;
      block_hash = block_hash-Only host allows r p;
      ec_recover = ec_recover-Only host allows r;
      sha256_run = sha256_run-Only host allows r;
      ripemd160_run = ripemd160_run-Only host allows r;
      identity_run = identity_run-Only host allows r;
    }

    build_block_env-Only : Only host allows (build_block_env p host revm)
    unfolding build_block_env
    build_block_env-Only =
        bind-Only host allows _ _ (get_head_info-Only host allows r)
          (λ head. pure-Only host allows _)

    dropped-Only :
        (outcome : EvmOutcome (ExecutionResult × Changes))
        → Only host allows (settle p host revm false outcome)
    unfolding settle
    dropped-Only (evm_error e) = pure-Only host allows _
    dropped-Only (ok (result, changes)) = pure-Only host allows _

    view_response-Only :
        (result : ExecutionResult)
        → Only host allows (execution_result_to_response host result false)
    unfolding execution_result_to_response
    view_response-Only (success output gas logs) = pure-Only host allows _
    view_response-Only (revert output gas) = pure-Only host allows _
    view_response-Only (halt gas) = pure-Only host allows _

    respond-Only :
        (prefix : Bytes) (outcome : EvmOutcome ExecutionResult)
        → Only host allows (respond host prefix false outcome)
    unfolding respond
    respond-Only prefix (ok result) = view_response-Only result
    respond-Only prefix (evm_error e) =
        bind-Only host allows _ _ (log-Only host allows r _) (λ u. pure-Only host allows _)

    module _ (c : IsContained revm) where
      run_view-Only : (tx : TxEnv) → Only host allows (run_evm p host revm tx false)
      unfolding run_evm
      run_view-Only tx = bind-Only host allows _ _ build_block_env-Only (λ block.
          bind-Only host allows _ _
            (c.contained allows (callbacks p host revm) callbacks-Only _ block tx) dropped-Only)

      pub handle_call_view-Only :
          (args : Bytes) → Only host allows (handle_call_view p host revm args)
      unfolding handle_call_view execute_evm
      handle_call_view-Only args = bind-Only host allows _ _ (run_view-Only _) (respond-Only _)

    pub handle_get_account-Only : (args : Bytes) → Only host allows (handle_get_account p host args)
    unfolding handle_get_account
    handle_get_account-Only args =
        if-Only host allows (ltb (length args) 20) _ _ (pure-Only host allows _) (
          bind-Only host allows _ _ (basic-Only host allows r p _)
            (λ found. pure-Only host allows _))

    pub handle_get_storage_at-Only :
        (args : Bytes) → Only host allows (handle_get_storage_at p host args)
    unfolding handle_get_storage_at
    handle_get_storage_at-Only args =
        if-Only host allows (ltb (length args) 52) _ _ (pure-Only host allows _) (
          bind-Only host allows _ _ (storage-Only host allows r p _ _)
            (λ found. pure-Only host allows _))

    code_reply-Only :
        (found : DbResult (Option AccountInfo)) → Only host allows (code_reply p host found)
    unfolding code_reply
    code_reply-Only (DbResult.err e) = pure-Only host allows _
    code_reply-Only (DbResult.ok none) = pure-Only host allows _
    code_reply-Only (DbResult.ok (some info)) =
        bind-Only host allows _ _ (code_by_hash-Only host allows r p _)
          (λ code. pure-Only host allows _)

    pub handle_get_code-Only : (args : Bytes) → Only host allows (handle_get_code p host args)
    unfolding handle_get_code
    handle_get_code-Only args =
        if-Only host allows (ltb (length args) 20) _ _ (pure-Only host allows _)
          (bind-Only host allows _ _ (basic-Only host allows r p _) code_reply-Only)

    read_reply-Only : (found : Option Bytes) → Only host allows (read_reply host found)
    unfolding read_reply
    read_reply-Only none =
        bind-Only host allows _ _ (log-Only host allows r _) (λ u. pure-Only host allows _)
    read_reply-Only (some value) =
        bind-Only host allows _ _ (log-Only host allows r _) (λ u. pure-Only host allows _)

    handle_read_value-Only : (args : Bytes) → Only host allows (handle_read_value host args)
    unfolding handle_read_value
    handle_read_value-Only args =
        bind-Only host allows _ _ (engine_space-Only host allows r _) (λ space.
          bind-Only host allows _ _ (get_object-Only host allows r space args) read_reply-Only)

    handle_echo-Only : (args : Bytes) → Only host allows (handle_echo host args)
    unfolding handle_echo
    handle_echo-Only args =
        bind-Only host allows _ _ (log-Only host allows r _) (λ u. pure-Only host allows _)

    refuse-Only : (logged message : Bytes) → Only host allows (refuse host logged message)
    unfolding refuse
    refuse-Only logged message =
        bind-Only host allows _ _ (log-Only host allows r _)
          (λ u. exit_error-Only host allows r Bytes _)

  -- In the default build every entry point but `submit_raw_tx` and `store_value` leaves the objects
  -- as they are and emits no event, whatever its arguments are, and so do the entry points that
  -- the build refuses.
  pub dispatch-is_quiet :
      (rlp : Rlp) (p : Primitives) (revm : Revm host.World)
      → IsContained revm
      → (entry_point : ℕ) (args : Bytes) → entry_point ≢ ep_submit_raw_tx
      → entry_point ≢ ep_store_value
      → Only host is_quiet (dispatch rlp p host revm false entry_point args)
  unfolding dispatch
  dispatch-is_quiet rlp p revm c entry_point args hs hv =
      else-Only host is_quiet (entry_point == ep_store_value) _ _
        (λ e. hv ((==_iff entry_point ep_store_value).0 e))
        (if-Only host is_quiet (entry_point == ep_read_value) _ _
          (handle_read_value-Only is_quiet r p revm args)
          (if-Only host is_quiet (entry_point == ep_echo) _ _
            (handle_echo-Only is_quiet r p revm args)
            (else-Only host is_quiet (entry_point == ep_submit_raw_tx) _ _
              (λ e. hs ((==_iff entry_point ep_submit_raw_tx).0 e))
              (if-Only host is_quiet (entry_point == ep_call_view) _ _
                (handle_call_view-Only is_quiet r p revm c args)
                (if-Only host is_quiet (entry_point == ep_get_account) _ _
                  (handle_get_account-Only is_quiet r p revm args)
                  (if-Only host is_quiet (entry_point == ep_get_storage_at) _ _
                    (handle_get_storage_at-Only is_quiet r p revm args)
                    (if-Only host is_quiet (entry_point == ep_get_code) _ _
                      (handle_get_code-Only is_quiet r p revm args)
                      (if-Only host is_quiet (entry_point == ep_execute) _ _ (refused _ _) (
                        if-Only host is_quiet (entry_point == ep_deploy_code) _ _ (refused _ _)
                          (refused _ _))))))))))
    where
      r : AllowsReads is_quiet
      r = is_quiet-AllowsReads

      refused : (logged message : Bytes) → Only host is_quiet (refuse host logged message)
      refused = refuse-Only is_quiet r p revm
