-- ===== src/Gateway/Relay/Submit.antt =====
-- koinos-evm/rpc/src/rpc.rs: the calls of the node, the submit task, the reconciliation of the
-- operator's nonce and the transaction count.
use koinos_evm_engine.Base.{
  ℕ, zero, suc, ◌-◌, Bool, not, ◌&&◌, Option, none, some, ltb, leb, ◌==◌, if◌then◌else◌,
}
use koinos_evm_engine.Base.Words.{Bytes}
use koinos_evm_engine.Gateway.EngineProto
use koinos_evm_engine.Gateway.EngineProto.{ProtoError}
use koinos_evm_engine.Gateway.PendingNonceStore
use koinos_evm_engine.Gateway.PendingNonceStore.{get_unexpired}
use koinos_evm_engine.Gateway.EthTx.{DecodedTx}
use koinos_evm_engine.Gateway.KoinosTx.{Signer, RelayedTx, build_relayed_tx, next_operator_nonce}
use koinos_evm_engine.Gateway.Relay.{
  Answer, ok, failed, panicked, Node, Config, Clock, Gateway, ep_submit_raw_tx, error_text,
  is_nonce_related_err, release, forget, settle,
}

-- The state behind the loop. A panic leaves the placeholder, as the task has ended.
unfoldable pub conclude :
    Clock → Bytes → DecodedTx → Answer RelayedTx → Gateway → Answer Bytes × Gateway
conclude clock hash decoded (ok relayed) g = (ok hash, settle clock hash decoded relayed g)
conclude clock hash decoded (failed e) g = (failed e, forget hash g)
conclude clock hash decoded panicked g = (panicked, g)

module _ (node : Node) where
  unfoldable pub fetch_operator_nonce : node.World → Answer ℕ × node.World
  fetch_operator_nonce w =
      let (reply, w') = node.get_account_nonce w in
      elim reply [
        | failed e ↦ (failed e, w')
        | panicked ↦ (panicked, w')
        | ok bytes ↦ (
          elim (next_operator_nonce bytes) [
            | EngineProto.ok n ↦ ok n
            | EngineProto.err ProtoError.panicked ↦ panicked
            | EngineProto.err e ↦ failed (error_text e)
          ],
          w',
        )
      ]

  -- A submission in the loop, with the cached nonce after it.
  abbrev pub Submitted : Type 0
  Submitted = Answer RelayedTx × Option ℕ × node.World

  -- `get_unexpired` and the `match` of `handle_get_tx_count`, where `latest` is any tag but "pending".
  unfoldable pub handle_get_tx_count : Clock → ℕ → Bool → Bytes → Gateway → ℕ × Gateway
  handle_get_tx_count clock on_chain pending addr g =
      if not pending
      then (on_chain, g)
      else elim (get_unexpired clock.instant g.pending_nonce addr) [
        | none ↦ (on_chain, g)
        | some p ↦ if ltb on_chain p then (p, g) else (
          on_chain,
          record g { pending_nonce = PendingNonceStore.remove addr g.pending_nonce },
        )
      ]

  unfoldable pub reconcile_cached : Clock → ℕ → ℕ → ℕ → Gateway → Gateway
  reconcile_cached clock quiet_period_secs chain_next cached g =
      let quiet_for = clock.unix_secs - g.last_submit_ok in
      if ltb cached chain_next
      then record g { operator_nonce = some chain_next }
      else if ltb chain_next cached
      then if g.inflight_submits == 0 && leb quiet_period_secs quiet_for
        then record g { operator_nonce = some chain_next }
        else g
      else g

  unfoldable pub reconcile_operator_nonce : Clock → ℕ → Gateway → node.World → Gateway × node.World
  reconcile_operator_nonce clock quiet_period_secs g w =
      let (fetched, w') = fetch_operator_nonce w in
      elim fetched [
        | failed e ↦ (g, w')
        | panicked ↦ (g, w')
        | ok chain_next ↦ (
          elim g.operator_nonce [
            | none ↦ g
            | some cached ↦ reconcile_cached clock quiet_period_secs chain_next cached g
          ],
          w',
        )
      ]

  -- The nonce that the loop starts with: the cached one, or the node's.
  unfoldable pub first_nonce : Option ℕ → node.World → Answer ℕ × node.World
  first_nonce (some n) w = (ok n, w)
  first_nonce none w = fetch_operator_nonce w

  module _ (config : Config) (signer : Signer) where
    -- The `async` block of the loop: the transaction is built, signed and sent.
    unfoldable pub submit_once : ℕ → Bytes → node.World → Answer RelayedTx × node.World
    submit_once nonce raw w =
        let relayed =
          build_relayed_tx signer config.koinos_chain_id_bytes config.rc_limit_mana
            config.operator_addr_full nonce config.engine_contract_addr_full ep_submit_raw_tx raw in
        let (answer, w') = node.submit_transaction relayed w in
        elim answer [
          | ok _ ↦ (ok relayed, w')
          | failed e ↦ (failed e, w')
          | panicked ↦ (panicked, w')
        ]

    -- The loop, with the resyncs that are left: 1 at first, 0 once `resynced`.
    unfoldable pub submit_loop : ℕ → ℕ → Bytes → node.World → Submitted
    submit_loop zero nonce raw w =
        let (answer, w') = submit_once nonce raw w in
        elim answer [
          | ok relayed ↦ (ok relayed, some nonce, w')
          | panicked ↦ (panicked, some nonce, w')
          | failed e ↦ (failed e, if is_nonce_related_err e then none else some nonce, w')
        ]
    submit_loop (suc left) nonce raw w =
        let (answer, w') = submit_once nonce raw w in
        elim answer [
          | ok relayed ↦ (ok relayed, some nonce, w')
          | panicked ↦ (panicked, some nonce, w')
          | failed e ↦
              if not (is_nonce_related_err e)
              then (failed e, some nonce, w')
              else let (fetched, w'') = fetch_operator_nonce w' in
                elim fetched [
                  | ok n ↦ submit_loop left n raw w''
                  | failed _ ↦ (failed e, none, w'')
                  | panicked ↦ (panicked, some nonce, w'')
                ]
        ]

    unfoldable pub submit_reserved_tx :
        Clock
        → Bytes
        → DecodedTx
        → Bytes
        → Gateway
        → node.World
        → Answer Bytes × Gateway × node.World
    submit_reserved_tx clock hash decoded raw g w =
        let (first, w₁) = first_nonce g.operator_nonce w in
        elim first [
          | failed e ↦ (failed e, forget hash g, w₁)
          | panicked ↦ (panicked, g, w₁)
          | ok nonce ↦
              let (answer, cache, w₂) = submit_loop 1 nonce raw w₁ in
              let (result, g') =
                conclude clock hash decoded answer (record g { operator_nonce = cache }) in
              (result, g', w₂)
        ]

    -- The task: the submission, and the drop of its `InflightGuard`.
    unfoldable pub submit_task :
        Clock
        → Bytes
        → DecodedTx
        → Bytes
        → Gateway
        → node.World
        → Answer Bytes × Gateway × node.World
    submit_task clock hash decoded raw g w =
        let (result, g', w') = submit_reserved_tx clock hash decoded raw g w in
        (result, release g', w')
