-- ===== src/Runs/Gateway.antt =====
-- Runs of the gateway's relay and of its stores.
use koinos_evm_engine.Base.{
  ℕ, ◌+◌, ◌-◌, ◌%◌, ◌^◌, ◌<◌, ◌≤◌, ◌≡◌, refl, Bool, true, false, none, some, [], ◌∷◌, ◌++◌,
  replicate, leb, if◌then◌else◌, arith,
}
use koinos_evm_engine.Base.Words.{Bytes}
use koinos_evm_engine.Base.Text.{codes}
use koinos_evm_engine.Base.Dict.{lookup, IsMap}
use koinos_evm_engine.Gateway.TxMetaStore
use koinos_evm_engine.Gateway.TxMetaStore.{TxMeta, TxMetaStore, get, insert, contains}
use koinos_evm_engine.Gateway.TxMetaStore.Bounds as TxMetaBounds
use koinos_evm_engine.Gateway.TxMetaStore.Keeps.{get-insert}
use koinos_evm_engine.Gateway.PendingNonceStore.{PendingNonceStore, get_unexpired, advance}
use koinos_evm_engine.Gateway.PendingNonceStore.Bounds as PendingBounds
use koinos_evm_engine.Gateway.PendingNonceStore.Bounds.{
  advanced, get_unexpired-advance, advance-IsStore,
}
use koinos_evm_engine.Gateway.EthTx.{
  Crypto, DecodedTx, decode_and_recover, decode_legacy, classify_v, legacy_signing_hash,
  build_legacy_pre155_signing_hash, recover_sender,
}
use koinos_evm_engine.Gateway.KoinosTx.{RelayedTx, next_operator_nonce, uint64_value}
use koinos_evm_engine.Gateway.EngineProto.{
  items, items_from, next, read_varint, read_varint_loop, next_by_type,
}
use koinos_evm_engine.Gateway.EthTx.Rlp.{
  from_list, rlp_header, checked_add, items_loop, rlp_decode_bytes, decode_u64, decode_u256_be,
  decode_address, shift_in, first_items,
}
use koinos_evm_engine.Gateway.Relay.{
  Answer, ok, failed, Node, Config, Clock, Gateway, already_known, reserved, placeholder, settle,
  reserve, admit, acquire,
}
use koinos_evm_engine.Gateway.Relay.Submit.{
  fetch_operator_nonce, handle_get_tx_count, reconcile_cached, reconcile_operator_nonce,
  submit_once, submit_loop, first_nonce, conclude, submit_reserved_tx,
}
use koinos_evm_engine.Gateway.Relay.Settled.{submit_reserved_tx-ok, submit_reserved_tx-failed}
use koinos_evm_engine.Gateway.Relay.Nonces.{
  reconcile_operator_nonce-lower, submit_reserved_tx-twice, tx_count-submit_reserved_tx,
}
use koinos_evm_engine.Gateway.Relay.Dedupe.{admit-twice}
use koinos_evm_engine.Gateway.Relay.Steps.{
  System, IsRunning, begun, stepped, received, initial, Reached-IsRunning, receive,
}
use koinos_evm_engine.Runs.{demo_signer}
use mathlib.Core.List.Memᴰ

-- The node counts the submissions; it takes them all, and the operator's last nonce is 7.
abbrev demo_node : Node
demo_node = record {
  World = ℕ;
  get_account_nonce = λ w. (ok (0x28 ∷ 7 ∷ []), w);
  submit_transaction = λ r w. (ok tt, w + 1);
}

-- A node that does not answer.
abbrev dead_node : Node
dead_node = record {
  World = ℕ;
  get_account_nonce = λ w. (failed (codes "no route"), w);
  submit_transaction = λ r w. (failed (codes "no route"), w + 1);
}

abbrev demo_config : Config
demo_config = record {
  koinos_chain_id_bytes = 1 ∷ 2 ∷ [];
  rc_limit_mana = 200;
  operator_addr_full = 3 ∷ [];
  engine_contract_addr_full = 4 ∷ [];
  min_gas_price_wei = 0;
}

abbrev demo_clock : Clock
demo_clock = record { instant = 1000; unix_secs = 50 }

-- A legacy transaction of nonce 1 with v 27.
abbrev pub demo_raw : Bytes
demo_raw = 0xc9 ∷ 1 ∷ 2 ∷ 3 ∷ 0x80 ∷ 0x80 ∷ 0x80 ∷ 27 ∷ 5 ∷ 6 ∷ []

abbrev pub demo_crypto : Crypto
demo_crypto = record { keccak256 = λ b. replicate 32 8; recover = λ h sig y. some (replicate 65 9) }

abbrev pub demo_hash : Bytes
demo_hash = replicate 32 8

abbrev pub demo_tx : DecodedTx
demo_tx = record {
  tx_type = 0;
  chain_id = none;
  nonce = 1;
  to = none;
  value = replicate 32 0;
  input = [];
  gas_limit = 3;
  gas_price = replicate 31 0 ++ (2 ∷ []);
  from = replicate 20 8;
  r = replicate 31 0 ++ (5 ∷ []);
  s = replicate 31 0 ++ (6 ∷ []);
  v = 27;
}

abbrev pub demo_meta : TxMeta
demo_meta = placeholder demo_raw demo_tx

abbrev demo_metas : TxMetaStore
demo_metas = record { entries = []; order = []; cap = 2; ttl = 500 }

abbrev demo_nonces : PendingNonceStore
demo_nonces = record { entries = []; cap = 2; ttl = 500 }

abbrev demo_gateway : Gateway
demo_gateway = record {
  operator_nonce = some 8;
  tx_meta = demo_metas;
  pending_nonce = demo_nonces;
  inflight_submits = 0;
  last_submit_ok = 10;
  upserts = [];
}

metas-IsStore : TxMetaBounds.IsStore demo_metas
unfolding IsMap lookup
metas-IsStore = record {
  is_map = tt;
  covered = λ h m t e. cc;
  within = omega arith;
  positive = omega arith;
}

nonces-IsStore : PendingBounds.IsStore demo_nonces
unfolding IsMap
nonces-IsStore = record { is_map = tt; within = omega arith; positive = omega arith }

get-insert_example : get (insert 1000 demo_hash demo_meta demo_metas) demo_hash ≡ some demo_meta
get-insert_example =
    get-insert demo_hash demo_meta 1000 demo_metas metas-IsStore (omega arith) Memᴰ.not-nil

abbrev demo_store : TxMetaStore
demo_store = insert 1000 demo_hash demo_meta (TxMetaStore.new 2 500)

abbrev demo_sender : Bytes
demo_sender = replicate 20 8

get_unexpired-advance_example :
    get_unexpired 1200 (advance 1000 demo_sender 6 demo_nonces) demo_sender
    ≡ (if leb 500 (1200 - 1000) then none else some (advanced (lookup [] demo_sender) 6))
get_unexpired-advance_example = get_unexpired-advance 1000 1200 demo_sender 6 demo_nonces

abbrev demo_end : Answer Bytes × Gateway × ℕ
demo_end =
    submit_reserved_tx demo_node demo_config demo_signer demo_clock demo_hash demo_tx demo_raw
      demo_gateway 0

demo_end_ok : demo_end ≡ (ok demo_hash, demo_end.1, demo_end.2)
unfolding submit_reserved_tx first_nonce submit_loop submit_once conclude
demo_end_ok = refl

submit_reserved_tx-ok_example :
    (demo_hash ≡ demo_hash)
    × (nonce : ℕ) × (relayed : RelayedTx) × (w₁ : ℕ) × (submit_once demo_node demo_config
          demo_signer nonce demo_raw w₁
        ≡ (ok relayed, demo_end.2))
    × (demo_end.1
        ≡ settle demo_clock demo_hash demo_tx relayed
            (record demo_gateway { operator_nonce = some nonce }))
    × (demo_end.1.operator_nonce ≡ some ((nonce + 1) % 2 ^ 64))
submit_reserved_tx-ok_example =
    submit_reserved_tx-ok demo_node demo_config demo_signer demo_clock demo_hash demo_tx demo_raw
      demo_gateway demo_end.1 0 demo_end.2 demo_hash demo_end_ok

-- A gateway that has not fetched the operator's nonce.
abbrev fresh_gateway : Gateway
fresh_gateway = record demo_gateway { operator_nonce = none }

abbrev dead_end : Answer Bytes × Gateway × ℕ
dead_end =
    submit_reserved_tx dead_node demo_config demo_signer demo_clock demo_hash demo_tx demo_raw
      fresh_gateway 0

dead_end_failed : dead_end ≡ (failed (codes "no route"), dead_end.1, dead_end.2)
unfolding submit_reserved_tx first_nonce fetch_operator_nonce
dead_end_failed = refl

submit_reserved_tx-failed_example :
    (contains dead_end.1.tx_meta demo_hash ≡ false)
    × (dead_end.1.pending_nonce ≡ fresh_gateway.pending_nonce)
    × (dead_end.1.upserts ≡ fresh_gateway.upserts)
    × (dead_end.1.last_submit_ok ≡ fresh_gateway.last_submit_ok)
    × (dead_end.1.inflight_submits ≡ fresh_gateway.inflight_submits)
submit_reserved_tx-failed_example =
    submit_reserved_tx-failed dead_node demo_config demo_signer demo_clock demo_hash demo_tx
      demo_raw fresh_gateway dead_end.1 0 dead_end.2 (codes "no route") dead_end_failed

submit_reserved_tx-twice_example : demo_end.2 ≤ 0 + 2
submit_reserved_tx-twice_example =
    submit_reserved_tx-twice demo_node (λ w. w) (λ w. refl) (λ r w. refl) demo_config demo_signer
      demo_clock demo_hash demo_tx demo_raw demo_gateway 0

tx_count-submit_reserved_tx_example :
    demo_tx.nonce
    < (handle_get_tx_count demo_node
        (record demo_clock { instant = 1400 })
        0
        true
        demo_tx.from
        demo_end.1).0
tx_count-submit_reserved_tx_example =
    tx_count-submit_reserved_tx demo_node demo_config demo_signer demo_clock
      (record demo_clock { instant = 1400 }) demo_hash demo_tx demo_raw demo_gateway demo_end.1 0
      demo_end.2 demo_hash 0 demo_end_ok (omega arith) (omega arith)

-- The node's next nonce is 8, the cached one 9, and 40 seconds have passed since a success.
abbrev ahead_gateway : Gateway
ahead_gateway = record demo_gateway { operator_nonce = some 9 }

steps_down :
    (reconcile_operator_nonce demo_node demo_clock 30 ahead_gateway 0).0.operator_nonce ≡ some 8
unfolding reconcile_operator_nonce reconcile_cached fetch_operator_nonce next_operator_nonce
    uint64_value items items_from next read_varint read_varint_loop next_by_type
steps_down = refl

reconcile_operator_nonce-lower_example :
    (ahead_gateway.inflight_submits ≡ 0)
    × (30 ≤ demo_clock.unix_secs - ahead_gateway.last_submit_ok)
    × ((fetch_operator_nonce demo_node 0).0 ≡ ok 8)
reconcile_operator_nonce-lower_example =
    reconcile_operator_nonce-lower demo_node demo_clock 30 9 8 ahead_gateway 0 refl steps_down
      (omega arith)

abbrev reserved_gateway : Gateway
reserved_gateway = record (acquire demo_gateway) {
  tx_meta = insert 1000 demo_hash demo_meta demo_metas;
}

never_settled : Bytes → Bool
never_settled h = false

demo_reserved :
    admit demo_crypto demo_config demo_clock never_settled demo_raw demo_gateway
    ≡ (reserved demo_hash demo_tx, reserved_gateway)
unfolding admit reserve contains lookup never_settled decode_and_recover decode_legacy from_list
    rlp_header checked_add items_loop rlp_decode_bytes decode_u64 decode_u256_be decode_address
    shift_in classify_v legacy_signing_hash build_legacy_pre155_signing_hash first_items
    recover_sender
demo_reserved = refl

admit-twice_example :
    admit demo_crypto demo_config demo_clock never_settled demo_raw reserved_gateway
    ≡ (already_known demo_hash, reserved_gateway)
admit-twice_example =
    admit-twice demo_crypto demo_config never_settled demo_raw demo_clock demo_clock demo_gateway
      reserved_gateway demo_hash demo_tx demo_reserved metas-IsStore (omega arith) Memᴰ.not-nil

-- A request, then a reconciliation.
abbrev demo_system : System demo_node
demo_system =
    receive demo_node demo_crypto demo_config demo_signer demo_clock never_settled demo_raw
      (initial demo_node demo_crypto demo_config demo_signer 2 500 2 500 0)

Reached-IsRunning_example : IsRunning demo_node demo_crypto demo_config demo_signer demo_system
Reached-IsRunning_example =
    Reached-IsRunning demo_node demo_crypto demo_config demo_signer demo_system
      (stepped (begun 2 500 2 500 0) (received demo_clock never_settled demo_raw))
