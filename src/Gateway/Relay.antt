-- ===== src/Gateway/Relay.antt =====
-- koinos-evm/rpc/src/rpc.rs: how a raw transaction is relayed to the Koinos node, from
-- `handle_send_raw_tx` on, and the operator's nonce between the relays.
-- A lock that is held over several lines is one step here. The node is a parameter (Node), and so
-- are the clocks' readings. The text of a hex parameter is read before.
pub mod Submit
pub mod Settled
pub mod Nonces
pub mod Dedupe
pub mod Follows
pub mod Steps
use koinos_evm_engine.Base.{
  ℕ, zero, suc, ◌+◌, ◌-◌, ◌%◌, ◌^◌, Bool, true, false, not, ◌&&◌, ◌||◌, Option, none, some, List,
  [], ◌∷◌, ◌++◌, take, drop, length, is_empty, ltb, leb, ◌==◌, bytes_eq, if◌then◌else◌,
}
use koinos_evm_engine.Base.Words.{Bytes, be_value}
use koinos_evm_engine.Base.Text.{codes, decimal}
use koinos_evm_engine.Gateway.EngineProto
use koinos_evm_engine.Gateway.EngineProto.{
  ProtoError, truncated, too_long, overflows_buf, unsupported_wire_type,
}
use koinos_evm_engine.Gateway.TxMetaStore
use koinos_evm_engine.Gateway.TxMetaStore.{
  TxMeta, TxMetaStore, contains, get, insert, set_koinos_tx_id,
}
use koinos_evm_engine.Gateway.PendingNonceStore
use koinos_evm_engine.Gateway.PendingNonceStore.{PendingNonceStore, get_unexpired, advance}
use koinos_evm_engine.Gateway.EthTx.{Crypto, DecodedTx, decode_and_recover}
use koinos_evm_engine.Gateway.KoinosTx.{Signer, RelayedTx, build_relayed_tx, next_operator_nonce}

-- What a call gives: a value, an error with its text, or the end of the task.
pub data Answer {ℓ} (A : Type ℓ) : Type ℓ where
  ok : A → Answer A
  failed : Bytes → Answer A
  panicked : Answer A

-- The Koinos node: its own state, the bytes of the operator's last nonce, and a submission.
pub record Node : Type 1 where
  pub World : Type 0
  pub get_account_nonce : World → Answer Bytes × World
  pub submit_transaction : RelayedTx → World → Answer (Unit {0}) × World

pub record Config : Type 0 where
  pub koinos_chain_id_bytes : Bytes
  pub rc_limit_mana : ℕ
  pub operator_addr_full : Bytes
  pub engine_contract_addr_full : Bytes
  pub min_gas_price_wei : ℕ

-- A reading of the monotonic clock, and of the seconds since 1970.
pub record Clock : Type 0 where
  pub instant : ℕ
  pub unix_secs : ℕ

-- The part of `AppState` that the relay changes; `upserts` are the rows handed to the database.
pub record Gateway : Type 0 where
  pub operator_nonce : Option ℕ
  pub tx_meta : TxMetaStore
  pub pending_nonce : PendingNonceStore
  pub inflight_submits : ℕ
  pub last_submit_ok : ℕ
  pub upserts : List (Bytes × TxMeta)

abbrev pub ep_submit_raw_tx : ℕ
ep_submit_raw_tx = 0x00000007

unfoldable pub error_text : ProtoError → Bytes
error_text truncated = codes "varint truncated"
error_text too_long = codes "varint too long"
error_text overflows_buf = codes "length-delimited field overflows buf"
error_text (unsupported_wire_type w) = codes "unsupported wire type " ++ decimal w
error_text ProtoError.panicked = []

-- `to_lowercase` on the letters of ASCII; no other character becomes a letter of the word.
unfoldable pub to_lowercase : Bytes → Bytes
to_lowercase [] = []
to_lowercase (b ∷ rest) = (if leb b'A' b && leb b b'Z' then b + 32 else b) ∷ to_lowercase rest

unfoldable pub contains_text : Bytes → Bytes → Bool
contains_text needle [] = is_empty needle
contains_text needle (b ∷ rest) =
    bytes_eq (take (length needle) (b ∷ rest)) needle || contains_text needle rest

unfoldable pub is_nonce_related_err : Bytes → Bool
is_nonce_related_err e = contains_text (codes "nonce") (to_lowercase e)

unfoldable pub saturating_add : ℕ → ℕ → ℕ
saturating_add a b = if ltb (a + b) (2 ^ 64) then a + b else 2 ^ 64 - 1

-- The decrement of `InflightGuard` when it is dropped, and the increment.
unfoldable pub release : Gateway → Gateway
release g = record g { inflight_submits = (g.inflight_submits + (2 ^ 64 - 1)) % 2 ^ 64 }

unfoldable pub acquire : Gateway → Gateway
acquire g = record g { inflight_submits = (g.inflight_submits + 1) % 2 ^ 64 }

-- The placeholder is dropped, so that the transaction can be sent again.
unfoldable pub forget : Bytes → Gateway → Gateway
forget hash g = record g { tx_meta = TxMetaStore.remove hash g.tx_meta }

-- `v[..16].iter().any(|&b| b != 0)`
unfoldable pub any_set : Bytes → Bool
any_set [] = false
any_set (b ∷ rest) = not (b == 0) || any_set rest

unfoldable pub u256_be_ge_u128 : Bytes → ℕ → Bool
u256_be_ge_u128 v floor = any_set (take 16 v) || leb floor (be_value (drop 16 v))

-- The cached nonce after a success, one further.
unfoldable pub advanced_nonce : Option ℕ → Option ℕ
advanced_nonce none = none
advanced_nonce (some n) = some ((n + 1) % 2 ^ 64)

-- The settle bookkeeping behind a success, from the advance of the counter on.
unfoldable pub settle : Clock → Bytes → DecodedTx → RelayedTx → Gateway → Gateway
settle clock hash decoded relayed g =
    let koinos_id = take 32 (drop 2 relayed.tx_id_multihash) in
    let tx_meta = set_koinos_tx_id hash koinos_id g.tx_meta in
    record g {
      operator_nonce = advanced_nonce g.operator_nonce;
      last_submit_ok = clock.unix_secs;
      tx_meta = tx_meta;
      upserts = elim (get tx_meta hash) [ none ↦ g.upserts | some meta ↦ (hash, meta) ∷ g.upserts ];
      pending_nonce =
          advance clock.instant decoded.from (saturating_add decoded.nonce 1) g.pending_nonce;
    }

-- The placeholder that `handle_send_raw_tx` records.
abbrev pub placeholder : Bytes → DecodedTx → TxMeta
placeholder raw d = record {
  koinos_tx_id = [];
  from = d.from;
  to = d.to;
  nonce = d.nonce;
  value = d.value;
  input = d.input;
  gas_limit = d.gas_limit;
  gas_price = d.gas_price;
  raw_tx = raw;
  tx_type = d.tx_type;
  chain_id = d.chain_id;
  r = d.r;
  s = d.s;
  v = d.v;
}

-- How `handle_send_raw_tx` leaves its critical section: with an error, with the hash of a
-- transaction that is known, or with one to submit.
pub data Admission : Type 0 where
  bad_params underpriced : Admission
  already_known : Bytes → Admission
  reserved : Bytes → DecodedTx → Admission

module _ (crypto : Crypto) (config : Config) where
  -- The dedupe and the placeholder, under the gate. `is_settled` is the database's answer.
  unfoldable pub reserve :
      Clock → (Bytes → Bool) → Bytes → DecodedTx → Gateway → Admission × Gateway
  reserve clock is_settled raw decoded g =
      let hash = crypto.keccak256 raw in
      if contains g.tx_meta hash || is_settled hash then (already_known hash, g) else (
        reserved hash decoded,
        record (acquire g) {
          tx_meta = insert clock.instant hash (placeholder raw decoded) g.tx_meta;
        },
      )

  -- `handle_send_raw_tx` up to the task.
  unfoldable pub admit : Clock → (Bytes → Bool) → Bytes → Gateway → Admission × Gateway
  admit clock is_settled raw g =
      if is_empty raw then (bad_params, g) else elim (decode_and_recover crypto raw) [
        | none ↦ (bad_params, g)
        | some decoded ↦
            if ltb 0 config.min_gas_price_wei
              && not (u256_be_ge_u128 decoded.gas_price config.min_gas_price_wei)
            then (underpriced, g)
            else reserve clock is_settled raw decoded g
      ]
