-- ===== src/Gateway/KoinosTx.antt =====
-- koinos-evm/rpc/src/koinos_tx.rs: the Koinos transaction that carries an Ethereum one, and
-- koinos-evm/rpc/src/rpc.rs (fetch_operator_nonce): the operator's next nonce in the node's reply.
pub mod Message
use koinos_evm_engine.Base.{
  ℕ, ◌+◌, ◌*◌, ◌%◌, ◌^◌, ◌<◌, ◌≡◌, bit_or, Bool, ◌&&◌, Option, none, some, List, [], ◌∷◌, ◌++◌,
  length, take, drop, is_empty, ◌==◌, if◌then◌else◌,
}
use koinos_evm_engine.Base.Words.{Bytes}
use koinos_evm_engine.Gateway.EngineProto
use koinos_evm_engine.Gateway.EngineProto.{
  Result, ok, ◌>>=!◌, ProtoField, field_tag, write_varint, write_given, items,
}

-- The text of `encode_varint` and `write_bytes_field` is that of engine_proto.rs.
abbrev pub encode_varint : Bytes → ℕ → Bytes
encode_varint out n = write_varint out n

unfoldable pub write_uint64_field : Bytes → ℕ → ℕ → Bytes
write_uint64_field out field value =
    encode_varint (encode_varint out (field * 2 ^ 3 % 2 ^ 32)) value

abbrev pub write_bytes_field : Bytes → ℕ → Bytes → Bytes
write_bytes_field out field bytes = EngineProto.write_bytes_field out field bytes

abbrev pub write_submessage_field : Bytes → ℕ → Bytes → Bytes
write_submessage_field out field sub = write_bytes_field out field sub

-- The crates `sha2` and `secp256k1`: a digest has 32 bytes, a signature a recovery id from 0 to 3
-- and 64 bytes.
pub record Signer : Type 0 where
  pub digest : Bytes → Bytes
  pub sign : Bytes → ℕ × Bytes
  pub length-digest : (b : Bytes) → length (digest b) ≡ 32
  pub recovery_id : (b : Bytes) → (sign b).0 < 4
  pub length-compact : (b : Bytes) → length ((sign b).1) ≡ 64

unfoldable pub encode_call_contract_operation : Bytes → ℕ → Bytes → Bytes
encode_call_contract_operation contract_id entry_point args =
    let id = write_bytes_field [] 1 contract_id in
    let called = if entry_point == 0 then id else write_uint64_field id 2 entry_point in
    if is_empty args then called else write_bytes_field called 3 args

unfoldable pub encode_operation_call_contract : Bytes → Bytes
encode_operation_call_contract call_op = write_submessage_field [] 2 call_op

unfoldable pub encode_nonce : ℕ → Bytes
encode_nonce n = write_uint64_field [] 5 n

pub record TransactionHeader : Type 0 where
  pub chain_id_multihash : Bytes
  pub rc_limit : ℕ
  pub nonce_bytes : Bytes
  pub operation_merkle_root_multihash : Bytes
  pub payer_20 : Bytes
  pub payee_20 : Option Bytes

unfoldable pub encode_transaction_header : TransactionHeader → Bytes
encode_transaction_header h =
    let chain = write_bytes_field [] 1 h.chain_id_multihash in
    let limited = if h.rc_limit == 0 then chain else write_uint64_field chain 2 h.rc_limit in
    let numbered = write_bytes_field limited 3 h.nonce_bytes in
    let rooted = write_bytes_field numbered 4 h.operation_merkle_root_multihash in
    write_given (write_bytes_field rooted 5 h.payer_20) 6 h.payee_20

unfoldable pub encode_transaction : Bytes → Bytes → Bytes → Bytes → Bytes
encode_transaction tx_id header operation signature =
    let named = write_bytes_field [] 1 tx_id in
    let headed = write_submessage_field named 2 header in
    write_bytes_field (write_submessage_field headed 3 operation) 4 signature

pub record RelayedTx : Type 0 where
  pub transaction_bytes : Bytes
  pub tx_id_multihash : Bytes
  pub operation_merkle_root : Bytes
  pub signature : Bytes
  pub operation_bytes : Bytes

module _ (signer : Signer) where
  unfoldable pub sha256_multihash : Bytes → Bytes
  sha256_multihash bytes = 0x12 ∷ 0x20 ∷ signer.digest bytes

  unfoldable pub sign_digest_compact : Bytes → Bytes
  sign_digest_compact digest = let (rec_id, compact) = signer.sign digest in (31 + rec_id) ∷ compact

  unfoldable pub build_relayed_tx : Bytes → ℕ → Bytes → ℕ → Bytes → ℕ → Bytes → RelayedTx
  build_relayed_tx chain_id rc_limit payer nonce engine_contract entry_point raw =
      let submit_args = write_bytes_field [] 1 raw in
      let call_op = encode_call_contract_operation engine_contract entry_point submit_args in
      let operation = encode_operation_call_contract call_op in
      let root = sha256_multihash operation in
      let header = encode_transaction_header (record {
        chain_id_multihash = chain_id;
        rc_limit = rc_limit;
        nonce_bytes = encode_nonce nonce;
        operation_merkle_root_multihash = root;
        payer_20 = payer;
        payee_20 = none;
      }) in
      let tx_id = sha256_multihash header in
      let signature = sign_digest_compact (take 32 (drop 2 tx_id)) in
      record {
        transaction_bytes = encode_transaction tx_id header operation signature;
        tx_id_multihash = tx_id;
        operation_merkle_root = root;
        signature = signature;
        operation_bytes = operation;
      }

-- The loop of `fetch_operator_nonce` over a `value_type`.
unfoldable pub uint64_value : ℕ → List ProtoField → ℕ
uint64_value current [] = current
uint64_value current (f ∷ rest) =
    uint64_value (if f.field == 5 && f.wtype == 0 then f.varint else current) rest

-- The next nonce from the bytes of the node's reply. A nonce of 2 ^ 64 - 1 would overflow.
unfoldable pub next_operator_nonce : Bytes → Result ℕ
next_operator_nonce bytes = items bytes >>=! λ fs. ok ((uint64_value 0 fs + 1) % 2 ^ 64)
