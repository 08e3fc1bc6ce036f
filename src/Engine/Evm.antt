-- ===== src/Engine/Evm.antt =====
-- koinos-evm/engine/src/engine.rs: the call arguments, the results, and what is encoded and emitted
-- of them. revm is not part of the program: its types stand here as far as the engine names them,
-- and what it computes is the parameter `Revm`.
pub mod Messages
use koinos_evm_engine.Base.{
  ℕ, Bool, true, false, Option, none, some, List, [], ◌∷◌, ◌++◌, length, take, replicate, leb, ◌==◌,
  if◌then◌else◌,
}
use koinos_evm_engine.Base.Words.{Bytes}
use koinos_evm_engine.Base.Text.{codes, decimal}
use koinos_evm_engine.Engine.Proto.{
  wire_varint, encode_varint, encode_tag, encode_varint_field, encode_bool_field,
  encode_bytes_field, Field, fields, get_varint, get_bytes,
}
use koinos_evm_engine.Engine.Koinos.{Host, Sys, pure, ◌>>◌}
use koinos_evm_engine.Engine.Sys.{Run, log, event}
use koinos_evm_engine.Engine.Database.{Primitives, AccountInfo, DbResult, Account}
use koinos_evm_engine.Engine.Tx
use koinos_evm_engine.Engine.Tx.{TxParseError, TxResult, Rlp, ParsedTx}
use koinos_evm_engine.Engine.Tx.Sender.{parse_raw_tx}
use koinos_evm_engine.Engine.Precompiles.{PrecompileResult}

abbrev pub engine_chain_id : ℕ
engine_chain_id = 42069

pub record EvmCallArgs : Type 0 where
  pub caller : Bytes
  pub to : Option Bytes
  pub value : ℕ
  pub input : Bytes
  pub gas_limit : ℕ

-- `transact_to` is `none` for a creation. Every other field has revm's default.
pub record TxEnv : Type 0 where
  pub caller : Bytes
  pub gas_limit : ℕ
  pub gas_price : ℕ
  pub transact_to : Option Bytes
  pub value : ℕ
  pub input : Bytes
  pub nonce : Option ℕ
  pub chain_id : Option ℕ

pub record BlockEnv : Type 0 where
  pub number : ℕ
  pub timestamp : ℕ
  pub basefee : ℕ
  pub gas_limit : ℕ
  pub coinbase : Bytes
  pub difficulty : ℕ

pub data Output : Type 0 where
  call : Bytes → Output
  create : Bytes → Option Bytes → Output

pub record Log : Type 0 where
  pub address : Bytes
  pub topics : List Bytes
  pub payload : Bytes

pub data ExecutionResult : Type 0 where
  success : Output → ℕ → List Log → ExecutionResult
  revert : Bytes → ℕ → ExecutionResult
  halt : ℕ → ExecutionResult

-- An error is known by its `{:?}` text.
pub data EvmOutcome {ℓ} (A : Type ℓ) : Type ℓ where
  ok : A → EvmOutcome A
  evm_error : Bytes → EvmOutcome A

-- The callbacks that revm gets: `Database`, and the overridden precompiles.
pub record Callbacks (W : Type 0) : Type 0 where
  pub basic : Bytes → Sys W (DbResult (Option AccountInfo))
  pub code_by_hash : Bytes → Sys W (DbResult Bytes)
  pub storage : Bytes → ℕ → Sys W (DbResult ℕ)
  pub block_hash : ℕ → Sys W (DbResult ℕ)
  pub ec_recover : Bytes → ℕ → Sys W PrecompileResult
  pub sha256_run : Bytes → ℕ → Sys W PrecompileResult
  pub ripemd160_run : Bytes → ℕ → Sys W PrecompileResult
  pub identity_run : Bytes → ℕ → Sys W PrecompileResult

abbrev pub Changes : Type 0
Changes = List (Bytes × Account)

pub record Revm (W : Type 0) : Type 0 where
  -- At the specification `CANCUN`, with the given chain id.
  pub transact : ℕ → BlockEnv → TxEnv → Callbacks W → Sys W (EvmOutcome (ExecutionResult × Changes))

-- The `{:?}` text of a parse error.
unfoldable pub debug_parse_error : TxParseError → Bytes
debug_parse_error Tx.empty = codes "Empty"
debug_parse_error Tx.rlp_decode = codes "RlpDecode"
debug_parse_error (Tx.unsupported_type t) = codes "UnsupportedType(" ++ (decimal t ++ codes ")")
debug_parse_error Tx.wrong_field_count = codes "WrongFieldCount"
debug_parse_error Tx.invalid_signature = codes "InvalidSignature"
debug_parse_error Tx.invalid_chain_id = codes "InvalidChainId"
debug_parse_error Tx.address_length = codes "AddressLength"
debug_parse_error Tx.scalar_too_large = codes "ScalarTooLarge"
debug_parse_error Tx.non_canonical_integer = codes "NonCanonicalInteger"
debug_parse_error Tx.trailing_bytes = codes "TrailingBytes"
debug_parse_error Tx.pre155_rejected = codes "Pre155Rejected"
debug_parse_error Tx.access_list_unsupported = codes "AccessListUnsupported"
debug_parse_error Tx.invalid_fee_ordering = codes "InvalidFeeOrdering"
debug_parse_error Tx.hash_failure = codes "HashFailure"
debug_parse_error Tx.recovery_failure = codes "RecoveryFailure"

unfoldable pub encode_evm_result : Bool → Bytes → ℕ → Option Bytes → Bytes
encode_evm_result succeeded output gas_used contract_address =
    let buf =
      encode_varint_field (encode_bytes_field (encode_bool_field [] 1 succeeded) 2 output) 3
        gas_used in
    elim contract_address [ none ↦ buf | some addr ↦ encode_bytes_field buf 4 addr ]

-- The payload of an `evm.result` event: field 1 is written even when it is 0.
unfoldable pub evm_result_event : Bool → ℕ → Option Bytes → Bytes
evm_result_event succeeded gas_used contract_address =
    let status = encode_varint (encode_tag [] 1 wire_varint) (if succeeded then 1 else 0) in
    let buf = encode_varint_field status 2 gas_used in
    elim contract_address [ none ↦ buf | some addr ↦ encode_bytes_field buf 3 addr ]

-- The loop of `emit_logs` over the topics.
unfoldable pub topic_fields : Bytes → List Bytes → Bytes
topic_fields buf [] = buf
topic_fields buf (topic ∷ rest) = topic_fields (encode_bytes_field buf 2 topic) rest

unfoldable pub evm_log_payload : Log → Bytes
evm_log_payload l =
    encode_bytes_field (topic_fields (encode_bytes_field [] 1 l.address) l.topics) 3 l.payload

unfoldable pub output_parts : Output → Bytes × Option Bytes
output_parts (call result) = (result, none)
output_parts (create result address) = (result, address)

module _ (p : Primitives) where
  unfoldable pub call_field : EvmCallArgs → Field → EvmCallArgs
  call_field args (f, value) =
      if f == 1
      then elim (get_bytes value) [
        | none ↦ args
        | some b ↦ if leb 20 (length b) then record args { caller = take 20 b } else args
      ]
      else if f == 2
      then elim (get_bytes value) [
        | none ↦ args
        | some b ↦ if leb 20 (length b) then record args { to = some (take 20 b) } else args
      ]
      else if f == 3
      then elim (get_bytes value) [
        | none ↦ args
        | some b ↦ if length b == 32 then record args { value = p.from_be_slice b } else args
      ]
      else if f == 4
      then elim (get_bytes value) [ none ↦ args | some b ↦ record args { input = b } ]
      else if f == 5
      then elim (get_varint value) [ none ↦ args | some v ↦ record args { gas_limit = v } ]
      else args

  unfoldable pub call_fields : EvmCallArgs → List Field → EvmCallArgs
  call_fields args [] = args
  call_fields args (field ∷ rest) = call_fields (call_field args field) rest

  abbrev pub default_call_args : EvmCallArgs
  default_call_args = record {
    caller = replicate 20 0;
    to = none;
    value = 0;
    input = [];
    gas_limit = 30_000_000;
  }

  unfoldable pub parse_call_args : Bytes → EvmCallArgs
  parse_call_args args = call_fields default_call_args (fields args)

module _ (host : Host) where
  unfoldable pub emit_logs : List Log → Run host (Unit {0})
  emit_logs [] = pure tt
  emit_logs (l ∷ rest) = do
    event host (codes "evm.log") (evm_log_payload l) (l.address ∷ l.topics)
    emit_logs rest

  unfoldable pub emit_evm_result_event : Bool → ℕ → Option Bytes → Run host (Unit {0})
  emit_evm_result_event succeeded gas_used contract_address =
      event host (codes "evm.result") (evm_result_event succeeded gas_used contract_address) []

  -- An action that only a committing call makes.
  abbrev pub when : Bool → Run host (Unit {0}) → Run host (Unit {0})
  when b m = if b then m else pure tt

  unfoldable pub execution_result_to_response : ExecutionResult → Bool → Run host Bytes
  execution_result_to_response (success output gas_used logs) committing =
      let (result, address) = output_parts output in
      do
        when committing (emit_logs logs)
        when committing (emit_evm_result_event true gas_used address)
        pure (encode_evm_result true result gas_used address)
  execution_result_to_response (revert output gas_used) committing = do
    when committing (emit_evm_result_event false gas_used none)
    pure (encode_evm_result false output gas_used none)
  execution_result_to_response (halt gas_used) committing = do
    when committing (emit_evm_result_event false gas_used none)
    pure (encode_evm_result false (codes "execution halted") gas_used none)

  -- The `match` on the outcome in `handle_execute`, `handle_call_view` and `handle_deploy_code`.
  unfoldable pub respond : Bytes → Bool → EvmOutcome ExecutionResult → Run host Bytes
  respond prefix committing (ok result) = execution_result_to_response result committing
  respond prefix committing (evm_error e) =
      let message = prefix ++ e in
      do log host message; pure (encode_evm_result false message 0 none)
