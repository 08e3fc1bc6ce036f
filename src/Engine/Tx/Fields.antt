-- ===== src/Engine/Tx/Fields.antt =====
-- koinos-evm/engine/src/tx.rs: the fields of a raw transaction, up to the hash that is signed.
use koinos_evm_engine.Base.{
  ℕ, ◌+◌, ◌*◌, not, Option, none, some, List, [], ◌∷◌, ◌++◌, length, is_empty, take, ltb, leb, ◌==◌,
  if◌then◌else◌,
}
use koinos_evm_engine.Base.Words.{Bytes}
use koinos_evm_engine.Engine.Database.{Primitives}
use koinos_evm_engine.Engine.Tx.{
  rlp_decode, wrong_field_count, invalid_signature, address_length, scalar_too_large,
  trailing_bytes, access_list_unsupported, invalid_fee_ordering, eip155, eip1559, TxResult, ok, err,
  ◌>>=!◌, ◌>>!◌, guard, check_canonical, shift_in, validate_signature, classify_v, total_length,
  concat, item_at, string, list, Rlp, ParsedTx,
}

module _ (rlp : Rlp) (p : Primitives) where
  unfoldable pub decode_bytes : Bytes → TxResult Bytes
  decode_bytes item = elim (rlp.decode_bytes item) [ none ↦ err rlp_decode | some b ↦ ok b ]

  unfoldable pub decode_word : ℕ → Bytes → TxResult ℕ
  decode_word size item = decode_bytes item >>=! λ bytes.
      check_canonical bytes
      >>! (if ltb size (length bytes)
          then err scalar_too_large
          else ok (shift_in (size * 8) 0 bytes))

  abbrev pub decode_u64 : Bytes → TxResult ℕ
  decode_u64 = decode_word 8

  abbrev pub decode_u128 : Bytes → TxResult ℕ
  decode_u128 = decode_word 16

  unfoldable pub decode_u256 : Bytes → TxResult ℕ
  decode_u256 item = decode_bytes item >>=! λ bytes.
      check_canonical bytes
      >>! (if ltb 32 (length bytes) then err scalar_too_large else ok (p.from_be_slice bytes))

  unfoldable pub decode_to : Bytes → TxResult (Option Bytes)
  decode_to item = decode_bytes item >>=! λ bytes.
      if is_empty bytes
      then ok none
      else if length bytes == 20
      then ok (some bytes)
      else err address_length

  -- The outer list of a transaction: all of the input, and `count` items.
  unfoldable pub outer_items : ℕ → Bytes → TxResult (List Bytes)
  outer_items count raw = elim (rlp.decode_raw raw) [
    | none ↦ err rlp_decode
    | some (view, rest) ↦ if not (is_empty rest) then err trailing_bytes else elim view [
      | string s ↦ err rlp_decode
      | list items ↦ if length items == count then ok items else err wrong_field_count
    ]
  ]

  -- `parse_legacy` up to the signing hash: the items, and the transaction without its sender.
  unfoldable pub legacy_fields : Bytes → TxResult (List Bytes × ParsedTx)
  legacy_fields raw = outer_items 9 raw >>=! λ items. decode_u64 (item_at items 0) >>=! λ nonce.
      decode_u128 (item_at items 1) >>=! λ gas_price. decode_u64 (item_at items 2) >>=! λ gas_limit.
      decode_to (item_at items 3) >>=! λ to. decode_u256 (item_at items 4) >>=! λ value.
      decode_bytes (item_at items 5) >>=! λ input. decode_u64 (item_at items 6) >>=! λ v_raw.
      decode_u256 (item_at items 7) >>=! λ r. decode_u256 (item_at items 8) >>=! λ s.
      classify_v v_raw >>=! λ (chain_id, y_parity).
      validate_signature r s y_parity
      >>! ok (
        items,
        record {
          kind = eip155;
          chain_id = some chain_id;
          nonce = nonce;
          gas_limit = gas_limit;
          max_fee_per_gas = gas_price;
          max_priority_fee_per_gas = gas_price;
          to = to;
          value = value;
          input = input;
          r = r;
          s = s;
          y_parity = y_parity;
          sender = [];
        },
      )

  -- The access list has to be an empty list.
  unfoldable pub check_access_list : Bytes → TxResult (Unit {0})
  check_access_list item = elim (rlp.decode_raw item) [
    | none ↦ err rlp_decode
    | some (view, rest) ↦ elim view [
      | string s ↦ err access_list_unsupported
      | list entries ↦ if is_empty entries then ok tt else err access_list_unsupported
    ]
  ]

  -- `parse_eip1559` up to the signing hash.
  unfoldable pub eip1559_fields : Bytes → TxResult (List Bytes × ParsedTx)
  eip1559_fields payload = outer_items 12 payload >>=! λ items.
      decode_u64 (item_at items 0) >>=! λ chain_id. decode_u64 (item_at items 1) >>=! λ nonce.
      decode_u128 (item_at items 2) >>=! λ max_priority.
      decode_u128 (item_at items 3) >>=! λ max_fee.
      guard (leb max_priority max_fee) invalid_fee_ordering
      >>! (decode_u64 (item_at items 4) >>=! λ gas_limit. decode_to (item_at items 5) >>=! λ to.
          decode_u256 (item_at items 6) >>=! λ value. decode_bytes (item_at items 7) >>=! λ input.
          check_access_list (item_at items 8)
          >>! (decode_u64 (item_at items 9) >>=! λ y_parity.
              decode_u256 (item_at items 10) >>=! λ r. decode_u256 (item_at items 11) >>=! λ s.
              guard (leb y_parity 1) invalid_signature
              >>! validate_signature r s y_parity
              >>! ok (
                items,
                record {
                  kind = eip1559;
                  chain_id = some chain_id;
                  nonce = nonce;
                  gas_limit = gas_limit;
                  max_fee_per_gas = max_fee;
                  max_priority_fee_per_gas = max_priority;
                  to = to;
                  value = value;
                  input = input;
                  r = r;
                  s = s;
                  y_parity = y_parity;
                  sender = [];
                },
              )))

  unfoldable pub build_rlp_list_with_tail : List Bytes → Bytes → Bytes
  build_rlp_list_with_tail items tail =
      rlp.list_header (total_length items + length tail) ++ (concat items ++ tail)

  unfoldable pub build_rlp_list : List Bytes → Bytes
  build_rlp_list items = rlp.list_header (total_length items) ++ concat items

  -- What is hashed for an EIP-155 transaction: the first six items, the chain id and two zeros.
  unfoldable pub legacy_preimage : List Bytes → ℕ → Bytes
  legacy_preimage items chain_id =
      build_rlp_list_with_tail (take 6 items)
        (rlp.encode_u64 chain_id ++ (rlp.encode_u64 0 ++ rlp.encode_u64 0))

  -- What is hashed for an EIP-1559 transaction.
  unfoldable pub eip1559_preimage : List Bytes → Bytes
  eip1559_preimage items = 0x02 ∷ build_rlp_list (take 9 items)

  -- `[31 + y_parity] || r || s`
  unfoldable pub compact_signature : ℕ → ℕ → ℕ → Bytes
  compact_signature r s y_parity = (31 + y_parity) ∷ (p.to_be_bytes r ++ p.to_be_bytes s)
