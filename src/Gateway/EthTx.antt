-- ===== src/Gateway/EthTx.antt =====
-- koinos-evm/rpc/src/eth_tx.rs: the gateway's own reader of Ethereum transactions.
-- `none` is an error, of which the caller only passes on the text.
pub mod Rlp
use koinos_evm_engine.Base.{
  ℕ, ◌+◌, ◌-◌, ◌*◌, ◌/◌, ◌%◌, ◌^◌, ◌<◌, bit_or, Bool, true, false, ◌||◌, Option, none, some, ◌>>=?◌,
  List, [], ◌∷◌, ◌++◌, take, drop, length, replicate, is_empty, ltb, leb, ◌==◌, if◌then◌else◌,
}
use koinos_evm_engine.Base.Words.{Bytes}
use koinos_evm_engine.Gateway.EthTx.Rlp.{
  from_list, item, decode_u64, decode_u256_be, decode_address, rlp_decode_bytes, rlp_encode_u64,
  wrap_rlp_list, first_items,
}

pub record DecodedTx : Type 0 where
  pub tx_type : ℕ
  pub chain_id : Option ℕ
  pub nonce : ℕ
  pub to : Option Bytes
  pub value : Bytes
  pub input : Bytes
  pub gas_limit : ℕ
  pub gas_price : Bytes
  pub from : Bytes
  pub r : Bytes
  pub s : Bytes
  pub v : ℕ

-- The crates `sha3` and `secp256k1`: `recover` gives the 65 bytes of an uncompressed key.
pub record Crypto : Type 0 where
  pub keccak256 : Bytes → Bytes
  pub recover : Bytes → Bytes → ℕ → Option Bytes

-- Chain id and parity of a legacy `v`.
unfoldable pub classify_v : ℕ → Option (Option ℕ × ℕ)
classify_v v =
    if v == 27 || v == 28
    then some (none, v - 27)
    else if leb 35 v
    then some (some ((v - 35) / 2), (v - 35) % 2)
    else none

module _ (c : Crypto) where
  unfoldable pub recover_sender : Bytes → Bytes → Bytes → ℕ → Option Bytes
  recover_sender msg_hash r s y_parity =
      if ltb 3 y_parity
      then none
      else c.recover msg_hash (r ++ s) y_parity >>=? λ key.
          some (take 20 (drop 12 (c.keccak256 (drop 1 key))))

  unfoldable pub build_legacy_pre155_signing_hash : Bytes → Option Bytes
  build_legacy_pre155_signing_hash raw = from_list raw >>=? λ items.
      first_items 6 items >>=? λ fields. some (c.keccak256 (wrap_rlp_list fields))

  unfoldable pub build_legacy_eip155_signing_hash : Bytes → ℕ → Option Bytes
  build_legacy_eip155_signing_hash raw chain_id = from_list raw >>=? λ items.
      first_items 6 items >>=? λ fields.
      let zero_bytes : Bytes = 0x80 ∷ [] in
      some (
        c.keccak256
          (wrap_rlp_list (fields ++ (rlp_encode_u64 chain_id ∷ zero_bytes ∷ zero_bytes ∷ []))))

  unfoldable pub legacy_signing_hash : Bytes → Option ℕ → Option Bytes
  legacy_signing_hash raw none = build_legacy_pre155_signing_hash raw
  legacy_signing_hash raw (some cid) = build_legacy_eip155_signing_hash raw cid

  unfoldable pub decode_legacy : Bytes → Option DecodedTx
  decode_legacy raw = from_list raw >>=? λ items. item items 0 >>=? decode_u64 >>=? λ nonce.
      item items 1 >>=? decode_u256_be >>=? λ gas_price.
      item items 2 >>=? decode_u64 >>=? λ gas_limit. item items 3 >>=? decode_address >>=? λ to.
      item items 4 >>=? decode_u256_be >>=? λ value.
      item items 5 >>=? rlp_decode_bytes >>=? λ input. item items 6 >>=? decode_u64 >>=? λ v.
      item items 7 >>=? decode_u256_be >>=? λ r. item items 8 >>=? decode_u256_be >>=? λ s.
      classify_v v >>=? λ chain_parity. legacy_signing_hash raw chain_parity.0 >>=? λ signing_hash.
      recover_sender signing_hash r s chain_parity.1 >>=? λ from. some (record {
        tx_type = 0;
        chain_id = chain_parity.0;
        nonce = nonce;
        to = to;
        value = value;
        input = input;
        gas_limit = gas_limit;
        gas_price = gas_price;
        from = from;
        r = r;
        s = s;
        v = v;
      })

  unfoldable pub decode_eip1559 : Bytes → Option DecodedTx
  decode_eip1559 payload = from_list payload >>=? λ items.
      item items 0 >>=? decode_u64 >>=? λ chain_id. item items 1 >>=? decode_u64 >>=? λ nonce.
      item items 2 >>=? rlp_decode_bytes >>=? λ max_priority.
      item items 3 >>=? decode_u256_be >>=? λ max_fee.
      item items 4 >>=? decode_u64 >>=? λ gas_limit. item items 5 >>=? decode_address >>=? λ to.
      item items 6 >>=? decode_u256_be >>=? λ value.
      item items 7 >>=? rlp_decode_bytes >>=? λ input. item items 9 >>=? decode_u64 >>=? λ parity.
      item items 10 >>=? decode_u256_be >>=? λ r. item items 11 >>=? decode_u256_be >>=? λ s.
      first_items 9 items >>=? λ fields.
      let y_parity = parity % 2 ^ 8 in
      recover_sender (c.keccak256 (0x02 ∷ wrap_rlp_list fields)) r s y_parity >>=? λ from.
      some (record {
        tx_type = 2;
        chain_id = some chain_id;
        nonce = nonce;
        to = to;
        value = value;
        input = input;
        gas_limit = gas_limit;
        gas_price = max_fee;
        from = from;
        r = r;
        s = s;
        v = y_parity;
      })

  unfoldable pub decode_and_recover : Bytes → Option DecodedTx
  decode_and_recover [] = none
  decode_and_recover (first ∷ rest) =
      if leb 0xc0 first
      then decode_legacy (first ∷ rest)
      else if first == 0x02
      then decode_eip1559 rest
      else none
