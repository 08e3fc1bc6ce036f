-- ===== src/Engine/Tx.antt =====
-- koinos-evm/engine/src/tx.rs: parsing of signed Ethereum transactions and recovery of the sender.
-- `alloy_rlp` is not part of the program: its decoder and encoder are the parameter `Rlp`. The
-- crypto is that of the default build, by Koinos system calls.
pub mod Fields
pub mod Sender
pub mod Words
pub mod Inverse
pub mod Accepts
use koinos_evm_engine.Base.{
  ℕ, ◌+◌, ◌-◌, ◌*◌, ◌/◌, ◌%◌, ◌^◌, bit_or, Bool, ◌&&◌, ◌||◌, not, Option, none, some, List, [], ◌∷◌,
  ◌++◌, length, is_empty, take, drop, get_or, ltb, leb, ◌==◌, if◌then◌else◌,
}
use koinos_evm_engine.Base.Words.{Bytes}
use koinos_evm_engine.Engine.Koinos.{hash_keccak_256, dsa_ecdsa_secp256k1, Host, pure, ◌>>=◌}
use koinos_evm_engine.Engine.Sys.{Run, hash, recover_public_key}
use koinos_evm_engine.Engine.Database.{Primitives}

-- `InvalidChainId` is declared and never constructed.
pub data TxParseError : Type 0 where
  empty rlp_decode : TxParseError
  unsupported_type : ℕ → TxParseError
  wrong_field_count invalid_signature invalid_chain_id address_length scalar_too_large :
      TxParseError
  non_canonical_integer trailing_bytes pre155_rejected access_list_unsupported : TxParseError
  invalid_fee_ordering hash_failure recovery_failure : TxParseError

-- `LegacyPre155` is declared and never constructed.
pub data TxKindParsed : Type 0 where
  legacy_pre155 eip155 eip1559 : TxKindParsed

pub data TxResult {ℓ} (A : Type ℓ) : Type ℓ where
  ok : A → TxResult A
  err : TxParseError → TxResult A

-- The `?` operator.
infixl 5 ◌>>=!◌ ◌>>!◌
abbrev pub ◌>>=!◌ {ℓ κ} : {A : Type ℓ} {B : Type κ} → TxResult A → (A → TxResult B) → TxResult B
ok a >>=! f = f a
err e >>=! f = err e

abbrev pub ◌>>!◌ {ℓ} : {B : Type ℓ} → TxResult (Unit {0}) → TxResult B → TxResult B
m >>! k = m >>=! λ _. k

abbrev pub guard : Bool → TxParseError → TxResult (Unit {0})
guard b e = if b then ok tt else err e

-- The result of `Header::decode_raw`: a string, or a list as the slices of its items.
pub data PayloadView : Type 0 where
  string : Bytes → PayloadView
  list : List Bytes → PayloadView

pub record Rlp : Type 0 where
  -- The payload, and what is left of the buffer.
  pub decode_raw : Bytes → Option (PayloadView × Bytes)
  -- `Header::decode_bytes(buf, false)`
  pub decode_bytes : Bytes → Option Bytes
  -- `Header { list: true, payload_length }.encode`
  pub list_header : ℕ → Bytes
  pub encode_u64 : ℕ → Bytes

pub record ParsedTx : Type 0 where
  pub kind : TxKindParsed
  pub chain_id : Option ℕ
  pub nonce : ℕ
  pub gas_limit : ℕ
  pub max_fee_per_gas : ℕ
  pub max_priority_fee_per_gas : ℕ
  pub to : Option Bytes
  pub value : ℕ
  pub input : Bytes
  pub r : ℕ
  pub s : ℕ
  pub y_parity : ℕ
  pub sender : Bytes

abbrev pub secp256k1_n : ℕ
secp256k1_n = 0xFFFFFFFFFFFFFFFFFFFFFFFFFFFFFFFEBAAEDCE6AF48A03BBFD25E8CD0364141

abbrev pub secp256k1_n_half : ℕ
secp256k1_n_half = 0x7FFFFFFFFFFFFFFFFFFFFFFFFFFFFFFF5D576E7357A4501DDFE92F46681B20A0

unfoldable pub check_canonical : Bytes → TxResult (Unit {0})
check_canonical [] = ok tt
check_canonical (b ∷ bs) = if b == 0 then err non_canonical_integer else ok tt

-- The loop of `decode_u64` and `decode_u128`, in a word of `width` bits.
unfoldable pub shift_in : ℕ → ℕ → Bytes → ℕ
shift_in width out [] = out
shift_in width out (b ∷ bs) = shift_in width (bit_or (out * 2 ^ 8 % 2 ^ width) b) bs

unfoldable pub validate_signature : ℕ → ℕ → ℕ → TxResult (Unit {0})
validate_signature r s y_parity =
    if r == 0 || s == 0
    then err invalid_signature
    else if leb secp256k1_n r || leb secp256k1_n s
    then err invalid_signature
    else if ltb secp256k1_n_half s
    then err invalid_signature
    else if ltb 1 y_parity
    then err invalid_signature
    else ok tt

-- `v` of a legacy transaction: the chain id and the parity.
unfoldable pub classify_v : ℕ → TxResult (ℕ × ℕ)
classify_v v_raw =
    if v_raw == 27 || v_raw == 28
    then err pre155_rejected
    else if leb 35 v_raw
    then ok ((v_raw - 35) / 2, (v_raw - 35) % 2)
    else err invalid_signature

-- The key without its tag byte, if it is one.
unfoldable pub pubkey_xy : Bytes → TxResult Bytes
pubkey_xy pubkey =
    if ltb (length pubkey) 64
    then err recovery_failure
    else if get_or pubkey 0 0 == 0x04 && length pubkey == 65
    then ok (drop 1 pubkey)
    else if length pubkey == 64
    then ok pubkey
    else err recovery_failure

-- `items.iter().map(|i| i.len()).sum()`
unfoldable pub total_length : List Bytes → ℕ
total_length [] = 0
total_length (item ∷ rest) = length item + total_length rest

unfoldable pub concat : List Bytes → Bytes
concat [] = []
concat (item ∷ rest) = item ++ concat rest

abbrev pub item_at : List Bytes → ℕ → Bytes
item_at items i = get_or items i []
