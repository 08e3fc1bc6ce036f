-- ===== src/Runs.antt =====
-- Concrete hosts, primitives and codecs, and runs of the code on them.
pub mod Wire
pub mod Contract
pub mod Codec
pub mod Gateway
pub mod Receipts
pub mod Limits
pub mod Store
pub mod History
use koinos_evm_engine.Base.{
  ℕ, zero, suc, ◌+◌, ◌^◌, ◌<◌, ◌≡◌, ◌≢◌, refl, Bool, true, false, ◌&&◌, Bool-cases, inl, inr,
  Option, none, some, List, [], ◌∷◌, ◌++◌, length, drop, replicate, ltb, ltb→lt, ◌==◌,
  if◌then◌else◌, arith,
}
use koinos_evm_engine.Base.Words.{Bytes, IsBytes, to_be, be_value, length-to_be, be_value-to_be}
use koinos_evm_engine.Engine.Koinos.{
  sc_get_contract_id, sc_hash, sc_recover_public_key, Reply, Host, pure,
}
use koinos_evm_engine.Engine.Database.{Primitives}
use koinos_evm_engine.Engine.Tx.{Rlp, PayloadView, list}
use koinos_evm_engine.Engine.Evm.{Revm, evm_error}
use koinos_evm_engine.Gateway.KoinosTx.{Signer}

-- The world counts the system calls. The contract's id is `Z`, a hash has 34 bytes, and a key 64.
abbrev pub demo_reply : ℕ → Reply
demo_reply id =
    if id == sc_get_contract_id
    then (record { rc = 0; written = 0x0a ∷ 1 ∷ 90 ∷ [] })
    else if id == sc_hash
    then (record { rc = 0; written = 0x0a ∷ 34 ∷ replicate 34 5 })
    else if id == sc_recover_public_key
    then (record { rc = 0; written = 0x0a ∷ 64 ∷ replicate 64 7 })
    else (record { rc = 0; written = [] })

abbrev pub demo_host : Host
demo_host = record { World = ℕ; invoke_system_call = λ id size args w. (demo_reply id, suc w) }

abbrev pub demo_primitives : Primitives
demo_primitives = record {
  from_be_slice = be_value;
  to_be_bytes = to_be 32;
  keccak_empty = 0xc5 ∷ replicate 31 0x70;
  length_to_be_bytes = length-to_be 32;
  from_be_slice-to_be_bytes = λ v h. be_value-to_be 32 v h;
  length_keccak_empty = refl;
}

abbrev pub all_bytes : Bytes → Bool
all_bytes [] = true
all_bytes (b ∷ bs) = ltb b 256 && all_bytes bs

-- Every byte behind the first is an item, and 0 the empty one.
abbrev pub demo_items : Bytes → List Bytes
demo_items [] = []
demo_items (zero ∷ bs) = [] ∷ demo_items bs
demo_items (suc b ∷ bs) = (suc b ∷ []) ∷ demo_items bs

abbrev pub demo_rlp : Rlp
demo_rlp = record {
  decode_raw = λ raw. some (list (demo_items (drop 1 raw)), []);
  decode_bytes = λ item. if all_bytes item then some item else none;
  list_header = λ n. n ∷ [];
  encode_u64 = λ n. n ∷ [];
}

abbrev pub demo_revm : Revm ℕ
demo_revm = record { transact = λ chain_id block tx cb. pure (evm_error []) }

abbrev pub demo_signer : Signer
demo_signer = record {
  digest = λ b. replicate 32 1;
  sign = λ b. (0, replicate 64 2);
  length-digest = λ b. refl;
  recovery_id = λ b. omega arith;
  length-compact = λ b. refl;
}
