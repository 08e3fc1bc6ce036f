-- ===== src/Engine/Precompiles.antt =====
-- koinos-evm/engine/src/precompiles.rs: the precompiles 0x01 to 0x04, by Koinos system calls. An
-- input is shorter than 2^32 bytes, so the gas of an input fits its word.
pub mod Gas
use koinos_evm_engine.Base.{
  ℕ, ◌+◌, ◌-◌, ◌*◌, ◌/◌, Bool, ◌&&◌, ◌||◌, not, [], ◌∷◌, ◌++◌, length, take, drop, get_or,
  replicate, ltb, leb, ◌==◌, if◌then◌else◌,
}
use koinos_evm_engine.Base.Words.{Bytes}
use koinos_evm_engine.Engine.Koinos.{
  hash_sha2_256, hash_keccak_256, hash_ripemd_160, dsa_ecdsa_secp256k1, Host, pure, ◌>>=◌,
}
use koinos_evm_engine.Engine.Sys.{Run, hash, recover_public_key}

pub data PrecompileResult : Type 0 where
  output : ℕ → Bytes → PrecompileResult
  out_of_gas other : PrecompileResult

-- `input[..128]`, padded with zeros.
unfoldable pub padded : Bytes → Bytes
padded input = take 128 (input ++ replicate 128 0)

abbrev pub slice : ℕ → ℕ → Bytes → Bytes
slice from to bytes = take (to - from) (drop from bytes)

unfoldable pub all_zero : Bytes → Bool
all_zero [] = Bool.true
all_zero (b ∷ bs) = b == 0 && all_zero bs

unfoldable pub div_ceil_32 : ℕ → ℕ
div_ceil_32 n = (n + 31) / 32

-- The key that is hashed: without its first byte, if that is 4.
unfoldable pub untagged : Bytes → Bytes
untagged pubkey = if get_or pubkey 0 0 == 0x04 then drop 1 pubkey else pubkey

-- Whether `v` is 27 or 28 as a 32-byte number.
unfoldable pub accepts_v : Bytes → Bool
accepts_v v_bytes =
    all_zero (take 31 v_bytes) && (get_or v_bytes 31 0 == 27 || get_or v_bytes 31 0 == 28)

unfoldable pub word_of_address : Bytes → Bytes
word_of_address multihash = replicate 12 0 ++ take 20 (drop (2 + 12) multihash)

module _ (host : Host) where
  unfoldable pub recovered_address : Bytes → Run host PrecompileResult
  recovered_address pubkey = if ltb (length pubkey) 64 then pure (output 3000 []) else do
    multihash ← hash host hash_keccak_256 (untagged pubkey)
    pure (
        if ltb (length multihash) 34
        then output 3000 []
        else output 3000 (word_of_address multihash))

  unfoldable pub ec_recover : Bytes → ℕ → Run host PrecompileResult
  ec_recover input gas_limit =
      let words = padded input in
      let v_bytes = slice 32 64 words in
      if ltb gas_limit 3000
      then pure out_of_gas
      else if not (accepts_v v_bytes)
      then pure (output 3000 [])
      else do
        pubkey ←
            recover_public_key host dsa_ecdsa_secp256k1
              ((31 + (get_or v_bytes 31 0 - 27)) ∷ (slice 64 96 words ++ slice 96 128 words))
              (0x1b ∷ 0x20 ∷ slice 0 32 words) Bool.false
        recovered_address pubkey

  unfoldable pub sha256_run : Bytes → ℕ → Run host PrecompileResult
  sha256_run input gas_limit =
      let gas = 60 + 12 * div_ceil_32 (length input) in
      if ltb gas_limit gas then pure out_of_gas else do
        multihash ← hash host hash_sha2_256 input
        pure (if leb 34 (length multihash) then output gas (slice 2 34 multihash) else other)

  unfoldable pub ripemd160_run : Bytes → ℕ → Run host PrecompileResult
  ripemd160_run input gas_limit =
      let gas = 600 + 120 * div_ceil_32 (length input) in
      if ltb gas_limit gas then pure out_of_gas else do
        multihash ← hash host hash_ripemd_160 input
        pure (
            if leb 22 (length multihash)
            then output gas (replicate 12 0 ++ drop (length multihash - 20) multihash)
            else other)

  unfoldable pub identity_run : Bytes → ℕ → Run host PrecompileResult
  identity_run input gas_limit =
      let gas = 15 + 3 * div_ceil_32 (length input) in
      if ltb gas_limit gas then pure out_of_gas else pure (output gas input)
