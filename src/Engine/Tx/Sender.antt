-- ===== src/Engine/Tx/Sender.antt =====
-- koinos-evm/engine/src/tx.rs: the signing hash, the sender, and `parse_raw_tx`.
use koinos_evm_engine.Base.{
  ℕ, ◌+◌, Bool, none, some, List, [], ◌∷◌, length, take, drop, ltb, leb, ◌==◌, if◌then◌else◌,
}
use koinos_evm_engine.Base.Words.{Bytes}
use koinos_evm_engine.Engine.Koinos.{hash_keccak_256, dsa_ecdsa_secp256k1, Host, pure, ◌>>=◌}
use koinos_evm_engine.Engine.Sys.{Run, hash, recover_public_key}
use koinos_evm_engine.Engine.Database.{Primitives}
use koinos_evm_engine.Engine.Tx.{
  empty, unsupported_type, hash_failure, TxResult, ok, err, ◌>>=!◌, pubkey_xy, Rlp, ParsedTx,
}
use koinos_evm_engine.Engine.Tx.Fields.{
  legacy_fields, eip1559_fields, legacy_preimage, eip1559_preimage, compact_signature,
}

module _ (rlp : Rlp) (p : Primitives) (host : Host) where
  unfoldable pub keccak256 : Bytes → Run host (TxResult Bytes)
  keccak256 message = do
    multihash ← hash host hash_keccak_256 message
    pure (if ltb (length multihash) 34 then err hash_failure else ok (take 32 (drop 2 multihash)))

  unfoldable pub address_of : TxResult Bytes → Run host (TxResult Bytes)
  address_of (err e) = pure (err e)
  address_of (ok xy) = do
    multihash ← hash host hash_keccak_256 xy
    pure (
        if ltb (length multihash) 34
        then err hash_failure
        else ok (take 20 (drop (2 + 12) multihash)))

  unfoldable pub recover_sender : Bytes → ℕ → ℕ → ℕ → Run host (TxResult Bytes)
  recover_sender msg_hash r s y_parity = do
    pubkey ←
        recover_public_key host dsa_ecdsa_secp256k1 (compact_signature rlp p r s y_parity)
          (0x1b ∷ 0x20 ∷ msg_hash) Bool.false
    address_of (pubkey_xy pubkey)

  unfoldable pub sign_hash : ParsedTx → TxResult Bytes → Run host (TxResult ParsedTx)
  sign_hash tx (err e) = pure (err e)
  sign_hash tx (ok signing_hash) = do
    sender ← recover_sender signing_hash tx.r tx.s tx.y_parity
    pure (sender >>=! λ address. ok (record tx { sender = address }))

  -- The signing hash, then the sender.
  unfoldable pub sign_off : Bytes → ParsedTx → Run host (TxResult ParsedTx)
  sign_off preimage tx = do hashed ← keccak256 preimage; sign_hash tx hashed

  unfoldable pub sign_legacy : TxResult (List Bytes × ParsedTx) → Run host (TxResult ParsedTx)
  sign_legacy (err e) = pure (err e)
  sign_legacy (ok (items, tx)) =
      sign_off (legacy_preimage rlp p items (elim tx.chain_id [ none ↦ 0 | some cid ↦ cid ])) tx

  unfoldable pub sign_eip1559 : TxResult (List Bytes × ParsedTx) → Run host (TxResult ParsedTx)
  sign_eip1559 (err e) = pure (err e)
  sign_eip1559 (ok (items, tx)) = sign_off (eip1559_preimage rlp p items) tx

  unfoldable pub parse_legacy : Bytes → Run host (TxResult ParsedTx)
  parse_legacy raw = sign_legacy (legacy_fields rlp p raw)

  unfoldable pub parse_eip1559 : Bytes → Run host (TxResult ParsedTx)
  parse_eip1559 payload = sign_eip1559 (eip1559_fields rlp p payload)

  unfoldable pub parse_raw_tx : Bytes → Run host (TxResult ParsedTx)
  parse_raw_tx [] = pure (err empty)
  parse_raw_tx (first ∷ rest) =
      if leb 0xc0 first
      then parse_legacy (first ∷ rest)
      else if first == 0x02
      then parse_eip1559 rest
      else pure (err (unsupported_type first))
