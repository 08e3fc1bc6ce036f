-- ===== src/Engine/Reads.antt =====
-- koinos-evm/engine/src/engine.rs: the handlers that read accounts, storage and code.
use koinos_evm_engine.Base.{
  Option, none, some, [], length, take, drop, replicate, ltb, if◌then◌else◌,
}
use koinos_evm_engine.Base.Words.{Bytes}
use koinos_evm_engine.Engine.Proto.{encode_varint_field, encode_bytes_field}
use koinos_evm_engine.Engine.Koinos.{Host, pure, ◌>>=◌}
use koinos_evm_engine.Engine.Sys.{Run}
use koinos_evm_engine.Engine.Database.{
  Primitives, AccountInfo, DbResult, basic, code_by_hash, storage,
}

module _ (p : Primitives) (host : Host) where
  unfoldable pub account_reply : DbResult (Option AccountInfo) → Bytes
  account_reply (DbResult.err e) = []
  account_reply (DbResult.ok none) = []
  account_reply (DbResult.ok (some info)) =
      encode_bytes_field
        (encode_bytes_field (encode_varint_field [] 1 info.nonce) 2 (p.to_be_bytes info.balance)) 3
        info.code_hash

  unfoldable pub handle_get_account : Bytes → Run host Bytes
  handle_get_account args =
      if ltb (length args) 20
      then pure []
      else do found ← basic p host (take 20 args); pure (account_reply found)

  unfoldable pub handle_get_storage_at : Bytes → Run host Bytes
  handle_get_storage_at args = if ltb (length args) 52 then pure [] else do
    found ← storage p host (take 20 args) (p.from_be_slice (take 32 (drop 20 args)))
    pure (elim found [ DbResult.ok value ↦ p.to_be_bytes value | DbResult.err e ↦ replicate 32 0 ])

  unfoldable pub code_reply : DbResult (Option AccountInfo) → Run host Bytes
  code_reply (DbResult.err e) = pure []
  code_reply (DbResult.ok none) = pure []
  code_reply (DbResult.ok (some info)) = do
    code ← code_by_hash p host info.code_hash
    pure (elim code [ DbResult.ok c ↦ c | DbResult.err e ↦ [] ])

  unfoldable pub handle_get_code : Bytes → Run host Bytes
  handle_get_code args =
      if ltb (length args) 20
      then pure []
      else do found ← basic p host (take 20 args); code_reply found
