-- ===== src/Engine/Start.antt =====
-- koinos-evm/engine/src/lib.rs: the dispatch on the entry point, and the test entry points. The two
-- builds differ in the feature `dev_unsafe_caller`; both have the feature `evm`.
use koinos_evm_engine.Base.{
  ℕ, ◌+◌, ◌*◌, Bool, Option, none, some, [], length, take, drop, get_or, ltb, leb, ◌==◌,
  if◌then◌else◌,
}
use koinos_evm_engine.Base.Words.{Bytes}
use koinos_evm_engine.Base.Text.{codes}
use koinos_evm_engine.Engine.Proto.{usize_limit}
use koinos_evm_engine.Engine.Koinos.{Host, pure, ◌>>=◌, ◌>>◌}
use koinos_evm_engine.Engine.Sys.{
  Run, get_arguments, exit_success, exit_error, log, put_object, get_object, test_space,
}
use koinos_evm_engine.Engine.Database.{Primitives}
use koinos_evm_engine.Engine.Tx.{Rlp}
use koinos_evm_engine.Engine.Evm.{Revm}
use koinos_evm_engine.Engine.Handlers.{handle_execute, handle_call_view, handle_deploy_code}
use koinos_evm_engine.Engine.Reads.{handle_get_account, handle_get_storage_at, handle_get_code}
use koinos_evm_engine.Engine.Submit.{handle_submit_raw_tx}

abbrev pub ep_execute : ℕ
ep_execute = 1

abbrev pub ep_call_view : ℕ
ep_call_view = 2

abbrev pub ep_deploy_code : ℕ
ep_deploy_code = 3

abbrev pub ep_get_account : ℕ
ep_get_account = 4

abbrev pub ep_get_storage_at : ℕ
ep_get_storage_at = 5

abbrev pub ep_get_code : ℕ
ep_get_code = 6

abbrev pub ep_submit_raw_tx : ℕ
ep_submit_raw_tx = 7

abbrev pub ep_store_value : ℕ
ep_store_value = 0x10000001

abbrev pub ep_read_value : ℕ
ep_read_value = 0x10000002

abbrev pub ep_echo : ℕ
ep_echo = 0x10000003

-- `u32::from_le_bytes` of the first four bytes.
unfoldable pub key_length : Bytes → ℕ
key_length args =
    get_or args 0 0 + get_or args 1 0 * 256 + get_or args 2 0 * 65536 + get_or args 3 0 * 16777216

module _ (host : Host) where
  unfoldable pub store_value : Bytes → ℕ → Run host Bytes
  store_value args end = do
    space ← test_space host
    put_object host space (drop 4 (take end args)) (drop end args)
    log host (codes "store_value: success")
    pure []

  unfoldable pub invalid_key_length : Run host Bytes
  invalid_key_length =
      log host (codes "store_value: invalid key length")
      >> exit_error host (codes "invalid key length")

  unfoldable pub handle_store_value : Bytes → Run host Bytes
  handle_store_value args =
      let end = 4 + key_length args in
      if ltb (length args) 5
      then exit_error host (codes "store_value: args too short")
      else if leb usize_limit end
      then invalid_key_length
      else if ltb (length args) end
      then invalid_key_length
      else store_value args end

  unfoldable pub read_reply : Option Bytes → Run host Bytes
  read_reply (some value) = log host (codes "read_value: found") >> pure value
  read_reply none = log host (codes "read_value: not found") >> pure []

  unfoldable pub handle_read_value : Bytes → Run host Bytes
  handle_read_value args = do
    space ← test_space host
    found ← get_object host space args
    read_reply found

  unfoldable pub handle_echo : Bytes → Run host Bytes
  handle_echo args = log host (codes "echo: returning args") >> pure args

  -- What the source does where it exits and the code behind is unreachable.
  unfoldable pub refuse : Bytes → Bytes → Run host Bytes
  refuse logged message = log host logged >> exit_error host message

module _ (rlp : Rlp) (p : Primitives) (host : Host) (revm : Revm host.World) where
  unfoldable pub dispatch : Bool → ℕ → Bytes → Run host Bytes
  dispatch dev_unsafe_caller entry_point args =
      if entry_point == ep_store_value
      then handle_store_value host args
      else if entry_point == ep_read_value
      then handle_read_value host args
      else if entry_point == ep_echo
      then handle_echo host args
      else if entry_point == ep_submit_raw_tx
      then handle_submit_raw_tx rlp p host revm args
      else if entry_point == ep_call_view
      then handle_call_view p host revm args
      else if entry_point == ep_get_account
      then handle_get_account p host args
      else if entry_point == ep_get_storage_at
      then handle_get_storage_at p host args
      else if entry_point == ep_get_code
      then handle_get_code p host args
      else if entry_point == ep_execute
      then if dev_unsafe_caller
        then handle_execute p host revm args
        else refuse host (codes "execute/deploy_code disabled: use submit_raw_tx")
            (codes "use submit_raw_tx")
      else if entry_point == ep_deploy_code
      then if dev_unsafe_caller
        then handle_deploy_code p host revm args
        else refuse host (codes "execute/deploy_code disabled: use submit_raw_tx")
            (codes "use submit_raw_tx")
      else refuse host (codes "unknown entry point") (codes "unknown entry point")

  -- `_start`
  unfoldable pub start : Bool → Run host (Unit {0})
  start dev_unsafe_caller = do
    args ← get_arguments host
    result ← dispatch dev_unsafe_caller args.entry_point args.arguments
    exit_success host result
