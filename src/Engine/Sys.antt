-- ===== src/Engine/Sys.antt =====
-- `mod sys` of koinos-evm/engine/src/koinos.rs, and koinos-evm/engine/src/state.rs: the typed
-- wrappers round `invoke_system_call`, over any host. Only texts that the source logs or exits with
-- are passed to `exit_error`; they are ASCII, so its test for UTF-8 passes.
pub mod Aborts
use koinos_evm_engine.Base.{
  ℕ, Bool, false, Option, none, List, [], ◌∷◌, ◌++◌, is_empty, ◌==◌, if◌then◌else◌,
}
use koinos_evm_engine.Base.Words.{Bytes}
use koinos_evm_engine.Base.Text.{codes, decimal, decimal_i32}
use koinos_evm_engine.Engine.Proto.{
  encode_varint_field, encode_bool_field, encode_bytes_field, fields,
}
use koinos_evm_engine.Engine.Koinos.{
  sc_get_head_info, sc_put_object, sc_remove_object, sc_get_object, sc_log, sc_event, sc_hash,
  sc_recover_public_key, sc_call, sc_exit, sc_get_arguments, sc_get_contract_id, ret_buf_size, Host,
  Reply, returned, exited, Sys, pure, ◌>>=◌, ◌>>◌, ObjectSpace, first_bytes, put_object_arguments,
  object_arguments, first_object, exit_error_arguments, exit_success_arguments, Arguments,
  argument_data, HeadInfo, head_info, sc_get_caller, Caller, caller_data,
}

abbrev pub space_accounts : ℕ
space_accounts = 0

abbrev pub space_code : ℕ
space_code = 1

abbrev pub space_storage : ℕ
space_storage = 2

abbrev pub space_config : ℕ
space_config = 3

abbrev pub space_test : ℕ
space_test = 100

-- eth_addr[20] || slot[32]
unfoldable pub storage_key : Bytes → Bytes → Bytes
storage_key address slot = address ++ slot

-- The loop of `event` over the impacted addresses.
unfoldable pub impacted_fields : Bytes → List Bytes → Bytes
impacted_fields args [] = args
impacted_fields args (addr ∷ rest) = impacted_fields (encode_bytes_field args 3 addr) rest

unfoldable pub event_arguments : Bytes → Bytes → List Bytes → Bytes
event_arguments name payload impacted =
    impacted_fields (encode_bytes_field (encode_bytes_field [] 1 name) 2 payload) impacted

module _ (host : Host) where
  abbrev pub Run {ℓ} : Type ℓ → Type ℓ
  Run A = Sys host.World A

  unfoldable pub raw_log : Bytes → Run (Unit {0})
  raw_log message w =
      let (reply, w') = host.invoke_system_call sc_log 64 (encode_bytes_field [] 1 message) w in
      (returned tt, w')

  -- `SC_EXIT` does not come back.
  unfoldable pub exit_with {ℓ} : {A : Type ℓ} → ℕ → Bytes → Run A
  exit_with size args w =
      let (reply, w') = host.invoke_system_call sc_exit size args w in (exited args, w')

  -- What is done with the answer to a system call.
  unfoldable pub call_answer : ℕ → Reply → Run Bytes
  call_answer id reply = if reply.rc == 0 then pure reply.written else do
    raw_log (codes "syscall " ++ (decimal id ++ (codes " failed: rc=" ++ decimal_i32 reply.rc)))
    pure []

  -- `call_system` and `call_system_small` differ in the size of the buffer.
  unfoldable pub call_system_sized : ℕ → ℕ → Bytes → Run Bytes
  call_system_sized size id args w =
      let (reply, w') = host.invoke_system_call id size args w in call_answer id reply w'

  unfoldable pub call_system : ℕ → Bytes → Run Bytes
  call_system = call_system_sized ret_buf_size

  unfoldable pub call_system_small : ℕ → Bytes → Run Bytes
  call_system_small = call_system_sized 4096

  abbrev must_message : ℕ → ℕ → Bytes → Bytes
  must_message id rc what = codes "state syscall " ++ (decimal id ++ (what ++ decimal_i32 rc))

  -- A state call that fails ends the run, so that the transaction is reverted.
  unfoldable pub must_answer : ℕ → Reply → Run Bytes
  must_answer id reply = if reply.rc == 0 then pure reply.written else do
    raw_log (must_message id reply.rc (codes " failed: rc=") ++ codes " (aborting)")
    exit_with 64 (exit_error_arguments (must_message id reply.rc (codes " rc=")))

  unfoldable pub call_system_must : ℕ → Bytes → Run Bytes
  call_system_must id args w =
      let (reply, w') = host.invoke_system_call id 4096 args w in must_answer id reply w'

  unfoldable pub get_arguments : Run Arguments
  get_arguments = do
    result ← call_system sc_get_arguments []
    pure (argument_data (record { entry_point = 0; arguments = [] }) (fields result))

  unfoldable pub exit_success {ℓ} : {A : Type ℓ} → Bytes → Run A
  exit_success result = exit_with 4096 (exit_success_arguments result)

  unfoldable pub exit_error {ℓ} : {A : Type ℓ} → Bytes → Run A
  exit_error message = exit_with 4096 (exit_error_arguments message)

  unfoldable pub log : Bytes → Run (Unit {0})
  log message = do call_system_small sc_log (encode_bytes_field [] 1 message); pure tt

  unfoldable pub event : Bytes → Bytes → List Bytes → Run (Unit {0})
  event name payload impacted = do
    call_system_must sc_event (event_arguments name payload impacted)
    pure tt

  unfoldable pub put_object : ObjectSpace → Bytes → Bytes → Run (Unit {0})
  put_object space key obj = do
    call_system_must sc_put_object (put_object_arguments space key obj)
    pure tt

  unfoldable pub get_object : ObjectSpace → Bytes → Run (Option Bytes)
  get_object space key = do
    result ← call_system sc_get_object (object_arguments space key)
    pure (if is_empty result then none else first_object (fields result))

  unfoldable pub remove_object : ObjectSpace → Bytes → Run (Unit {0})
  remove_object space key = do
    call_system_must sc_remove_object (object_arguments space key)
    pure tt

  unfoldable pub hash : ℕ → Bytes → Run Bytes
  hash algorithm obj = do
    result ←
        call_system_small sc_hash (encode_bytes_field (encode_varint_field [] 1 algorithm) 2 obj)
    pure (first_bytes 1 (fields result))

  unfoldable pub recover_public_key : ℕ → Bytes → Bytes → Bool → Run Bytes
  recover_public_key dsa signature digest compressed = do
    result ← call_system_small sc_recover_public_key (
        encode_bool_field
          (encode_bytes_field (encode_bytes_field (encode_varint_field [] 1 dsa) 2 signature) 3
            digest)
          4 compressed)
    pure (first_bytes 1 (fields result))

  unfoldable pub call_contract : Bytes → ℕ → Bytes → Run Bytes
  call_contract contract_id entry_point args_data = do
    result ← call_system sc_call (
        encode_bytes_field (encode_varint_field (encode_bytes_field [] 1 contract_id) 2 entry_point)
          3 args_data)
    pure (first_bytes 1 (fields result))

  unfoldable pub get_contract_id : Run Bytes
  get_contract_id = do
    result ← call_system_small sc_get_contract_id []
    pure (first_bytes 1 (fields result))

  unfoldable pub get_caller : Run Caller
  get_caller = do
    result ← call_system_small sc_get_caller []
    pure (caller_data (record { caller = []; privilege = 1 }) (fields result))

  unfoldable pub get_head_info : Run HeadInfo
  get_head_info = do
    result ← call_system_small sc_get_head_info []
    pure (head_info (record { height = 0; head_block_time = 0 }) (fields result))

  unfoldable pub contract_zone_missing : Run Bytes
  contract_zone_missing =
      log (codes "FATAL: get_contract_id returned empty")
      >> exit_error (codes "get_contract_id failed")

  unfoldable pub contract_zone : Run Bytes
  contract_zone = do
    zone ← get_contract_id
    if is_empty zone then contract_zone_missing else pure zone

  unfoldable pub engine_space : ℕ → Run ObjectSpace
  engine_space id = do zone ← contract_zone; pure (record { system = false; zone = zone; id = id })

  abbrev pub accounts_space : Run ObjectSpace
  accounts_space = engine_space space_accounts

  abbrev pub code_space : Run ObjectSpace
  code_space = engine_space space_code

  abbrev pub storage_space : Run ObjectSpace
  storage_space = engine_space space_storage

  abbrev pub config_space : Run ObjectSpace
  config_space = engine_space space_config

  abbrev pub test_space : Run ObjectSpace
  test_space = engine_space space_test
