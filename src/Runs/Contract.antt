-- ===== src/Runs/Contract.antt =====
-- Runs of the contract: the gates, the parser, the entry points and the precompiles.
use koinos_evm_engine.Base.{
  ℕ, ◌^◌, ◌≤◌, ◌<◌, ◌≡◌, refl, ◌⊎◌, inl, inr, true, false, Bool-cases, Option, none, some, [], ◌∷◌,
  replicate, ltb, ltb→lt, arith,
}
use koinos_evm_engine.Base.Words.{Bytes, IsBytes, be_value, be_onto}
use koinos_evm_engine.Engine.Proto.{
  fields, fields_from, next, next_value, next_slice, decode_varint, decode_varint_loop, get_bytes,
}
use koinos_evm_engine.Engine.Koinos.{
  sc_put_object, sc_remove_object, sc_event, put_object_arguments, object_arguments, returned,
  last_bytes, first_bytes,
}
use koinos_evm_engine.Engine.Sys.{
  put_object, remove_object, event, event_arguments, call_system_small, call_system_sized,
  call_answer, hash, recover_public_key,
}
use koinos_evm_engine.Engine.Sys.Aborts.{Insists, state_calls-Insist}
use koinos_evm_engine.Engine.Tx.{
  ok, ParsedTx, eip155, validate_signature, classify_v, check_canonical, shift_in, pubkey_xy,
}
use koinos_evm_engine.Engine.Tx.Fields.{
  decode_word, decode_bytes, decode_u256, decode_to, outer_items, legacy_fields,
}
use koinos_evm_engine.Engine.Tx.Sender.{
  parse_raw_tx, parse_legacy, sign_legacy, sign_off, sign_hash, keccak256, recover_sender,
  address_of,
}
use koinos_evm_engine.Engine.Tx.Inverse.{GivesBytes, decode_word-value}
use koinos_evm_engine.Engine.Tx.Accepts.{IsSigned, parse_raw_tx-IsSigned}
use koinos_evm_engine.Engine.Precompiles.{
  output, out_of_gas, ec_recover, sha256_run, ripemd160_run, identity_run,
}
use koinos_evm_engine.Engine.Precompiles.Gas.{IsWordWithin, Gives, precompiles-Gives}
use koinos_evm_engine.Engine.Start.{dispatch, ep_execute}
use koinos_evm_engine.Engine.Submit.{handle_submit_raw_tx}
use koinos_evm_engine.Engine.Trace.{no_writes, is_quiet, Reaches, Only}
use koinos_evm_engine.Engine.Trace.Calls.{pure-Only}
use koinos_evm_engine.Engine.Trace.Views.{IsContained, dispatch-is_quiet}
use koinos_evm_engine.Engine.Trace.Gates.{IsAccepted, handle_submit_raw_tx-gates}
use koinos_evm_engine.Runs.{demo_host, demo_primitives, all_bytes, demo_rlp, demo_revm}

all_bytes-IsBytes : (bs : Bytes) → all_bytes bs ≡ true → IsBytes bs
all_bytes-IsBytes [] h = tt
all_bytes-IsBytes (b ∷ bs) h = elim (Bool-cases (ltb b 256)) [
  | inl e ↦ (ltb→lt b 256 e, all_bytes-IsBytes bs (rw e at h))
  | inr e ↦ absurd (ground (arith, e))
]

demo-GivesBytes : GivesBytes demo_rlp demo_primitives
demo-GivesBytes item bytes h = elim (Bool-cases (all_bytes item)) [
  | inl e ↦ ground (arith, all_bytes-IsBytes item e)
  | inr e ↦ absurd (ground (arith, e))
]

demo_revm-IsContained : IsContained demo_host demo_revm
demo_revm-IsContained = record {
  contained = λ allows cb ok chain_id block tx. pure-Only demo_host allows _;
}

-- Field 1 holds an empty list behind its header: no transaction of this chain.
handle_submit_raw_tx-gates_example :
    IsAccepted demo_rlp demo_primitives demo_host demo_revm
      (last_bytes 1 [] (fields (0x0a ∷ 1 ∷ 0xc0 ∷ [])))
      0
    ⊎ Reaches demo_host no_writes 0
        (handle_submit_raw_tx demo_rlp demo_primitives demo_host demo_revm
          (0x0a ∷ 1 ∷ 0xc0 ∷ [])
          0).1
handle_submit_raw_tx-gates_example =
    handle_submit_raw_tx-gates demo_rlp demo_primitives demo_host demo_revm (0x0a ∷ 1 ∷ 0xc0 ∷ []) 0

abbrev signed_tx : ParsedTx
signed_tx = record {
  kind = eip155;
  chain_id = some 1;
  nonce = 3;
  gas_limit = 9;
  max_fee_per_gas = 4;
  max_priority_fee_per_gas = 4;
  to = none;
  value = 0;
  input = 8 ∷ [];
  r = 6;
  s = 7;
  y_parity = 0;
  sender = replicate 20 5;
}

abbrev signed_bytes : Bytes
signed_bytes = 0xc0 ∷ 3 ∷ 4 ∷ 9 ∷ 0 ∷ 0 ∷ 8 ∷ 37 ∷ 6 ∷ 7 ∷ []

-- The parser makes three system calls: the signing hash, the key, and the hash of the key.
signed_parses :
    parse_raw_tx demo_rlp demo_primitives demo_host signed_bytes 0 ≡ (returned (ok signed_tx), 3)
unfolding parse_raw_tx parse_legacy legacy_fields outer_items decode_word decode_bytes decode_u256
    decode_to check_canonical shift_in classify_v validate_signature sign_legacy sign_off sign_hash
    keccak256 recover_sender address_of pubkey_xy hash recover_public_key call_system_small
    call_system_sized call_answer first_bytes fields fields_from next next_value next_slice
    decode_varint decode_varint_loop get_bytes be_value be_onto
signed_parses = refl

parse_raw_tx-IsSigned_example : IsSigned signed_tx
parse_raw_tx-IsSigned_example =
    parse_raw_tx-IsSigned demo_rlp demo_primitives demo-GivesBytes demo_host signed_bytes signed_tx
      0 3 signed_parses

dispatch-is_quiet_example :
    Only demo_host is_quiet
      (dispatch demo_rlp demo_primitives demo_host demo_revm false ep_execute (1 ∷ 2 ∷ []))
dispatch-is_quiet_example =
    dispatch-is_quiet demo_host demo_rlp demo_primitives demo_revm demo_revm-IsContained ep_execute
      (1 ∷ 2 ∷ []) (omega arith) (omega arith)

reads_nonce : decode_word demo_rlp demo_primitives 8 (1 ∷ 2 ∷ []) ≡ ok 258
unfolding decode_word decode_bytes check_canonical shift_in
reads_nonce = refl

abbrev one_two : Option Bytes
one_two = some (1 ∷ 2 ∷ [])

decode_word-value_example :
    ((bytes : Bytes) × (one_two ≡ some bytes) × (258 ≡ be_value bytes)) × (258 < 256 ^ 8)
decode_word-value_example =
    decode_word-value demo_rlp demo_primitives demo-GivesBytes 8 (1 ∷ 2 ∷ []) 258 reads_nonce

precompiles-Gives_example :
    Gives demo_host (IsWordWithin 5000) (ec_recover demo_host (1 ∷ 2 ∷ []) 5000)
    × Gives demo_host (IsWordWithin 5000) (sha256_run demo_host (1 ∷ 2 ∷ []) 5000)
    × Gives demo_host (IsWordWithin 5000) (ripemd160_run demo_host (1 ∷ 2 ∷ []) 5000)
    × Gives demo_host
        (λ r. (r ≡ out_of_gas) ⊎ ((gas : ℕ) × (r ≡ output gas (1 ∷ 2 ∷ [])) × (gas ≤ 5000)))
        (identity_run demo_host (1 ∷ 2 ∷ []) 5000)
precompiles-Gives_example = precompiles-Gives demo_host (1 ∷ 2 ∷ []) 5000

state_calls-Insist_example :
    Insists demo_host sc_put_object
      (put_object_arguments (record { system = false; zone = 90 ∷ []; id = 0 }) (1 ∷ []) (2 ∷ []))
      (put_object demo_host (record { system = false; zone = 90 ∷ []; id = 0 }) (1 ∷ []) (2 ∷ []))
    × Insists demo_host sc_remove_object
        (object_arguments (record { system = false; zone = 90 ∷ []; id = 0 }) (1 ∷ []))
        (remove_object demo_host (record { system = false; zone = 90 ∷ []; id = 0 }) (1 ∷ []))
    × Insists demo_host sc_event
        (event_arguments (3 ∷ []) (2 ∷ []) [])
        (event demo_host (3 ∷ []) (2 ∷ []) [])
state_calls-Insist_example =
    state_calls-Insist demo_host (record { system = false; zone = 90 ∷ []; id = 0 }) (1 ∷ [])
      (2 ∷ []) (3 ∷ []) []
