-- ===== src/Runs/Codec.antt =====
-- Runs of the gateway's codecs: the messages of the engine, the relayed transaction, RLP.
use koinos_evm_engine.Base.{
  ◌^◌, ◌<◌, ◌≡◌, refl, true, false, Option, none, some, List, [], ◌∷◌, length, replicate, arith,
}
use koinos_evm_engine.Base.Words.{Bytes, to_be}
use koinos_evm_engine.Engine.Proto
use koinos_evm_engine.Engine.Proto.{
  usize_limit, encode_varint, Field, FieldIter, varint, fields, decode_varint, decode_varint_loop,
  next_value, next_slice, unread, advance, encode_bool_field, encode_varint_field,
  encode_bytes_field, encode_tag, encode_varint_loop,
}
use koinos_evm_engine.Engine.Database.{AccountInfo, serialize_account}
use koinos_evm_engine.Engine.Evm.{encode_evm_result, parse_call_args}
use koinos_evm_engine.Gateway.EngineProto.{
  ok, next, CallViewArgs, write_varint, write_varint_loop, write_bytes_field, field_tag,
  write_given, build_call_view_args, build_submit_raw_tx_args, decode_evm_result, decode_account,
  items,
}
use koinos_evm_engine.Gateway.EngineProto.Read.{as_item, as_iter, next_agrees}
use koinos_evm_engine.Gateway.EngineProto.Agree.{
  decode_evm_result-encode_evm_result, decode_account-serialize_account,
}
use koinos_evm_engine.Gateway.EngineProto.CallMessage.{IsCall}
use koinos_evm_engine.Gateway.EngineProto.CallArgs.{as_call, parse_call_args-build_call_view_args}
use koinos_evm_engine.Gateway.KoinosTx.{
  RelayedTx, build_relayed_tx, encode_transaction, encode_transaction_header, write_uint64_field,
  encode_operation_call_contract, encode_call_contract_operation, sha256_multihash,
  sign_digest_compact, encode_nonce,
}
use koinos_evm_engine.Gateway.KoinosTx.Message.{bytes_item, relayed_header, items-build_relayed_tx}
use koinos_evm_engine.Gateway.EthTx.Rlp.{from_list, wrap_rlp_list, rlp_header, total}
use koinos_evm_engine.Gateway.EthTx.Rlp.Items.{IsItem, from_list-wrap_rlp_list}
use koinos_evm_engine.Runs.{demo_primitives, demo_signer}

abbrev one_field : FieldIter
one_field = record { input = 0x08 ∷ 5 ∷ []; pos = 0 }

read_one : Proto.next one_field ≡ some ((1, varint 5), record one_field { pos = 2 })
unfolding Proto.next next_value decode_varint decode_varint_loop
read_one = refl

next_agrees_example :
    next (as_iter one_field)
    ≡ some (ok (as_item (1, varint 5)), as_iter (record one_field { pos = 2 }))
next_agrees_example = next_agrees one_field (record one_field { pos = 2 }) (1, varint 5) read_one

abbrev created : Option Bytes
created = some (replicate 20 3)

created_size : (a : Bytes) → created ≡ some a → length a ≡ 20
created_size a e = ground (arith, e)

result_size : length (encode_evm_result true (7 ∷ []) 21000 created) < usize_limit
unfolding encode_evm_result encode_bool_field encode_varint_field encode_bytes_field encode_tag
    encode_varint encode_varint_loop
result_size = omega arith

decode_evm_result-encode_evm_result_example :
    decode_evm_result (encode_evm_result true (7 ∷ []) 21000 created)
    ≡ ok
        (record { succeeded = true; output = 7 ∷ []; gas_used = 21000; contract_address = created })
decode_evm_result-encode_evm_result_example =
    decode_evm_result-encode_evm_result true (7 ∷ []) 21000 created (omega arith) created_size
      result_size

abbrev rich : AccountInfo
rich = record { nonce = 3; balance = 1_000_000; code_hash = replicate 32 0xc5; code = none }

decode_account-serialize_account_example :
    decode_account (serialize_account demo_primitives rich)
    ≡ ok (some (record { nonce = 3; balance = to_be 32 1_000_000; code_hash = replicate 32 0xc5 }))
decode_account-serialize_account_example =
    decode_account-serialize_account demo_primitives rich
      (record { nonce_word = omega arith; balance_word = omega arith; hash_size = refl })

abbrev plain_call : CallViewArgs
plain_call = record {
  caller = none;
  to = some (replicate 20 2);
  value = none;
  input = 1 ∷ 2 ∷ [];
  gas_limit = 0;
}

plain_call-IsCall : IsCall plain_call
plain_call-IsCall = record {
  caller_size = λ b e. cc;
  to_size = λ b e. ground (arith, e);
  value_size = λ b e. cc;
  gas_word = omega arith;
}

plain_call_size : length (build_call_view_args plain_call) < usize_limit
unfolding build_call_view_args write_given write_bytes_field field_tag write_varint
    write_varint_loop
plain_call_size = omega arith

parse_call_args-build_call_view_args_example :
    parse_call_args demo_primitives (build_call_view_args plain_call)
    ≡ as_call demo_primitives plain_call
parse_call_args-build_call_view_args_example =
    parse_call_args-build_call_view_args demo_primitives plain_call plain_call-IsCall
      plain_call_size

raw_size : length (build_submit_raw_tx_args (0xc0 ∷ [])) < usize_limit
unfolding build_submit_raw_tx_args write_bytes_field field_tag write_varint write_varint_loop
raw_size = omega arith

abbrev three_bytes : Bytes
three_bytes = 1 ∷ 0x81 ∷ 0xff ∷ []

abbrev two_items : List Bytes
two_items = (1 ∷ []) ∷ (0x82 ∷ 4 ∷ 5 ∷ []) ∷ []

one-IsItem : IsItem (1 ∷ [])
unfolding rlp_header
one-IsItem = record {
  is_list = false;
  size = 1;
  start = 0;
  header = refl;
  all = refl;
  nonempty = omega arith;
}

long-IsItem : IsItem (0x82 ∷ 4 ∷ 5 ∷ [])
unfolding rlp_header
long-IsItem = record {
  is_list = false;
  size = 2;
  start = 1;
  header = refl;
  all = refl;
  nonempty = omega arith;
}

two_items_size : total two_items < 2 ^ 63
unfolding total
two_items_size = omega arith

from_list-wrap_rlp_list_example : from_list (wrap_rlp_list two_items) ≡ some two_items
from_list-wrap_rlp_list_example =
    from_list-wrap_rlp_list two_items (one-IsItem, (long-IsItem, tt)) two_items_size

abbrev demo_relayed : RelayedTx
demo_relayed = build_relayed_tx demo_signer (1 ∷ 2 ∷ []) 200 (3 ∷ []) 41 (4 ∷ []) 7 (0xc0 ∷ [])

relayed_size : length demo_relayed.transaction_bytes < usize_limit
unfolding build_relayed_tx encode_transaction encode_transaction_header encode_nonce
    write_uint64_field encode_operation_call_contract encode_call_contract_operation
    sha256_multihash sign_digest_compact write_given write_bytes_field field_tag write_varint
    write_varint_loop
relayed_size = omega arith

abbrev demo_header : Bytes
demo_header = relayed_header demo_signer (1 ∷ 2 ∷ []) 200 (3 ∷ []) 41 (4 ∷ []) 7 (0xc0 ∷ [])

items-build_relayed_tx_example :
    (items demo_relayed.transaction_bytes
      ≡ ok (
          bytes_item 1 demo_relayed.tx_id_multihash
          ∷ bytes_item 2 demo_header
          ∷ bytes_item 3 demo_relayed.operation_bytes
          ∷ bytes_item 4 demo_relayed.signature
          ∷ []))
    × (demo_relayed.tx_id_multihash ≡ sha256_multihash demo_signer demo_header)
    × (demo_relayed.signature ≡ sign_digest_compact demo_signer (demo_signer.digest demo_header))
    × (length demo_relayed.tx_id_multihash ≡ 34)
items-build_relayed_tx_example =
    items-build_relayed_tx demo_signer (1 ∷ 2 ∷ []) 200 (3 ∷ []) 41 (4 ∷ []) 7 (0xc0 ∷ []) (λ e. cc)
      (λ e. cc) relayed_size
