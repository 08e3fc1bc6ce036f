-- ===== src/Runs/Wire.antt =====
-- Runs of the wire format, of the account records and of the replies.
use koinos_evm_engine.Base.{
  ◌<◌, ◌≡◌, refl, true, none, some, List, [], ◌∷◌, ◌++◌, length, replicate, arith,
}
use koinos_evm_engine.Base.Words.{Bytes}
use koinos_evm_engine.Engine.Proto.{
  encode_bool_field, encode_varint_field, encode_bytes_field, Field, varint, length_delimited,
  encode_varint, encode_varint_loop, decode_varint, decode_varint_loop, fields, fields_from, next,
  new, next_slice, next_value, usize_limit, encode_tag,
}
use koinos_evm_engine.Engine.Proto.Varint.{decode_varint-encode_varint}
use koinos_evm_engine.Engine.Proto.Fields.{encode_field}
use koinos_evm_engine.Engine.Proto.Messages.{
  encode_message, fields-encode_message, fields_from_enough,
}
use koinos_evm_engine.Engine.Database.{AccountInfo, serialize_account, deserialize_account}
use koinos_evm_engine.Engine.Database.Accounts.{deserialize-serialize}
use koinos_evm_engine.Engine.Evm.{encode_evm_result}
use koinos_evm_engine.Engine.Evm.Messages.{fields-encode_evm_result}
use koinos_evm_engine.Runs.{demo_primitives}

decode_varint-encode_varint_example :
    decode_varint (encode_varint [] 300 ++ (1 ∷ [])) ≡ some (300, length (encode_varint [] 300))
decode_varint-encode_varint_example = decode_varint-encode_varint 300 (1 ∷ []) (omega arith)

reads_300 : decode_varint (0xac ∷ 0x02 ∷ []) ≡ some (300, 2)
unfolding decode_varint decode_varint_loop
reads_300 = refl

abbrev two_fields : List Field
two_fields = (1, varint 5) ∷ (2, length_delimited (9 ∷ [])) ∷ []

abbrev two_fields_bytes : Bytes
two_fields_bytes = 0x08 ∷ 5 ∷ 0x12 ∷ 1 ∷ 9 ∷ []

short_message : length (encode_message two_fields) < usize_limit
unfolding encode_message encode_field encode_varint_field encode_bytes_field encode_tag
    encode_varint encode_varint_loop
short_message = omega arith

fields-encode_message_example : fields (encode_message two_fields) ≡ two_fields
fields-encode_message_example =
    fields-encode_message two_fields
      (
        ((omega arith, omega arith), omega arith, omega arith),
        (((omega arith, omega arith), λ e. cc), tt),
      )
      short_message

first_round :
    next (new two_fields_bytes) ≡ some ((1, varint 5), record { input = two_fields_bytes; pos = 2 })
unfolding next next_value next_slice decode_varint decode_varint_loop
first_round = refl

fields_from_enough_example :
    fields_from 5 (record { input = two_fields_bytes; pos = 0 })
    ≡ fields_from 9 (record { input = two_fields_bytes; pos = 0 })
fields_from_enough_example =
    fields_from_enough 5 9 (record { input = two_fields_bytes; pos = 0 }) (omega arith)
      (omega arith) (omega arith)

abbrev some_account : AccountInfo
some_account = record {
  nonce = 7;
  balance = 1000;
  code_hash = replicate 32 3;
  code = some (0x60 ∷ []);
}

deserialize-serialize_example :
    deserialize_account demo_primitives (serialize_account demo_primitives some_account)
    ≡ some (record { nonce = 7; balance = 1000; code_hash = replicate 32 3; code = none })
deserialize-serialize_example =
    deserialize-serialize demo_primitives some_account
      (record { nonce_word = omega arith; balance_word = omega arith; hash_size = refl })

short_result : length (encode_evm_result true (1 ∷ 2 ∷ []) 21000 none) < usize_limit
unfolding encode_evm_result encode_bool_field encode_varint_field encode_bytes_field encode_tag
    encode_varint encode_varint_loop
short_result = omega arith

fields-encode_evm_result_example :
    fields (encode_evm_result true (1 ∷ 2 ∷ []) 21000 none)
    ≡ (1, varint 1) ∷ (2, length_delimited (1 ∷ 2 ∷ [])) ∷ (3, varint 21000) ∷ []
fields-encode_evm_result_example =
    fields-encode_evm_result true (1 ∷ 2 ∷ []) 21000 none (omega arith) short_result
