-- ===== src/Engine/Evm/Messages.antt =====
-- The result of a call, as the gateway reads it back from the engine's reply and from its event.
use koinos_evm_engine.Base.{
  ℕ, ◌<◌, ◌≡◌, sym, ap, ◌∙◌, Bool, Option, none, some, List, [], ◌++◌, length, All, append-nil,
  arith,
}
use koinos_evm_engine.Base.Words.{Bytes, IsU64}
use koinos_evm_engine.Engine.Proto.{
  usize_limit, encode_varint_field, encode_bool_field, encode_bytes_field, Field, fields,
}
use koinos_evm_engine.Engine.Proto.Fields.{IsFieldNumber, IsWritten}
use koinos_evm_engine.Engine.Proto.Messages.{encode_message}
use koinos_evm_engine.Engine.Proto.Compose.{
  opt_varint, opt_bool, opt_bytes, add_varint, add_bool, add_bytes, encode_message-nil, All-append,
  opt_varint-IsWritten, opt_bool-IsWritten, opt_bytes-IsWritten, fields_of,
}
use koinos_evm_engine.Engine.Evm.{encode_evm_result}

-- The bytes field of an optional address.
abbrev pub opt_address : ℕ → Option Bytes → List Field
opt_address f none = []
opt_address f (some a) = opt_bytes f a

pub opt_address-IsWritten :
    (f : ℕ) (address : Option Bytes) → IsFieldNumber f → All IsWritten (opt_address f address)
opt_address-IsWritten f none h = tt
opt_address-IsWritten f (some a) h = opt_bytes-IsWritten f a h

module _ (succeeded : Bool) (output : Bytes) (gas_used : ℕ) where
  abbrev base_fields : List Field
  base_fields = (opt_bool 1 succeeded ++ opt_bytes 2 output) ++ opt_varint 3 gas_used

  -- The fields of the reply, an absent address left out.
  abbrev pub result_fields : Option Bytes → List Field
  result_fields address = base_fields ++ opt_address 4 address

  base-message :
      encode_varint_field
        (encode_bytes_field (encode_bool_field [] 1 succeeded) 2 output)
        3
        gas_used
      ≡ encode_message base_fields
  base-message =
      ap
        (λ (b : Bytes).
          encode_varint_field (encode_bytes_field (encode_bool_field b 1 succeeded) 2 output) 3
            gas_used)
        encode_message-nil
      ∙ ap (λ (b : Bytes). encode_varint_field (encode_bytes_field b 2 output) 3 gas_used)
          (add_bool [] 1 succeeded)
      ∙ ap (λ (b : Bytes). encode_varint_field b 3 gas_used)
          (add_bytes (opt_bool 1 succeeded) 2 output)
      ∙ add_varint (opt_bool 1 succeeded ++ opt_bytes 2 output) 3 gas_used

  pub encode_evm_result-message :
      (address : Option Bytes)
      → encode_evm_result succeeded output gas_used address ≡ encode_message (result_fields address)
  unfolding encode_evm_result
  encode_evm_result-message none = base-message ∙ ap encode_message (sym (append-nil base_fields))
  encode_evm_result-message (some a) =
      ap (λ (b : Bytes). encode_bytes_field b 4 a) base-message ∙ add_bytes base_fields 4 a

  pub result_fields-IsWritten :
      (address : Option Bytes) → IsU64 gas_used → All IsWritten (result_fields address)
  result_fields-IsWritten address h =
      All-append IsWritten base_fields (opt_address 4 address)
        (All-append IsWritten (opt_bool 1 succeeded ++ opt_bytes 2 output) (opt_varint 3 gas_used)
          (All-append IsWritten (opt_bool 1 succeeded) (opt_bytes 2 output)
            (opt_bool-IsWritten 1 succeeded (omega arith))
            (opt_bytes-IsWritten 2 output (omega arith)))
          (opt_varint-IsWritten 3 gas_used (omega arith) h))
        (opt_address-IsWritten 4 address (omega arith))

  -- Reading the fields of an encoded result gives its success flag, output, gas and contract
  -- address in this order, each left out at its default, if the message fits the memory.
  pub fields-encode_evm_result :
      (address : Option Bytes)
      → IsU64 gas_used
      → length (encode_evm_result succeeded output gas_used address) < usize_limit
      → fields (encode_evm_result succeeded output gas_used address) ≡ result_fields address
  fields-encode_evm_result address h small =
      fields_of (result_fields address) (encode_evm_result-message address)
        (result_fields-IsWritten address h) small
