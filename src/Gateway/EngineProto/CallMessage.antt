-- ===== src/Gateway/EngineProto/CallMessage.antt =====
-- The fields of the arguments that the gateway writes for the engine's entry points.
use koinos_evm_engine.Base.{
  ℕ, zero, suc, ◌*◌, ◌^◌, ◌<◌, ◌≡◌, ◌≢◌, refl, sym, ap, ◌∙◌, true, Option, none, some, List, [],
  ◌∷◌, ◌++◌, length, append-nil, is_empty, if◌then◌else◌, ltb, All, arith,
}
use koinos_evm_engine.Base.Words.{Bytes, IsU64}
use koinos_evm_engine.Engine.Proto.{
  usize_limit, encode_bytes_field, encode_varint_field, encode_varint, encode_tag, wire_varint,
  Field, fields, get_bytes,
}
use koinos_evm_engine.Engine.Proto.Fields.{encode_tag_eq, IsWritten}
use koinos_evm_engine.Engine.Proto.Messages.{encode_message}
use koinos_evm_engine.Engine.Proto.Compose.{
  opt_varint, opt_bytes, add_bytes, add_varint, All-append, opt_bytes-IsWritten,
  opt_varint-IsWritten, encode_message-nil, fields_of,
}
use koinos_evm_engine.Engine.Koinos.{last_bytes}
use koinos_evm_engine.Engine.Evm.Messages.{opt_address, opt_address-IsWritten}
use koinos_evm_engine.Gateway.EngineProto.{
  CallViewArgs, write_bytes_field, write_varint, write_given, build_call_view_args,
  build_submit_raw_tx_args,
}
use koinos_evm_engine.Gateway.EngineProto.Write.{write_varint_eq, write_bytes_field_eq}

-- An optional field of `n` bytes.
abbrev pub HasSize : ℕ → Option Bytes → Type 0
HasSize n o = (b : Bytes) → o ≡ some b → length b ≡ n

pub record IsCall (args : CallViewArgs) : Type 0 where
  pub caller_size : HasSize 20 args.caller
  pub to_size : HasSize 20 args.to
  pub value_size : HasSize 32 args.value
  pub gas_word : IsU64 args.gas_limit

not_empty : (n : ℕ) (b : Bytes) → 0 < n → length b ≡ n → b ≢ []
not_empty n b pos h e = omega (arith, h, pos, ap length e)

add_given :
    (fs : List Field) (f n : ℕ) (o : Option Bytes)
    → f < 2 ^ 29
    → 0 < n
    → HasSize n o
    → write_given (encode_message fs) f o ≡ encode_message (fs ++ opt_address f o)
unfolding write_given
add_given fs f n none hf hn h = ap encode_message (sym (append-nil fs))
add_given fs f n (some b) hf hn h =
    write_bytes_field_eq (encode_message fs) f b hf (not_empty n b hn (h b refl)) ∙ add_bytes fs f b

add_input :
    (fs : List Field) (b : Bytes)
    → (if is_empty b then encode_message fs else write_bytes_field (encode_message fs) 4 b)
      ≡ encode_message (fs ++ opt_bytes 4 b)
add_input fs [] = ap encode_message (sym (append-nil fs))
add_input fs (b ∷ bs) =
    write_bytes_field_eq (encode_message fs) 4 (b ∷ bs) (omega arith) (λ e. cc)
    ∙ add_bytes fs 4 (b ∷ bs)

gas_tag : (out : Bytes) → write_varint out (5 * 2 ^ 3) ≡ encode_tag out 5 wire_varint
gas_tag out =
    write_varint_eq out 40 ∙ sym (encode_tag_eq out 5 wire_varint (omega arith) (omega arith))

gas_field :
    (out : Bytes) (n : ℕ)
    → encode_varint (encode_tag out 5 wire_varint) (suc n) ≡ encode_varint_field out 5 (suc n)
unfolding encode_varint_field
gas_field out n = ground arith

positive : (n : ℕ) → ltb 0 (suc n) ≡ true
positive n = ground arith

add_gas :
    (fs : List Field) (gas : ℕ)
    → (if ltb 0 gas
        then write_varint (write_varint (encode_message fs) (5 * 2 ^ 3)) gas
        else encode_message fs)
      ≡ encode_message (fs ++ opt_varint 5 gas)
add_gas fs zero = ap encode_message (sym (append-nil fs))
add_gas fs (suc n) = rw (positive n) (
    write_varint_eq _ (suc n)
    ∙ ap (λ (b : Bytes). encode_varint b (suc n)) (gas_tag (encode_message fs))
    ∙ gas_field (encode_message fs) n
    ∙ add_varint fs 5 (suc n))

abbrev pub party_fields : CallViewArgs → List Field
party_fields args = (opt_address 1 args.caller ++ opt_address 2 args.to) ++ opt_address 3 args.value

abbrev pub view_fields : CallViewArgs → List Field
view_fields args = (party_fields args ++ opt_bytes 4 args.input) ++ opt_varint 5 args.gas_limit

parties-message :
    (args : CallViewArgs)
    → IsCall args
    → write_given (write_given (write_given [] 1 args.caller) 2 args.to) 3 args.value
      ≡ encode_message (party_fields args)
parties-message args h =
    ap
      (λ (b : Bytes).
        write_given (write_given (write_given b 1 args.caller) 2 args.to) 3 args.value)
      encode_message-nil
    ∙ ap (λ (b : Bytes). write_given (write_given b 2 args.to) 3 args.value)
        (add_given [] 1 20 args.caller (omega arith) (omega arith) h.caller_size)
    ∙ ap (λ (b : Bytes). write_given b 3 args.value)
        (add_given (opt_address 1 args.caller) 2 20 args.to (omega arith) (omega arith) h.to_size)
    ∙ add_given (opt_address 1 args.caller ++ opt_address 2 args.to) 3 32 args.value (omega arith)
        (omega arith) h.value_size

-- The lines of `build_call_view_args` behind the three optional fields.
abbrev with_rest : CallViewArgs → Bytes → Bytes
with_rest args valued =
    let out = if is_empty args.input then valued else write_bytes_field valued 4 args.input in
    if ltb 0 args.gas_limit then write_varint (write_varint out (5 * 2 ^ 3)) args.gas_limit else out

pub build_call_view_args-message :
    (args : CallViewArgs)
    → IsCall args
    → build_call_view_args args ≡ encode_message (view_fields args)
unfolding build_call_view_args
build_call_view_args-message args h =
    ap (with_rest args) (parties-message args h)
    ∙ ap
        (λ (b : Bytes).
          if ltb 0 args.gas_limit
          then write_varint (write_varint b (5 * 2 ^ 3)) args.gas_limit
          else b)
        (add_input (party_fields args) args.input)
    ∙ add_gas (party_fields args ++ opt_bytes 4 args.input) args.gas_limit

pub view_fields-IsWritten : (args : CallViewArgs) → IsCall args → All IsWritten (view_fields args)
view_fields-IsWritten args h =
    All-append IsWritten (party_fields args ++ opt_bytes 4 args.input) (opt_varint 5 args.gas_limit)
      (All-append IsWritten (party_fields args) (opt_bytes 4 args.input)
        (All-append IsWritten (opt_address 1 args.caller ++ opt_address 2 args.to)
          (opt_address 3 args.value)
          (All-append IsWritten (opt_address 1 args.caller) (opt_address 2 args.to)
            (opt_address-IsWritten 1 args.caller (omega arith))
            (opt_address-IsWritten 2 args.to (omega arith)))
          (opt_address-IsWritten 3 args.value (omega arith)))
        (opt_bytes-IsWritten 4 args.input (omega arith)))
      (opt_varint-IsWritten 5 args.gas_limit (omega arith) h.gas_word)

build_submit_raw_tx_args-message :
    (raw : Bytes) → raw ≢ [] → build_submit_raw_tx_args raw ≡ encode_message (opt_bytes 1 raw)
unfolding build_submit_raw_tx_args
build_submit_raw_tx_args-message raw h =
    write_bytes_field_eq [] 1 raw (omega arith) h
    ∙ ap (λ (b : Bytes). encode_bytes_field b 1 raw) encode_message-nil
    ∙ add_bytes [] 1 raw

read_raw : (raw : Bytes) → last_bytes 1 [] (opt_bytes 1 raw) ≡ raw
unfolding last_bytes get_bytes
read_raw [] = refl
read_raw (b ∷ bs) = refl

-- The engine finds the raw transaction that the gateway's `build_submit_raw_tx_args` wrote, if it
-- is not empty and the message fits the memory.
pub last_bytes-build_submit_raw_tx_args :
    (raw : Bytes)
    → raw ≢ []
    → length (build_submit_raw_tx_args raw) < usize_limit
    → last_bytes 1 [] (fields (build_submit_raw_tx_args raw)) ≡ raw
last_bytes-build_submit_raw_tx_args raw h small =
    ap (last_bytes 1 []) (
      fields_of (opt_bytes 1 raw) (build_submit_raw_tx_args-message raw h)
        (opt_bytes-IsWritten 1 raw (omega arith)) small)
    ∙ read_raw raw
