-- ===== src/Gateway/EngineProto/CallArgs.antt =====
-- The engine reads the call that the gateway wrote.
use koinos_evm_engine.Base.{
  ℕ, zero, suc, ◌<◌, ◌≡◌, refl, ap, ◌∙◌, Option, none, some, List, [], ◌∷◌, ◌++◌, take_all, length,
  replicate, if◌then◌else◌, ◌==◌, arith,
}
use koinos_evm_engine.Base.Words.{Bytes}
use koinos_evm_engine.Engine.Proto.{usize_limit, Field, get_bytes, get_varint}
use koinos_evm_engine.Engine.Proto.Compose.{opt_varint, opt_bytes, fields_of}
use koinos_evm_engine.Engine.Database.{Primitives}
use koinos_evm_engine.Engine.Evm.{
  EvmCallArgs, parse_call_args, call_fields, call_field, default_call_args,
}
use koinos_evm_engine.Engine.Evm.Messages.{opt_address}
use koinos_evm_engine.Gateway.EngineProto.{CallViewArgs, build_call_view_args}
use koinos_evm_engine.Gateway.EngineProto.CallMessage.{
  HasSize, IsCall, party_fields, view_fields, build_call_view_args-message, view_fields-IsWritten,
}

module _ (p : Primitives) where
  -- The engine's arguments that a call of the gateway stands for.
  abbrev pub as_call : CallViewArgs → EvmCallArgs
  as_call args = record {
    caller = elim args.caller [ none ↦ replicate 20 0 | some c ↦ c ];
    to = args.to;
    value = elim args.value [ none ↦ 0 | some v ↦ p.from_be_slice v ];
    input = args.input;
    gas_limit = if args.gas_limit == 0 then 30_000_000 else args.gas_limit;
  }

  call_fields-append :
      (acc : EvmCallArgs) (xs ys : List Field)
      → call_fields p acc (xs ++ ys) ≡ call_fields p (call_fields p acc xs) ys
  unfolding call_fields
  call_fields-append acc [] ys = refl
  call_fields-append acc (x ∷ xs) ys = call_fields-append (call_field p acc x) xs ys

  read_caller :
      (acc : EvmCallArgs) (o : Option Bytes)
      → HasSize 20 o
      → call_fields p acc (opt_address 1 o)
        ≡ record acc { caller = elim o [ none ↦ acc.caller | some c ↦ c ] }
  unfolding call_fields call_field get_bytes
  read_caller acc none h = refl
  read_caller acc (some []) h = absurd (omega (arith, h [] refl))
  read_caller acc (some (b ∷ bs)) h =
      ground (arith, h (b ∷ bs) refl, take_all 20 (b ∷ bs) (h (b ∷ bs) refl))

  read_to :
      (acc : EvmCallArgs) (o : Option Bytes)
      → HasSize 20 o
      → acc.to ≡ none
      → call_fields p acc (opt_address 2 o) ≡ record acc { to = o }
  unfolding call_fields call_field get_bytes
  read_to acc none h e = ap (λ (t : Option Bytes). record acc { to = t }) e
  read_to acc (some []) h e = absurd (omega (arith, h [] refl))
  read_to acc (some (b ∷ bs)) h e =
      ground (arith, h (b ∷ bs) refl, take_all 20 (b ∷ bs) (h (b ∷ bs) refl))

  read_value :
      (acc : EvmCallArgs) (o : Option Bytes)
      → HasSize 32 o
      → call_fields p acc (opt_address 3 o)
        ≡ record acc { value = elim o [ none ↦ acc.value | some v ↦ p.from_be_slice v ] }
  unfolding call_fields call_field get_bytes
  read_value acc none h = refl
  read_value acc (some []) h = absurd (omega (arith, h [] refl))
  read_value acc (some (b ∷ bs)) h = ground (arith, h (b ∷ bs) refl)

  read_input :
      (acc : EvmCallArgs) (b : Bytes)
      → acc.input ≡ []
      → call_fields p acc (opt_bytes 4 b) ≡ record acc { input = b }
  unfolding call_fields call_field get_bytes
  read_input acc [] e = ap (λ (i : Bytes). record acc { input = i }) e
  read_input acc (b ∷ bs) e = refl

  read_gas :
      (acc : EvmCallArgs) (gas : ℕ)
      → call_fields p acc (opt_varint 5 gas)
        ≡ record acc { gas_limit = if gas == 0 then acc.gas_limit else gas }
  unfolding call_fields call_field get_varint
  read_gas acc zero = refl
  read_gas acc (suc n) = ground arith

  -- The accumulator behind the caller, the recipient, the value and the input.
  abbrev read_upto : CallViewArgs → EvmCallArgs
  read_upto args = record {
    caller = elim args.caller [ none ↦ replicate 20 0 | some c ↦ c ];
    to = args.to;
    value = elim args.value [ none ↦ 0 | some v ↦ p.from_be_slice v ];
    input = [];
    gas_limit = 30_000_000;
  }

  read_parties :
      (args : CallViewArgs)
      → IsCall args
      → call_fields p (default_call_args p) (party_fields args) ≡ read_upto args
  read_parties args h =
      call_fields-append _ (opt_address 1 args.caller ++ opt_address 2 args.to)
        (opt_address 3 args.value)
      ∙ ap (λ (acc : EvmCallArgs). call_fields p acc (opt_address 3 args.value))
          (call_fields-append _ (opt_address 1 args.caller) (opt_address 2 args.to)
            ∙ ap (λ (acc : EvmCallArgs). call_fields p acc (opt_address 2 args.to))
                (read_caller (default_call_args p) args.caller h.caller_size)
            ∙ read_to _ args.to h.to_size refl)
      ∙ read_value _ args.value h.value_size

  read_view :
      (args : CallViewArgs)
      → IsCall args
      → call_fields p (default_call_args p) (view_fields args) ≡ as_call args
  read_view args h =
      call_fields-append _ (party_fields args ++ opt_bytes 4 args.input)
        (opt_varint 5 args.gas_limit)
      ∙ ap (λ (acc : EvmCallArgs). call_fields p acc (opt_varint 5 args.gas_limit))
          (call_fields-append _ (party_fields args) (opt_bytes 4 args.input)
            ∙ ap (λ (acc : EvmCallArgs). call_fields p acc (opt_bytes 4 args.input))
                (read_parties args h)
            ∙ read_input _ args.input refl)
      ∙ read_gas _ args.gas_limit

  -- The engine's `parse_call_args` reads the caller, recipient, value, input and gas limit that the
  -- gateway's `build_call_view_args` wrote, an absent caller as the zero address, an absent value as
  -- 0 and a gas limit of 0 as 30 million, if the addresses have 20 bytes, the value 32, the gas
  -- limit fits 64 bits and the message fits the memory.
  pub parse_call_args-build_call_view_args :
      (args : CallViewArgs)
      → IsCall args
      → length (build_call_view_args args) < usize_limit
      → parse_call_args p (build_call_view_args args) ≡ as_call args
  unfolding parse_call_args
  parse_call_args-build_call_view_args args h small =
      ap (call_fields p (default_call_args p)) (
        fields_of (view_fields args) (build_call_view_args-message args h)
          (view_fields-IsWritten args h) small)
      ∙ read_view args h
