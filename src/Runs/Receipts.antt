-- ===== src/Runs/Receipts.antt =====
-- Runs of the receipts and of the bloom filter.
use koinos_evm_engine.Base.{
  ◌<◌, ◌≡◌, refl, true, none, List, [], ◌∷◌, ◌++◌, map, length, replicate, arith,
}
use koinos_evm_engine.Base.Words.{Bytes}
use koinos_evm_engine.Engine.Proto.{
  usize_limit, encode_varint, encode_tag, encode_varint_loop, encode_varint_field,
  encode_bytes_field,
}
use koinos_evm_engine.Engine.Evm.{Log, evm_result_event, evm_log_payload, topic_fields}
use koinos_evm_engine.Gateway.EngineProto.{ok}
use koinos_evm_engine.Gateway.Receipts.{decode_receipt_events}
use koinos_evm_engine.Gateway.Receipts.Events.{
  IsLog, log_event, rows, result_event, decode_receipt_events-engine,
}
use koinos_evm_engine.Gateway.Bloom.{default, receipt_bloom}
use koinos_evm_engine.Gateway.Bloom.Member.{MayHold, receipt_bloom-MayHold}
use mathlib.Core.List.Memᴰ

abbrev transfer : Log
transfer = record {
  address = replicate 20 6;
  topics = replicate 32 1 ∷ replicate 32 2 ∷ [];
  payload = 9 ∷ [];
}

transfer-IsLog : IsLog transfer
unfolding evm_log_payload topic_fields encode_bytes_field encode_tag encode_varint
    encode_varint_loop
transfer-IsLog = record {
  address_size = refl;
  topics_ne = (λ e. cc, (λ e. cc, tt));
  fits = omega arith;
}

event_size : length (evm_result_event true 21000 none) < usize_limit
unfolding evm_result_event encode_varint_field encode_tag encode_varint encode_varint_loop
event_size = omega arith

decode_receipt_events-engine_example :
    decode_receipt_events
      (map log_event (transfer ∷ transfer ∷ []) ++ (result_event true 21000 none ∷ []))
    ≡ ok (record {
      status = true;
      gas_used = 21000;
      contract_address = none;
      logs = rows 0 (transfer ∷ transfer ∷ []);
    })
decode_receipt_events-engine_example =
    decode_receipt_events-engine true 21000 none (transfer ∷ transfer ∷ []) (omega arith)
      (λ a e. cc) event_size (transfer-IsLog, (transfer-IsLog, tt))

-- A hash that tells byte strings apart by their first byte.
abbrev first_byte : Bytes → Bytes
first_byte [] = replicate 32 0
first_byte (b ∷ bs) = 0 ∷ b ∷ 1 ∷ b ∷ 2 ∷ b ∷ replicate 26 0

abbrev one_log : List (Bytes × List Bytes)
one_log = ((6 ∷ [], (1 ∷ []) ∷ (2 ∷ []) ∷ [])) ∷ []

receipt_bloom-MayHold_example :
    MayHold first_byte (receipt_bloom first_byte one_log default) (2 ∷ [])
receipt_bloom-MayHold_example =
    receipt_bloom-MayHold first_byte one_log default (6 ∷ []) ((1 ∷ []) ∷ (2 ∷ []) ∷ []) (2 ∷ [])
      refl (Memᴰ.head refl) (Memᴰ.tail (Memᴰ.tail (Memᴰ.head refl)))
