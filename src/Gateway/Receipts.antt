-- ===== src/Gateway/Receipts.antt =====
-- koinos-evm/rpc/src/rpc.rs: what a receipt's events say of the call, and the address of a new
-- contract. An event is its name and its payload, which is absent where the base64 is malformed.
pub mod Events
use koinos_evm_engine.Base.{
  ℕ, zero, suc, ◌+◌, ◌*◌, ◌^◌, ◌%◌, Bool, true, false, ◌&&◌, Option, none, some, List, [], ◌∷◌,
  ◌++◌, length, drop, get_or, leb, ◌==◌, bytes_eq, if◌then◌else◌,
}
use koinos_evm_engine.Base.Words.{Bytes, to_be}
use koinos_evm_engine.Base.Text.{codes}
use koinos_evm_engine.Gateway.EngineProto.{Result, ok, err, ◌>>=!◌, ProtoField, flat_items}
use koinos_evm_engine.Gateway.EthTx.Rlp.{strip_zeros}

pub record LogRow : Type 0 where
  pub log_index : ℕ
  pub address : Bytes
  pub topics : List Bytes
  pub payload : Bytes

pub record DecodedEvents : Type 0 where
  pub status : Bool
  pub gas_used : ℕ
  pub contract_address : Option Bytes
  pub logs : List LogRow

abbrev pub Event : Type 0
Event = Bytes × Option Bytes

-- The `match` on a field of an `evm.result` event.
unfoldable pub result_field : DecodedEvents → ProtoField → DecodedEvents
result_field out f =
    if f.field == 1 && f.wtype == 0
    then if f.varint == 0 then record out { status = false } else out
    else if f.field == 2 && f.wtype == 0
    then record out { gas_used = f.varint }
    else if f.field == 3 && f.wtype == 2 && length f.payload == 20
    then record out { contract_address = some f.payload }
    else out

unfoldable pub result_fields : DecodedEvents → List ProtoField → DecodedEvents
result_fields out [] = out
result_fields out (f ∷ rest) = result_fields (result_field out f) rest

-- The `match` on a field of an `evm.log` event: its address, topics and payload so far.
unfoldable pub log_field : LogRow → ProtoField → LogRow
log_field row f =
    if f.field == 1 && f.wtype == 2
    then if length f.payload == 20 then record row { address = f.payload } else row
    else if f.field == 2 && f.wtype == 2
    then record row { topics = row.topics ++ (f.payload ∷ []) }
    else if f.field == 3 && f.wtype == 2
    then record row { payload = f.payload }
    else row

unfoldable pub log_fields : LogRow → List ProtoField → LogRow
log_fields row [] = row
log_fields row (f ∷ rest) = log_fields (log_field row f) rest

abbrev pub empty_row : ℕ → LogRow
empty_row log_index = record { log_index = log_index; address = []; topics = []; payload = [] }

abbrev pub empty_events : DecodedEvents
empty_events = record { status = true; gas_used = 0; contract_address = none; logs = [] }

-- The body of the loop on one event; the index counts the rows, as it does in the source.
unfoldable pub decode_event : DecodedEvents → Event → Result DecodedEvents
decode_event out (name, none) = ok out
decode_event out (name, some bytes) =
    if bytes_eq name (codes "evm.result")
    then (flat_items bytes >>=! λ fs. ok (result_fields out fs))
    else if bytes_eq name (codes "evm.log")
    then (flat_items bytes >>=! λ fs.
        ok (record out { logs = out.logs ++ (log_fields (empty_row (length out.logs)) fs ∷ []) }))
    else ok out

unfoldable pub decode_events : DecodedEvents → List Event → Result DecodedEvents
decode_events out [] = ok out
decode_events out (e ∷ events) = decode_event out e >>=! λ next. decode_events next events

unfoldable pub decode_receipt_events : List Event → Result DecodedEvents
decode_receipt_events events = decode_events empty_events events

-- The RLP of a nonce in `create_address`.
unfoldable pub nonce_rlp : ℕ → Bytes
nonce_rlp nonce =
    let n_bytes = strip_zeros (to_be 8 nonce) in
    if nonce == 0
    then 0x80 ∷ []
    else if length n_bytes == 1 && leb (get_or n_bytes 0 0) 0x7f
    then n_bytes
    else (0x80 + length n_bytes) ∷ n_bytes

unfoldable pub create_preimage : Bytes → ℕ → Bytes
create_preimage sender nonce =
    let nonce_bytes = nonce_rlp nonce in
    let sender_item = (0x80 + 20) ∷ sender in
    ((0xc0 + (length sender_item + length nonce_bytes)) % 2 ^ 8) ∷ (sender_item ++ nonce_bytes)

-- The last 20 bytes of the hash, which is a parameter.
unfoldable pub create_address : (Bytes → Bytes) → Bytes → ℕ → Bytes
create_address keccak256 sender nonce = drop 12 (keccak256 (create_preimage sender nonce))
