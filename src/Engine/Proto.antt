-- ===== src/Engine/Proto.antt =====
-- koinos-evm/engine/src/proto.rs: the protobuf wire format of the engine. A byte is a number, a
-- buffer is the list of its bytes; `usize` has 32 bits, since the engine runs as wasm32.
pub mod Varint
pub mod Fields
pub mod Iter
pub mod Messages
pub mod Compose
use koinos_evm_engine.Base.{
  ℕ, zero, suc, ◌+◌, ◌-◌, ◌*◌, ◌/◌, ◌%◌, ◌^◌, ◌<◌, bit_and, bit_or, Bool, true, false, ◌&&◌, ◌||◌,
  Option, none, some, List, [], ◌∷◌, ◌++◌, length, is_empty, take, drop, ltb, leb, ◌==◌,
  if◌then◌else◌, ◌>>=?◌, arith,
}
use koinos_evm_engine.Base.Words.{Bytes}
use koinos_evm_engine.Base.Order.{lt_wf}
use mathlib.Core.Logic.{dite}
use mathlib.Core.WellFounded.{Acc}
use native.Mathlib.Decide.{dec_lt}

abbrev pub wire_varint : ℕ
wire_varint = 0

abbrev pub wire_length_delimited : ℕ
wire_length_delimited = 2

-- One more than the largest `usize`.
abbrev pub usize_limit : ℕ
usize_limit = 2 ^ 32

pub shift_shrinks : (value : ℕ) → 0 < value / 2 ^ 7 → value / 2 ^ 7 < value
shift_shrinks value more = omega arith

-- The loop of `encode_varint`: it ends since the value falls while it is not zero.
unfoldable pub encode_varint_loop : Bytes → (value : ℕ) → Acc ◌<◌ value → Bytes
encode_varint_loop buf value (Acc.intro _ smaller) =
    let byte = bit_and value 0x7f in
    dite (dec_lt 0 (value / 2 ^ 7))
      (λ more.
        encode_varint_loop (buf ++ (bit_or byte 0x80 ∷ [])) (value / 2 ^ 7)
          (smaller (value / 2 ^ 7) (shift_shrinks value more)))
      (λ _. buf ++ (byte ∷ []))

unfoldable pub encode_varint : Bytes → ℕ → Bytes
unfolding encode_varint_loop lt_wf dec_lt
encode_varint buf value = encode_varint_loop buf value (lt_wf.apply value)

-- The list is what the loop of `decode_varint` has not read, `i` its counter.
unfoldable pub decode_varint_loop : Bytes → ℕ → ℕ → ℕ → Option (ℕ × ℕ)
decode_varint_loop [] i result shift = none
decode_varint_loop (byte ∷ rest) i result shift =
    let payload = bit_and byte 0x7f in
    let result' = bit_or result (payload * 2 ^ shift % 2 ^ 64) in
    let more = decode_varint_loop rest (i + 1) result' (shift + 7) in
    if leb 10 i
    then none
    else if shift == 63 && ltb 1 payload
    then none
    else if bit_and byte 0x80 == 0
    then some (result', i + 1)
    else more

-- The value, and the number of bytes that it took.
unfoldable pub decode_varint : Bytes → Option (ℕ × ℕ)
unfolding decode_varint_loop
decode_varint input = decode_varint_loop input 0 0 0

unfoldable pub encode_tag : Bytes → ℕ → ℕ → Bytes
encode_tag buf field_number wire_type =
    encode_varint buf (bit_or (field_number * 2 ^ 3 % 2 ^ 64) wire_type)

unfoldable pub encode_varint_field : Bytes → ℕ → ℕ → Bytes
encode_varint_field buf field_number value =
    if value == 0 then buf else encode_varint (encode_tag buf field_number wire_varint) value

unfoldable pub encode_bool_field : Bytes → ℕ → Bool → Bytes
encode_bool_field buf field_number value =
    if value then encode_varint (encode_tag buf field_number wire_varint) 1 else buf

unfoldable pub encode_bytes_field : Bytes → ℕ → Bytes → Bytes
encode_bytes_field buf field_number value =
    if is_empty value
    then buf
    else encode_varint (encode_tag buf field_number wire_length_delimited) (length value) ++ value

unfoldable pub encode_submessage_field : Bytes → ℕ → Bytes → Bytes
encode_submessage_field buf field_number submessage =
    if is_empty submessage
    then buf
    else encode_varint (encode_tag buf field_number wire_length_delimited) (length submessage)
      ++ submessage

pub data FieldValue : Type 0 where
  varint : ℕ → FieldValue
  length_delimited : Bytes → FieldValue

abbrev pub Field : Type 0
Field = ℕ × FieldValue

-- `data` and `pos`.
pub record FieldIter : Type 0 where
  pub input : Bytes
  pub pos : ℕ

abbrev pub new : Bytes → FieldIter
new input = record { input = input; pos = 0 }

-- The bytes from `pos` on.
abbrev pub unread : FieldIter → Bytes
unread it = drop it.pos it.input

abbrev pub advance : FieldIter → ℕ → FieldIter
advance it n = record it { pos = it.pos + n }

-- The arm of a length-delimited field, once its length is read.
unfoldable pub next_slice : FieldIter → ℕ → ℕ → Option (Field × FieldIter)
next_slice it field_number len =
    if leb usize_limit len
    then none
    else if leb usize_limit (it.pos + len)
    then none
    else if ltb (length it.input) (it.pos + len)
    then none
    else some ((field_number, length_delimited (take len (unread it))), advance it len)

-- The `match` on the wire type; the iterator stands behind the tag.
unfoldable pub next_value : FieldIter → ℕ → ℕ → Option (Field × FieldIter)
next_value it field_number wire_type =
    if wire_type == wire_varint
    then (decode_varint (unread it) >>=? λ (value, consumed).
        some ((field_number, varint value), advance it consumed))
    else if wire_type == wire_length_delimited
    then (decode_varint (unread it) >>=? λ (len, consumed).
        next_slice (advance it consumed) field_number len)
    else none

-- `Iterator::next`. Where the source returns `None` it may have moved `pos`, which nothing reads:
-- each `for` loop of the engine drops the iterator at the first `None`.
unfoldable pub next : FieldIter → Option (Field × FieldIter)
next it =
    if leb (length it.input) it.pos
    then none
    else (decode_varint (unread it) >>=? λ (tag, consumed).
        let field_number = tag / 2 ^ 3 in
        if field_number == 0 || ltb (2 ^ 32 - 1) field_number
        then none
        else next_value (advance it consumed) field_number (bit_and tag 0x07))

-- What a `for` loop over the iterator sees, with fuel for its rounds.
unfoldable pub fields_from : ℕ → FieldIter → List Field
fields_from zero it = []
fields_from (suc fuel) it = elim (next it) [
  | none ↦ []
  | some (field, it') ↦ field ∷ fields_from fuel it'
]

-- Each round takes a byte at least, so the length of the input is enough.
unfoldable pub fields : Bytes → List Field
fields input = fields_from (length input) (new input)

unfoldable pub get_varint : FieldValue → Option ℕ
get_varint (varint v) = some v
get_varint (length_delimited v) = none

unfoldable pub get_bytes : FieldValue → Option Bytes
get_bytes (varint v) = none
get_bytes (length_delimited v) = some v
