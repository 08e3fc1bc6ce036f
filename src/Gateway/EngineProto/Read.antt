-- ===== src/Gateway/EngineProto/Read.antt =====
-- What the engine's decoder accepts, the gateway's reads the same.
use koinos_evm_engine.Base.{
  ℕ, ◌+◌, ◌-◌, ◌*◌, ◌/◌, ◌%◌, ◌^◌, ◌<◌, ◌≤◌, bit_and, bit_or, ◌≡◌, refl, ap, ◌∙◌, none, some,
  Option-cases, inl, inr, [], ◌∷◌, drop, arith,
}
use koinos_evm_engine.Base.Words.{Bytes}
use koinos_evm_engine.Engine.Proto
use koinos_evm_engine.Engine.Proto.{
  decode_varint, decode_varint_loop, Field, FieldIter, varint, length_delimited, next_value,
  next_slice, unread, advance,
}
use koinos_evm_engine.Gateway.EngineProto.{
  ok, read_varint_loop, read_varint, ProtoIter, ProtoField, next_payload, next_by_type, next,
}

decode_ends :
    (src : Bytes) (i result shift : ℕ) → 10 ≤ i → decode_varint_loop src i result shift ≡ none
unfolding decode_varint_loop
decode_ends [] i result shift h = refl
decode_ends (b ∷ bs) i result shift h = ground arith

read_loop_agrees :
    (src : Bytes) (i pos result shift v c : ℕ)
    → shift ≡ 7 * i
    → decode_varint_loop src i result shift ≡ some (v, c)
    → (i < c) × (read_varint_loop src pos result shift ≡ (ok v, pos + c - i))
unfolding decode_varint_loop read_varint_loop
read_loop_agrees [] i pos result shift v c hs e = cc
read_loop_agrees (b ∷ bs) i pos result shift v c hs e = ground (
  arith,
  read_loop_agrees bs (i + 1) (pos + 1) (bit_or result (bit_and b 0x7f * 2 ^ shift % 2 ^ 64))
      (shift + 7) v c,
  decode_ends bs (i + 1) (bit_or result (bit_and b 0x7f * 2 ^ shift % 2 ^ 64)) (shift + 7),
)

-- A varint that the engine's decoder accepts is read as the same number, and to the same place.
pub read_varint_agrees :
    (buf : Bytes) (pos v c : ℕ)
    → decode_varint (drop pos buf) ≡ some (v, c)
    → read_varint buf pos ≡ (ok v, pos + c)
unfolding decode_varint read_varint
read_varint_agrees buf pos v c e =
    let (below, same) = read_loop_agrees (drop pos buf) 0 pos 0 0 v c (omega arith) e in
    same ∙ ap (λ (p : ℕ). (ok v, p)) (omega arith)

-- A field of the engine's iterator as an item of the gateway's.
abbrev pub as_item : Field → ProtoField
as_item (f, varint v) = record { field = f; wtype = 0; payload = []; varint = v }
as_item (f, length_delimited v) = record { field = f; wtype = 2; payload = v; varint = 0 }

abbrev pub as_iter : FieldIter → ProtoIter
as_iter it = record { buf = it.input; pos = it.pos }

next_slice_agrees :
    (it it' : FieldIter) (f len : ℕ) (field : Field)
    → next_slice it f len ≡ some (field, it')
    → next_payload (as_iter it) f len ≡ (ok (as_item field), as_iter it')
unfolding next_slice next_payload
next_slice_agrees it it' f len field e = ground arith

next_value_agrees :
    (it it' : FieldIter) (f w : ℕ) (field : Field)
    → next_value it f w ≡ some (field, it')
    → next_by_type (as_iter it) f w ≡ (ok (as_item field), as_iter it')
unfolding next_value next_by_type
next_value_agrees it it' f w field e = elim (Option-cases (decode_varint (unread it))) [
  | inl fails ↦ ground (arith, fails)
  | inr ((v, c), reads) ↦ ground (
    arith,
    reads,
    read_varint_agrees it.input it.pos v c reads,
    next_slice_agrees (advance it c) it' f v field,
  )
]

-- What the engine's iterator takes for a field, the gateway's gives too, and they move to the same
-- position.
pub next_agrees :
    (it it' : FieldIter) (field : Field)
    → Proto.next it ≡ some (field, it')
    → next (as_iter it) ≡ some (ok (as_item field), as_iter it')
unfolding Proto.next next
next_agrees it it' field e = elim (Option-cases (decode_varint (unread it))) [
  | inl fails ↦ ground (arith, fails)
  | inr ((tag, c), reads) ↦ ground (
    arith,
    reads,
    read_varint_agrees it.input it.pos tag c reads,
    next_value_agrees (advance it c) it' (tag / 2 ^ 3) (bit_and tag 0x07) field,
  )
]
