-- ===== src/Engine/Proto/Messages.antt =====
-- Whole messages of koinos-evm/engine/src/proto.rs.
use koinos_evm_engine.Base.{
  ℕ, zero, suc, ◌-◌, ◌≤◌, ◌<◌, ◌≡◌, refl, sym, ap, ◌∙◌, none, some, Option-cases, inl, inr, List,
  [], ◌∷◌, ◌++◌, length, length-append, All, arith,
}
use koinos_evm_engine.Base.Words.{Bytes}
use koinos_evm_engine.Engine.Proto.{
  wire_varint, wire_length_delimited, usize_limit, encode_varint, encode_tag, varint,
  length_delimited, Field, FieldIter, unread, advance, next, fields_from, fields,
}
use koinos_evm_engine.Engine.Proto.Varint.{encode_varint_shape}
use koinos_evm_engine.Engine.Proto.Fields.{encode_field, IsWritten, written_varint, written_bytes}
use koinos_evm_engine.Engine.Proto.Iter.{
  length-unread, unread-advance_append, next-encode_field, Behind, next_advances,
}

pub fields_from_step :
    (fuel : ℕ) (it : FieldIter) {field : Field} {it' : FieldIter}
    → next it ≡ some (field, it')
    → fields_from (suc fuel) it ≡ field ∷ fields_from fuel it'
unfolding fields_from
fields_from_step fuel it e = rw (e, fields_from)

pub fields_from_end : (fuel : ℕ) (it : FieldIter) → next it ≡ none → fields_from fuel it ≡ []
unfolding fields_from
fields_from_end zero it e = refl
fields_from_end (suc fuel) it e = rw (e, fields_from)

pub next_end : (it : FieldIter) → length it.input ≤ it.pos → next it ≡ none
unfolding next
next_end it h = ground arith

-- The length of the input is fuel enough: past it, more rounds give the same fields.
pub fields_from_enough :
    (m n : ℕ) (it : FieldIter)
    → it.pos ≤ length it.input
    → length it.input - it.pos ≤ m
    → length it.input - it.pos ≤ n
    → fields_from m it ≡ fields_from n it
fields_from_enough zero n it within hm hn =
    fields_from_end zero it (next_end it (omega arith))
    ∙ sym (fields_from_end n it (next_end it (omega arith)))
fields_from_enough (suc m) zero it within hm hn =
    fields_from_end (suc m) it (next_end it (omega arith))
    ∙ sym (fields_from_end zero it (next_end it (omega arith)))
fields_from_enough (suc m) (suc n) it within hm hn = elim (Option-cases (next it)) [
  | inl ends ↦ fields_from_end (suc m) it ends ∙ sym (fields_from_end (suc n) it ends)
  | inr ((field, it'), goes) ↦
      let behind : Behind it it' = next_advances it it' field within goes in
      fields_from_step m it goes
      ∙ ap (◌∷◌ field) (
          fields_from_enough m n it' (rw (behind.0) (behind.2))
            (omega (arith, ap length (behind.0))) (omega (arith, ap length (behind.0))))
      ∙ sym (fields_from_step n it goes)
]

-- A message: its fields, one behind the other.
unfoldable pub encode_message : List Field → Bytes
encode_message [] = []
encode_message (field ∷ rest) = encode_field [] field ++ encode_message rest

pub length-encode_field : (field : Field) → IsWritten field → 1 ≤ length (encode_field [] field)
unfolding encode_field
length-encode_field (f, varint v) (hf, pos, hv) = omega (
  arith,
  ap length (written_varint f v pos),
  length-append (encode_tag [] f wire_varint) (encode_varint [] v),
  (encode_varint_shape v hv).1,
)
length-encode_field (f, length_delimited []) (hf, some_bytes) = absurd (some_bytes refl)
length-encode_field (f, length_delimited (x ∷ v)) (hf, some_bytes) = omega (
  arith,
  ap length (written_bytes f (x ∷ v) some_bytes),
  length-append (encode_tag [] f wire_length_delimited)
      (encode_varint [] (length (x ∷ v)) ++ (x ∷ v)),
  length-append (encode_varint [] (length (x ∷ v))) (x ∷ v),
)

fields_from-encode_message :
    (fuel : ℕ) (it : FieldIter) (fs : List Field)
    → length it.input < usize_limit
    → All IsWritten fs
    → unread it ≡ encode_message fs
    → length (unread it) ≤ fuel
    → fields_from fuel it ≡ fs
unfolding encode_message
fields_from-encode_message fuel it [] small h e hf =
    fields_from_end fuel it (next_end it (omega (arith, ap length e, length-unread it)))
fields_from-encode_message zero it (field ∷ fs) small (hw, h) e hf = absurd (
    omega (
      arith,
      ap length e,
      length-append (encode_field [] field) (encode_message fs),
      length-encode_field field hw,
    ))
fields_from-encode_message (suc fuel) it (field ∷ fs) small (hw, h) e hf =
    let k : ℕ = length (encode_field [] field) in
    let behind = unread-advance_append it k (encode_field [] field) (encode_message fs) e refl in
    fields_from_step fuel it (next-encode_field it field (encode_message fs) small hw e)
    ∙ ap (◌∷◌ field) (
        fields_from-encode_message fuel (advance it k) fs small h behind (
          omega (
            arith,
            ap length e,
            ap length behind,
            length-append (encode_field [] field) (encode_message fs),
            length-encode_field field hw,
          )))

-- A message that the encoders wrote is read back field by field.
pub fields-encode_message :
    (fs : List Field)
    → All IsWritten fs
    → length (encode_message fs) < usize_limit
    → fields (encode_message fs) ≡ fs
unfolding fields
fields-encode_message fs h small = fields_from-encode_message _ _ fs small h refl (omega arith)
