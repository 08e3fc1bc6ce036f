-- ===== src/Engine/Proto/Iter.antt =====
-- `FieldIter` of koinos-evm/engine/src/proto.rs.
use koinos_evm_engine.Base.{
  ℕ, ◌+◌, ◌-◌, ◌*◌, ◌/◌, ◌^◌, ◌≤◌, ◌<◌, bit_and, ◌≡◌, refl, sym, ap, ◌∙◌, ◌≢◌, Option, some,
  Option-cases, inl, inr, [], ◌∷◌, ◌++◌, append_assoc, length, length-append, length-drop, take,
  drop, drop-drop, take-append_length, drop-append_eq, arith,
}
use koinos_evm_engine.Base.Words.{Bytes, IsU64}
use koinos_evm_engine.Base.Bits.{bit_and_seven}
use koinos_evm_engine.Engine.Proto.{
  wire_varint, wire_length_delimited, usize_limit, encode_varint, decode_varint, encode_tag, varint,
  length_delimited, Field, FieldIter, unread, advance, next, next_value, next_slice,
}
use koinos_evm_engine.Engine.Proto.Varint.{
  encode_varint_shape, decode_varint-encode_varint, decode_varint_bounds,
}
use koinos_evm_engine.Engine.Proto.Fields.{
  IsFieldNumber, encode_tag_eq, encode_field, IsWritten, written_varint, written_bytes,
}

module _ (it : FieldIter) where
  pub length-unread : length (unread it) ≡ length it.input - it.pos
  length-unread = length-drop it.pos it.input

  unread-advance : (n : ℕ) → unread (advance it n) ≡ drop n (unread it)
  unread-advance n = sym (drop-drop it.pos n it.input)

  pub unread-advance_append :
      (n : ℕ) (xs rest : Bytes)
      → unread it ≡ xs ++ rest
      → length xs ≡ n
      → unread (advance it n) ≡ rest
  unread-advance_append n xs rest e h =
      unread-advance n ∙ ap (drop n) e ∙ drop-append_eq n xs rest h

  -- The tag: `next` reads it and goes on with the value.
  next-tag :
      (f w : ℕ) (rest : Bytes)
      → IsFieldNumber f
      → w < 8
      → unread it ≡ encode_tag [] f w ++ rest
      → next it ≡ next_value (advance it (length (encode_tag [] f w))) f w
  unfolding next
  next-tag f w rest hf hw e = ground (
    arith,
    decoded,
    bit_and_seven (f * 8 + w),
    length-unread,
    ap length e,
    length-append (encode_tag [] f w) rest,
    length_tag,
  )
    where
      tag_bytes : encode_tag [] f w ≡ encode_varint [] (f * 8 + w)
      tag_bytes = encode_tag_eq [] f w hf.1 hw

      length_tag : 1 ≤ length (encode_tag [] f w)
      length_tag = rw tag_bytes ((encode_varint_shape (f * 8 + w) (omega arith)).1)

      decoded : decode_varint (unread it) ≡ some (f * 8 + w, length (encode_tag [] f w))
      decoded = rw (e, tag_bytes) (decode_varint-encode_varint (f * 8 + w) rest (omega arith))

  next_value_varint :
      (f v : ℕ) (rest : Bytes)
      → IsU64 v
      → unread it ≡ encode_varint [] v ++ rest
      → next_value it f wire_varint ≡ some ((f, varint v), advance it (length (encode_varint [] v)))
  unfolding next_value
  next_value_varint f v rest hv e = rw (e, decode_varint-encode_varint v rest hv)

next_slice_fits :
    (it : FieldIter) (f : ℕ) (v rest : Bytes)
    → length it.input < usize_limit
    → v ≢ []
    → unread it ≡ v ++ rest
    → next_slice it f (length v) ≡ some ((f, length_delimited v), advance it (length v))
unfolding next_slice
next_slice_fits it f [] rest small some_bytes e = absurd (some_bytes refl)
next_slice_fits it f (x ∷ v) rest small some_bytes e = ground (
  arith,
  ap (take (length (x ∷ v))) e,
  take-append_length (x ∷ v) rest,
  length-unread it,
  ap length e,
  length-append (x ∷ v) rest,
)

next_value_bytes :
    (it : FieldIter) (f : ℕ) (v rest : Bytes)
    → length it.input < usize_limit
    → v ≢ []
    → unread it ≡ encode_varint [] (length v) ++ (v ++ rest)
    → next_value it f wire_length_delimited
      ≡ some (
        (f, length_delimited v),
        advance (advance it (length (encode_varint [] (length v)))) (length v),
      )
unfolding next_value
next_value_bytes it f v rest small some_bytes e =
    rw (e, decode_varint-encode_varint (length v) (v ++ rest) short)
      (next_slice_fits (advance it k) f v rest small some_bytes
        (unread-advance_append it k (encode_varint [] (length v)) (v ++ rest) e refl))
  where
    k : ℕ
    k = length (encode_varint [] (length v))

    short : IsU64 (length v)
    short = omega (
      arith,
      length-unread it,
      ap length e,
      length-append (encode_varint [] (length v)) (v ++ rest),
      length-append v rest,
    )

abbrev some_at : FieldIter → Field → ℕ → Option (Field × FieldIter)
some_at it field p = some (field, record it { pos = p })

advance_to :
    (it : FieldIter) (field : Field) (m n : ℕ)
    → it.pos + m ≡ n
    → some_at it field (it.pos + m) ≡ some_at it field n
advance_to it field m n e = ap (some_at it field) e

next_written_varint :
    (it : FieldIter) (f v : ℕ) (rest : Bytes)
    → IsFieldNumber f
    → IsU64 v
    → unread it ≡ encode_tag [] f wire_varint ++ (encode_varint [] v ++ rest)
    → next it
      ≡ some
          ((f, varint v), advance it (length (encode_tag [] f wire_varint ++ encode_varint [] v)))
next_written_varint it f v rest hf hv e =
    next-tag it f wire_varint _ hf (omega arith) e
    ∙ next_value_varint (advance it k) f v rest hv
        (unread-advance_append it k tag (encode_varint [] v ++ rest) e refl)
    ∙ advance_to (advance it k) (f, varint v) (length (encode_varint [] v)) _
        (omega (arith, length-append tag (encode_varint [] v)))
  where
    tag : Bytes
    tag = encode_tag [] f wire_varint

    k : ℕ
    k = length tag

next_written_bytes :
    (it : FieldIter) (f : ℕ) (v rest : Bytes)
    → length it.input < usize_limit
    → IsFieldNumber f
    → v ≢ []
    → unread it
      ≡ encode_tag [] f wire_length_delimited ++ (encode_varint [] (length v) ++ (v ++ rest))
    → next it
      ≡ some (
        (f, length_delimited v),
        advance it
            (length (encode_tag [] f wire_length_delimited ++ (encode_varint [] (length v) ++ v))),
      )
next_written_bytes it f v rest small hf some_bytes e =
    next-tag it f wire_length_delimited _ hf (omega arith) e
    ∙ next_value_bytes (advance it k) f v rest small some_bytes
        (unread-advance_append it k tag (len ++ (v ++ rest)) e refl)
    ∙ advance_to (advance (advance it k) (length len)) (f, length_delimited v) (length v) _
        (omega (arith, length-append tag (len ++ v), length-append len v))
  where
    tag : Bytes
    tag = encode_tag [] f wire_length_delimited

    k : ℕ
    k = length tag

    len : Bytes
    len = encode_varint [] (length v)

-- `next` reads the field that was written, and stands behind it.
pub next-encode_field :
    (it : FieldIter) (field : Field) (rest : Bytes)
    → length it.input < usize_limit
    → IsWritten field
    → unread it ≡ encode_field [] field ++ rest
    → next it ≡ some (field, advance it (length (encode_field [] field)))
unfolding encode_field
next-encode_field it (f, varint v) rest small (hf, pos, hv) e = rw (written_varint f v pos) (
    next_written_varint it f v rest hf hv
      (e ∙ ap (λ (b : Bytes). b ++ rest) (written_varint f v pos) ∙ append_assoc _ _ rest))
next-encode_field it (f, length_delimited v) rest small (hf, some_bytes) e =
    rw (written_bytes f v some_bytes) (
      next_written_bytes it f v rest small hf some_bytes (
        e
        ∙ ap (λ (b : Bytes). b ++ rest) (written_bytes f v some_bytes)
        ∙ append_assoc _ _ rest
        ∙ ap (◌++◌ (encode_tag [] f wire_length_delimited)) (append_assoc _ v rest)))

-- `it'` stands behind `it`, inside the same input.
abbrev pub Behind : FieldIter → FieldIter → Type 0
Behind it it' = (it'.input ≡ it.input) × (it.pos < it'.pos) × (it'.pos ≤ length it.input)

next_slice_from :
    (it : FieldIter) (f len : ℕ) (field : Field) (it' : FieldIter)
    → next_slice it f len ≡ some (field, it')
    → (it'.input ≡ it.input) × (it.pos ≤ it'.pos) × (it'.pos ≤ length it.input)
unfolding next_slice
next_slice_from it f len field it' e = ground arith

next_value-Behind :
    (it : FieldIter) (f w : ℕ) (field : Field) (it' : FieldIter)
    → next_value it f w ≡ some (field, it')
    → it.pos ≤ length it.input
    → Behind it it'
unfolding next_value
next_value-Behind it f w field it' e within = elim (Option-cases (decode_varint (unread it))) [
  | inl fails ↦ ground arith
  | inr ((v, c), reads) ↦ ground (
    arith,
    decode_varint_bounds (unread it) v c reads,
    length-unread it,
    next_slice_from (advance it c) f v field it',
  )
]

-- A round of the iterator moves the position forward and leaves it inside the input.
pub next_advances :
    (it it' : FieldIter) (field : Field)
    → it.pos ≤ length it.input
    → next it ≡ some (field, it')
    → Behind it it'
unfolding next
next_advances it it' field within e = elim (Option-cases (decode_varint (unread it))) [
  | inl fails ↦ ground arith
  | inr ((tag, c), reads) ↦ ground (
    arith,
    decode_varint_bounds (unread it) tag c reads,
    length-unread it,
    next_value-Behind (advance it c) (tag / 2 ^ 3) (bit_and tag 0x07) field it',
  )
]
