-- ===== src/Engine/Proto/Fields.antt =====
-- The field encoders and `FieldIter` of koinos-evm/engine/src/proto.rs.
use koinos_evm_engine.Base.{
  ℕ, ◌+◌, ◌*◌, ◌%◌, ◌^◌, ◌≤◌, ◌<◌, bit_or, ◌≡◌, refl, sym, ap, ◌∙◌, ◌≢◌, Bool, [], ◌∷◌, ◌++◌,
  append_assoc, append-nil, length, arith,
}
use koinos_evm_engine.Base.Words.{Bytes, IsU64}
use koinos_evm_engine.Base.Bits.{bit_or_below}
use koinos_evm_engine.Engine.Proto.{
  wire_varint, wire_length_delimited, encode_varint, encode_tag, encode_varint_field,
  encode_bool_field, encode_bytes_field, encode_submessage_field, varint, length_delimited, Field,
}
use koinos_evm_engine.Engine.Proto.Varint.{encode_varint-append}

abbrev pub IsFieldNumber : ℕ → Type 0
IsFieldNumber f = (1 ≤ f) × (f < 2 ^ 32)

pub encode_tag_eq :
    (buf : Bytes) (f w : ℕ)
    → f < 2 ^ 32
    → w < 8
    → encode_tag buf f w ≡ encode_varint buf (f * 8 + w)
unfolding encode_tag
encode_tag_eq buf f w hf hw = ap (encode_varint buf) same
  where
    same : bit_or (f * 2 ^ 3 % 2 ^ 64) w ≡ f * 8 + w
    same = ground (arith, bit_or_below 3 f w hw)

encode_tag-append : (buf : Bytes) (f w : ℕ) → encode_tag buf f w ≡ buf ++ encode_tag [] f w
unfolding encode_tag
encode_tag-append buf f w = encode_varint-append buf _

tagged_varint :
    (buf : Bytes) (f w v : ℕ)
    → encode_varint (encode_tag buf f w) v ≡ buf ++ (encode_tag [] f w ++ encode_varint [] v)
tagged_varint buf f w v =
    encode_varint-append (encode_tag buf f w) v
    ∙ ap (λ (b : Bytes). b ++ encode_varint [] v) (encode_tag-append buf f w)
    ∙ append_assoc buf (encode_tag [] f w) (encode_varint [] v)

pub encode_varint_field-append :
    (buf : Bytes) (f v : ℕ) → encode_varint_field buf f v ≡ buf ++ encode_varint_field [] f v
unfolding encode_varint_field
encode_varint_field-append buf f v =
    ground
      (arith, tagged_varint buf f wire_varint v, tagged_varint [] f wire_varint v, append-nil buf)

pub encode_bool_field-append :
    (buf : Bytes) (f : ℕ) (b : Bool) → encode_bool_field buf f b ≡ buf ++ encode_bool_field [] f b
unfolding encode_bool_field
encode_bool_field-append buf f b =
    ground
      (arith, tagged_varint buf f wire_varint 1, tagged_varint [] f wire_varint 1, append-nil buf)

pub encode_bytes_field-append :
    (buf : Bytes) (f : ℕ) (v : Bytes)
    → encode_bytes_field buf f v ≡ buf ++ encode_bytes_field [] f v
unfolding encode_bytes_field
encode_bytes_field-append buf f [] = sym (append-nil buf)
encode_bytes_field-append buf f (x ∷ v) =
    ap (λ (b : Bytes). b ++ (x ∷ v)) (tagged_varint buf f wire_length_delimited (length (x ∷ v)))
    ∙ append_assoc buf _ (x ∷ v)
    ∙ ap (λ (b : Bytes). buf ++ (b ++ (x ∷ v)))
        (sym (tagged_varint [] f wire_length_delimited (length (x ∷ v))))

-- A submessage is written as its bytes are.
pub encode_submessage_field_eq :
    (buf : Bytes) (f : ℕ) (v : Bytes) → encode_submessage_field buf f v ≡ encode_bytes_field buf f v
unfolding encode_submessage_field encode_bytes_field
encode_submessage_field_eq buf f v = refl

-- What the encoders write for one field of a message, the value after its tag.
unfoldable pub encode_field : Bytes → Field → Bytes
encode_field buf (f, varint v) = encode_varint_field buf f v
encode_field buf (f, length_delimited v) = encode_bytes_field buf f v

-- A field that the encoders write at all: proto3 leaves out zero and the empty string.
abbrev pub IsWritten : Field → Type 0
IsWritten (f, varint v) = IsFieldNumber f × (0 < v) × IsU64 v
IsWritten (f, length_delimited v) = IsFieldNumber f × (v ≢ [])

pub written_varint :
    (f v : ℕ)
    → 0 < v
    → encode_varint_field [] f v ≡ encode_tag [] f wire_varint ++ encode_varint [] v
unfolding encode_varint_field
written_varint f v h = ground (arith, tagged_varint [] f wire_varint v)

pub written_bytes :
    (f : ℕ) (v : Bytes)
    → v ≢ []
    → encode_bytes_field [] f v
      ≡ encode_tag [] f wire_length_delimited ++ (encode_varint [] (length v) ++ v)
unfolding encode_bytes_field
written_bytes f [] h = absurd (h refl)
written_bytes f (x ∷ v) h =
    ap (λ (b : Bytes). b ++ (x ∷ v)) (tagged_varint [] f wire_length_delimited (length (x ∷ v)))
    ∙ append_assoc (encode_tag [] f wire_length_delimited) _ (x ∷ v)
