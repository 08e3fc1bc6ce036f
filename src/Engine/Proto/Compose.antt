-- ===== src/Engine/Proto/Compose.antt =====
-- Messages built by a chain of encoders, as the list of the fields that are written.
use koinos_evm_engine.Base.{
  ℕ, zero, suc, ◌+◌, ◌*◌, ◌^◌, ◌≤◌, length-append, ◌<◌, ◌≡◌, refl, sym, ap, ◌∙◌, Bool, true, false,
  List, [], ◌∷◌, ◌++◌, append_assoc, append-nil, length, All, arith,
}
use koinos_evm_engine.Base.Words.{Bytes, IsU64}
use koinos_evm_engine.Engine.Proto.{
  usize_limit, wire_varint, wire_length_delimited, encode_varint, encode_tag, encode_varint_field,
  encode_bool_field, encode_bytes_field, encode_submessage_field, varint, length_delimited, Field,
  fields,
}
use koinos_evm_engine.Engine.Proto.Fields.{
  IsFieldNumber, encode_field, IsWritten, encode_tag_eq, written_varint, written_bytes,
  encode_varint_field-append, encode_bytes_field-append, encode_submessage_field_eq,
}
use koinos_evm_engine.Engine.Proto.Varint.{encode_varint_shape}
use koinos_evm_engine.Engine.Proto.Messages.{encode_message, fields-encode_message}

-- A varint field, and a bytes field, that are left out at their default.
abbrev pub opt_varint : ℕ → ℕ → List Field
opt_varint f zero = []
opt_varint f (suc n) = (f, varint (suc n)) ∷ []

abbrev pub opt_bool : ℕ → Bool → List Field
opt_bool f true = (f, varint 1) ∷ []
opt_bool f false = []

abbrev pub opt_bytes : ℕ → Bytes → List Field
opt_bytes f [] = []
opt_bytes f (b ∷ bs) = (f, length_delimited (b ∷ bs)) ∷ []

encode_message-append :
    (xs ys : List Field) → encode_message (xs ++ ys) ≡ encode_message xs ++ encode_message ys
unfolding encode_message
encode_message-append [] ys = refl
encode_message-append (x ∷ xs) ys =
    ap (◌++◌ (encode_field [] x)) (encode_message-append xs ys)
    ∙ sym (append_assoc (encode_field [] x) (encode_message xs) (encode_message ys))

module _ (fs : List Field) (f : ℕ) where
  pub add_varint :
      (v : ℕ) → encode_varint_field (encode_message fs) f v ≡ encode_message (fs ++ opt_varint f v)
  unfolding encode_varint_field encode_message encode_field
  add_varint zero = ap encode_message (sym (append-nil fs))
  add_varint (suc n) =
      encode_varint_field-append (encode_message fs) f (suc n)
      ∙ ap (◌++◌ (encode_message fs)) (sym (append-nil (encode_varint_field [] f (suc n))))
      ∙ sym (encode_message-append fs ((f, varint (suc n)) ∷ []))

  pub add_bool :
      (b : Bool) → encode_bool_field (encode_message fs) f b ≡ encode_message (fs ++ opt_bool f b)
  unfolding encode_bool_field encode_varint_field encode_message encode_field
  add_bool false = ap encode_message (sym (append-nil fs))
  add_bool true =
      encode_varint_field-append (encode_message fs) f 1
      ∙ ap (◌++◌ (encode_message fs)) (sym (append-nil (encode_varint_field [] f 1)))
      ∙ sym (encode_message-append fs ((f, varint 1) ∷ []))

  pub add_bytes :
      (v : Bytes)
      → encode_bytes_field (encode_message fs) f v ≡ encode_message (fs ++ opt_bytes f v)
  unfolding encode_bytes_field encode_message encode_field
  add_bytes [] = ap encode_message (sym (append-nil fs))
  add_bytes (b ∷ bs) =
      encode_bytes_field-append (encode_message fs) f (b ∷ bs)
      ∙ ap (◌++◌ (encode_message fs)) (sym (append-nil (encode_bytes_field [] f (b ∷ bs))))
      ∙ sym (encode_message-append fs ((f, length_delimited (b ∷ bs)) ∷ []))

  pub add_submessage :
      (v : Bytes)
      → encode_submessage_field (encode_message fs) f v ≡ encode_message (fs ++ opt_bytes f v)
  add_submessage v = encode_submessage_field_eq (encode_message fs) f v ∙ add_bytes v

pub encode_message-nil : [] ≡ encode_message []
unfolding encode_message
encode_message-nil = refl

pub All-append {ℓ κ} :
    {A : Type ℓ} (P : A → Type κ) (xs ys : List A) → All P xs → All P ys → All P (xs ++ ys)
All-append P [] ys h k = k
All-append P (x ∷ xs) ys (hx, h) k = (hx, All-append P xs ys h k)

pub opt_varint-IsWritten : (f v : ℕ) → IsFieldNumber f → IsU64 v → All IsWritten (opt_varint f v)
opt_varint-IsWritten f zero hf hv = tt
opt_varint-IsWritten f (suc n) hf hv = ((hf, omega arith, hv), tt)

pub opt_bool-IsWritten : (f : ℕ) (b : Bool) → IsFieldNumber f → All IsWritten (opt_bool f b)
opt_bool-IsWritten f false hf = tt
opt_bool-IsWritten f true hf = ((hf, omega arith, omega arith), tt)

pub opt_bytes-IsWritten : (f : ℕ) (v : Bytes) → IsFieldNumber f → All IsWritten (opt_bytes f v)
opt_bytes-IsWritten f [] hf = tt
opt_bytes-IsWritten f (b ∷ bs) hf = ((hf, λ e. cc), tt)

-- A buffer that is known as a message is read back as its fields.
pub fields_of :
    {buf : Bytes} (fs : List Field)
    → buf ≡ encode_message fs
    → All IsWritten fs
    → length buf < usize_limit
    → fields buf ≡ fs
fields_of fs e h small = rw e (fields-encode_message fs h (omega (arith, ap length e)))

-- A tag takes ten bytes at most, and so does the varint behind it.
short_tag : (f w : ℕ) → f < 2 ^ 32 → w < 8 → length (encode_tag [] f w) ≤ 10
short_tag f w hf hw =
    rw (encode_tag_eq [] f w hf hw) ((encode_varint_shape (f * 8 + w) (omega arith)).2)

pub length-add_bytes-le :
    (buf : Bytes) (f : ℕ) (v : Bytes)
    → f < 2 ^ 32
    → IsU64 (length v)
    → length (encode_bytes_field buf f v) ≤ length buf + length v + 20
length-add_bytes-le buf f [] hf hv =
    rw (encode_bytes_field-append buf f [])
      (unfold encode_bytes_field in omega (arith, length-append buf []))
length-add_bytes-le buf f (b ∷ bs) hf hv = omega (
  arith,
  ap length (encode_bytes_field-append buf f (b ∷ bs)),
  length-append buf (encode_bytes_field [] f (b ∷ bs)),
  ap length (written_bytes f (b ∷ bs) (λ e. cc)),
  length-append (encode_tag [] f wire_length_delimited)
      (encode_varint [] (length (b ∷ bs)) ++ (b ∷ bs)),
  length-append (encode_varint [] (length (b ∷ bs))) (b ∷ bs),
  short_tag f wire_length_delimited hf (omega arith),
  (encode_varint_shape (length (b ∷ bs)) hv).2,
)

pub length-add_varint-le :
    (buf : Bytes) (f v : ℕ)
    → f < 2 ^ 32
    → IsU64 v
    → length (encode_varint_field buf f v) ≤ length buf + 20
length-add_varint-le buf f zero hf hv =
    rw (encode_varint_field-append buf f 0)
      (unfold encode_varint_field in omega (arith, length-append buf []))
length-add_varint-le buf f (suc n) hf hv = omega (
  arith,
  ap length (encode_varint_field-append buf f (suc n)),
  length-append buf (encode_varint_field [] f (suc n)),
  ap length (written_varint f (suc n) (omega arith)),
  length-append (encode_tag [] f wire_varint) (encode_varint [] (suc n)),
  short_tag f wire_varint hf (omega arith),
  (encode_varint_shape (suc n) hv).2,
)
