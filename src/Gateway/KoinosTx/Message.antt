-- ===== src/Gateway/KoinosTx/Message.antt =====
-- The relayed transaction as a message, and the operator's nonce as it is read back.
use koinos_evm_engine.Base.{
  ℕ, zero, suc, ◌+◌, ◌*◌, ◌%◌, ◌^◌, ◌<◌, ◌≡◌, ◌≢◌, refl, sym, ap, ◌∙◌, none, List, [], ◌∷◌, ◌++◌,
  map, length, take, take_all, drop, length-append, is_empty, ◌==◌, if◌then◌else◌, All, arith,
}
use koinos_evm_engine.Base.Words.{Bytes}
use koinos_evm_engine.Engine.Proto.{
  usize_limit, encode_varint_field, wire_varint, Field, encode_tag, varint, encode_bytes_field,
  fields,
}
use koinos_evm_engine.Engine.Proto
use koinos_evm_engine.Engine.Proto.Fields.{IsWritten, encode_tag_eq}
use koinos_evm_engine.Engine.Proto.Messages.{encode_message}
use koinos_evm_engine.Engine.Proto.Compose.{
  opt_varint, opt_bytes, add_varint, add_bytes, encode_message-nil, All-append, opt_bytes-IsWritten,
  opt_varint-IsWritten, length-add_varint-le,
}
use koinos_evm_engine.Gateway.EngineProto
use koinos_evm_engine.Gateway.EngineProto.{
  Result, ok, ◌>>=!◌, ProtoField, write_varint, write_given, items, items_from, read_varint,
  next_by_type,
}
use koinos_evm_engine.Gateway.EngineProto.Write.{write_varint_eq, write_bytes_field_eq}
use koinos_evm_engine.Gateway.EngineProto.Read.{as_item}
use koinos_evm_engine.Gateway.EngineProto.Agree.{items_of}
use koinos_evm_engine.Gateway.KoinosTx.{
  write_uint64_field, write_bytes_field, encode_nonce, encode_transaction_header,
  encode_transaction, Signer, RelayedTx, sha256_multihash, sign_digest_compact, build_relayed_tx,
  encode_call_contract_operation, encode_operation_call_contract, uint64_value, next_operator_nonce,
}

pub add_bytes_field :
    (fs : List Field) (f : ℕ) (v : Bytes)
    → f < 2 ^ 29
    → v ≢ []
    → write_bytes_field (encode_message fs) f v ≡ encode_message (fs ++ opt_bytes f v)
add_bytes_field fs f v hf h = write_bytes_field_eq (encode_message fs) f v hf h ∙ add_bytes fs f v

uint64_field_eq :
    (out : Bytes) (f n : ℕ)
    → f < 2 ^ 29
    → write_uint64_field out f (suc n) ≡ encode_varint_field out f (suc n)
unfolding write_uint64_field encode_varint_field
uint64_field_eq out f n hf =
    write_varint_eq _ (suc n)
    ∙ ap (λ (o : Bytes). Proto.encode_varint o (suc n))
        (write_varint_eq out _
          ∙ ap (Proto.encode_varint out) tag
          ∙ sym (encode_tag_eq out f wire_varint (omega arith) (omega arith)))
    ∙ stays
  where
    tag : f * 2 ^ 3 % 2 ^ 32 ≡ f * 8 + 0
    tag = omega arith

    stays :
        Proto.encode_varint (encode_tag out f wire_varint) (suc n)
        ≡ (if suc n == 0 then out else Proto.encode_varint (encode_tag out f wire_varint) (suc n))
    stays = ground arith

nonce_field : (n : ℕ) → encode_nonce (suc n) ≡ encode_varint_field [] 5 (suc n)
unfolding encode_nonce
nonce_field n = uint64_field_eq [] 5 n (omega arith)

nonce_message : (n : ℕ) → encode_nonce (suc n) ≡ encode_message (opt_varint 5 (suc n))
nonce_message n =
    nonce_field n
    ∙ ap (λ (b : Bytes). encode_varint_field b 5 (suc n)) encode_message-nil
    ∙ add_varint [] 5 (suc n)

nonce_size : (n : ℕ) → suc n < 2 ^ 64 → length (encode_nonce (suc n)) < usize_limit
nonce_size n h =
    omega (arith, ap length (nonce_field n), length-add_varint-le [] 5 (suc n) (omega arith) h)

-- The nonce of a `value_type` is written even where it is 0.
zero_nonce : next_operator_nonce (encode_nonce 0) ≡ ok 1
unfolding next_operator_nonce encode_nonce write_uint64_field write_varint uint64_value items
    items_from EngineProto.next read_varint next_by_type EngineProto.read_varint_loop
zero_nonce = refl

-- The gateway reads back the nonce that `encode_nonce` wrote, and takes the one after it.
pub next_operator_nonce-encode_nonce :
    (n : ℕ) → n + 1 < 2 ^ 64 → next_operator_nonce (encode_nonce n) ≡ ok (n + 1)
unfolding next_operator_nonce uint64_value
next_operator_nonce-encode_nonce zero h = zero_nonce
next_operator_nonce-encode_nonce (suc n) h =
    ap (λ (r : Result (List ProtoField)). r >>=! λ fs. ok ((uint64_value 0 fs + 1) % 2 ^ 64))
      (items_of (opt_varint 5 (suc n)) (nonce_message n)
        (opt_varint-IsWritten 5 (suc n) (omega arith) (omega arith)) (nonce_size n (omega arith)))
    ∙ ap ok (omega arith)

cons_ne : {x : ℕ} {xs : Bytes} → (x ∷ xs) ≢ []
cons_ne e = cc

written_ne : (out : Bytes) (f : ℕ) (v : Bytes) → v ≢ [] → write_bytes_field out f v ≢ []
unfolding EngineProto.write_bytes_field
written_ne out f [] h e = h refl
written_ne out f (b ∷ bs) h e = omega (
  arith,
  ap length e,
  length-append (write_varint (write_varint out (EngineProto.field_tag f 2)) (length (b ∷ bs)))
      (b ∷ bs),
)

abbrev tx_fields : Bytes → Bytes → Bytes → Bytes → List Field
tx_fields id header op sig =
    ((opt_bytes 1 id ++ opt_bytes 2 header) ++ opt_bytes 3 op) ++ opt_bytes 4 sig

tx_message :
    (id header op sig : Bytes)
    → id ≢ []
    → header ≢ []
    → op ≢ []
    → sig ≢ []
    → encode_transaction id header op sig ≡ encode_message (tx_fields id header op sig)
unfolding encode_transaction
tx_message id header op sig hi hh ho hs =
    ap
      (λ (b : Bytes).
        write_bytes_field
          (write_bytes_field (write_bytes_field (write_bytes_field b 1 id) 2 header) 3 op) 4 sig)
      encode_message-nil
    ∙ ap
        (λ (b : Bytes).
          write_bytes_field (write_bytes_field (write_bytes_field b 2 header) 3 op) 4 sig)
        (add_bytes_field [] 1 id (omega arith) hi)
    ∙ ap (λ (b : Bytes). write_bytes_field (write_bytes_field b 3 op) 4 sig)
        (add_bytes_field (opt_bytes 1 id) 2 header (omega arith) hh)
    ∙ ap (λ (b : Bytes). write_bytes_field b 4 sig)
        (add_bytes_field (opt_bytes 1 id ++ opt_bytes 2 header) 3 op (omega arith) ho)
    ∙ add_bytes_field ((opt_bytes 1 id ++ opt_bytes 2 header) ++ opt_bytes 3 op) 4 sig (omega arith)
        hs

tx_fields-IsWritten : (id header op sig : Bytes) → All IsWritten (tx_fields id header op sig)
tx_fields-IsWritten id header op sig =
    All-append IsWritten ((opt_bytes 1 id ++ opt_bytes 2 header) ++ opt_bytes 3 op)
      (opt_bytes 4 sig)
      (All-append IsWritten (opt_bytes 1 id ++ opt_bytes 2 header) (opt_bytes 3 op)
        (All-append IsWritten (opt_bytes 1 id) (opt_bytes 2 header)
          (opt_bytes-IsWritten 1 id (omega arith)) (opt_bytes-IsWritten 2 header (omega arith)))
        (opt_bytes-IsWritten 3 op (omega arith)))
      (opt_bytes-IsWritten 4 sig (omega arith))

-- A length-delimited field as the gateway's reader gives it.
abbrev pub bytes_item : ℕ → Bytes → ProtoField
bytes_item f v = record { field = f; wtype = 2; payload = v; varint = 0 }

opt_bytes_items : (f : ℕ) (v : Bytes) → v ≢ [] → map as_item (opt_bytes f v) ≡ bytes_item f v ∷ []
opt_bytes_items f [] h = absurd (h refl)
opt_bytes_items f (b ∷ bs) h = refl

-- The four fields of a transaction, each of them not empty, are read back in their order.
items-encode_transaction :
    (id header op sig : Bytes)
    → id ≢ []
    → header ≢ []
    → op ≢ []
    → sig ≢ []
    → length (encode_transaction id header op sig) < usize_limit
    → items (encode_transaction id header op sig)
      ≡ ok (bytes_item 1 id ∷ bytes_item 2 header ∷ bytes_item 3 op ∷ bytes_item 4 sig ∷ [])
items-encode_transaction [] header op sig hi hh ho hs small = absurd (hi refl)
items-encode_transaction (i ∷ is) [] op sig hi hh ho hs small = absurd (hh refl)
items-encode_transaction (i ∷ is) (h ∷ ht) [] sig hi hh ho hs small = absurd (ho refl)
items-encode_transaction (i ∷ is) (h ∷ ht) (o ∷ os) [] hi hh ho hs small = absurd (hs refl)
items-encode_transaction (i ∷ is) (h ∷ ht) (o ∷ os) (s ∷ ss) hi hh ho hs small =
    items_of _ (tx_message (i ∷ is) (h ∷ ht) (o ∷ os) (s ∷ ss) hi hh ho hs)
      (tx_fields-IsWritten (i ∷ is) (h ∷ ht) (o ∷ os) (s ∷ ss)) small

call_ne :
    (called args : Bytes)
    → args ≢ []
    → (if is_empty args then called else write_bytes_field called 3 args) ≢ []
call_ne called [] h = absurd (h refl)
call_ne called (a ∷ args) h = written_ne called 3 (a ∷ args) h

module _ (signer : Signer) (chain_id : Bytes) (rc_limit : ℕ) (payer : Bytes) (nonce : ℕ)
    (contract : Bytes) (entry_point : ℕ) (raw : Bytes) where
  abbrev relayed : RelayedTx
  relayed = build_relayed_tx signer chain_id rc_limit payer nonce contract entry_point raw

  -- The header of the transaction names the root of its operation.
  abbrev pub relayed_header : Bytes
  relayed_header = encode_transaction_header (record {
    chain_id_multihash = chain_id;
    rc_limit = rc_limit;
    nonce_bytes = encode_nonce nonce;
    operation_merkle_root_multihash = sha256_multihash signer relayed.operation_bytes;
    payer_20 = payer;
    payee_20 = none;
  })

  header_ne : payer ≢ [] → relayed_header ≢ []
  unfolding encode_transaction_header write_given
  header_ne h = written_ne _ 5 payer h

  operation_ne : raw ≢ [] → relayed.operation_bytes ≢ []
  unfolding build_relayed_tx encode_operation_call_contract encode_call_contract_operation
  operation_ne h = written_ne [] 2 _ (call_ne _ _ (written_ne [] 1 raw h))

  -- The transaction that `build_relayed_tx` builds is read back as its id, its header, its operation
  -- and its signature; its id is the multihash of that header, and the signature is that of the id,
  -- if payer and raw transaction are not empty and the message fits the memory.
  pub items-build_relayed_tx :
      payer ≢ []
      → raw ≢ []
      → length relayed.transaction_bytes < usize_limit
      → (items relayed.transaction_bytes
          ≡ ok (
              bytes_item 1 relayed.tx_id_multihash
              ∷ bytes_item 2 relayed_header
              ∷ bytes_item 3 relayed.operation_bytes
              ∷ bytes_item 4 relayed.signature
              ∷ []))
        × (relayed.tx_id_multihash ≡ sha256_multihash signer relayed_header)
        × (relayed.signature ≡ sign_digest_compact signer (signer.digest relayed_header))
        × (length relayed.tx_id_multihash ≡ 34)
  unfolding build_relayed_tx
  items-build_relayed_tx hp hr small = (
    items-encode_transaction _ _ _ _ multihash_ne (header_ne hp) (operation_ne hr) signature_ne
        small,
    refl,
    ap (sign_digest_compact signer) digest_of,
    multihash_size,
  )
    where
      multihash_ne : relayed.tx_id_multihash ≢ []
      multihash_ne = unfold sha256_multihash in cons_ne

      signature_ne : relayed.signature ≢ []
      signature_ne = unfold sign_digest_compact in cons_ne

      digest_of :
          take 32 (drop 2 (sha256_multihash signer relayed_header)) ≡ signer.digest relayed_header
      digest_of =
          unfold sha256_multihash in
          take_all 32 (signer.digest relayed_header) (signer.length-digest relayed_header)

      multihash_size : length relayed.tx_id_multihash ≡ 34
      multihash_size = unfold sha256_multihash in omega (arith, signer.length-digest relayed_header)
