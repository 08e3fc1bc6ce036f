-- ===== src/Engine/Tx/Accepts.antt =====
-- What holds of every transaction that the parser accepts.
use koinos_evm_engine.Base.{
  ℕ, ◌+◌, ◌^◌, ◌≤◌, ◌<◌, ◌≡◌, refl, ap, ◌∙◌, Bool-cases, inl, inr, ◌⊎◌, none, some, List, [], ◌∷◌,
  length, take, drop, length-take, length-drop, ltb, leb, leb→le, ◌==◌, if◌then◌else◌, arith,
}
use mathlib.Core.Path.{subst}
use koinos_evm_engine.Base.Words.{Bytes}
use koinos_evm_engine.Engine.Sys.{hash}
use koinos_evm_engine.Engine.Koinos.{hash_keccak_256, Host, Outcome, returned, exited, pure, go_on}
use koinos_evm_engine.Engine.Database.{Primitives}
use koinos_evm_engine.Engine.Tx.{
  TxParseError, TxResult, ok, err, ◌>>!◌, Rlp, ParsedTx, secp256k1_n, secp256k1_n_half, pubkey_xy,
  classify_v, validate_signature, guard, item_at,
}
use koinos_evm_engine.Engine.Tx.Fields.{
  outer_items, decode_bytes, decode_word, decode_u256, decode_to, check_access_list, legacy_fields,
  eip1559_fields,
}
use koinos_evm_engine.Engine.Tx.Sender.{
  keccak256, address_of, recover_sender, sign_hash, sign_off, sign_legacy, sign_eip1559,
  parse_legacy, parse_eip1559, parse_raw_tx,
}
use koinos_evm_engine.Engine.Tx.Inverse.{
  after, ok_inj, guard-eq-ok, validate_signature_iff, classify_v_iff, GivesBytes, decode_word-value,
  decode_to-eq-ok,
}

-- What the engine relies on in a transaction that it runs.
pub record IsValid (tx : ParsedTx) : Type 0 where
  pub chain : (c : ℕ) × (tx.chain_id ≡ some c) × (c < 2 ^ 64)
  pub nonce_word : tx.nonce < 2 ^ 64
  pub gas_word : tx.gas_limit < 2 ^ 64
  pub fees : tx.max_priority_fee_per_gas ≤ tx.max_fee_per_gas
  pub fee_word : tx.max_fee_per_gas < 2 ^ 128
  pub to_address :
      (tx.to ≡ none) ⊎ ((address : Bytes) × (tx.to ≡ some address) × (length address ≡ 20))
  pub r_range : (0 < tx.r) × (tx.r < secp256k1_n)
  pub low_s : (0 < tx.s) × (tx.s ≤ secp256k1_n_half)
  pub parity : tx.y_parity ≤ 1

-- A parsed transaction with its sender, an address.
pub record IsSigned (tx : ParsedTx) : Type 0 where
  pub valid : IsValid tx
  pub sender_address : length tx.sender ≡ 20

module _ (rlp : Rlp) (p : Primitives) (given : GivesBytes rlp p) where
  word : (size : ℕ) (item : Bytes) (n : ℕ) → decode_word rlp p size item ≡ ok n → n < 256 ^ size
  word size item n h = (decode_word-value rlp p given size item n h).1

  legacy_fields-IsValid :
      (raw : Bytes) (items : List Bytes) (tx : ParsedTx)
      → legacy_fields rlp p raw ≡ ok (items, tx)
      → IsValid tx
  unfolding legacy_fields
  legacy_fields-IsValid raw items tx h0 = after (outer_items rlp p 9 raw) h0 λ its e_items h1.
      after (decode_word rlp p 8 (item_at its 0)) h1 λ nonce e_nonce h2.
        after (decode_word rlp p 16 (item_at its 1)) h2 λ price e_price h3.
          after (decode_word rlp p 8 (item_at its 2)) h3 λ gas e_gas h4.
            after (decode_to rlp p (item_at its 3)) h4 λ to e_to h5.
              after (decode_u256 rlp p (item_at its 4)) h5 λ value e_value h6.
                after (decode_bytes rlp p (item_at its 5)) h6 λ input e_input h7.
                  after (decode_word rlp p 8 (item_at its 6)) h7 λ v e_v h8.
                    after (decode_u256 rlp p (item_at its 7)) h8 λ r e_r h9.
                      after (decode_u256 rlp p (item_at its 8)) h9 λ s e_s h10.
                        after (classify_v v) h10 λ (chain_id, y_parity) e_c h11.
                          after (validate_signature r s y_parity) h11 λ u e_sig h12.
                            let (r0, rn, s0, sn, y1) =
                              (validate_signature_iff r s y_parity).0 e_sig in
                            let (ev, ep) = (classify_v_iff v chain_id y_parity).0 e_c in
                            let small : chain_id < 2 ^ 64 = omega (arith, word 8 _ v e_v) in
                            let same : price ≤ price = omega arith in
                            subst IsValid (ap (λ (x : List Bytes × ParsedTx). x.1) (ok_inj h12))
                              (record {
                                chain = (chain_id, refl, small);
                                nonce_word = word 8 _ nonce e_nonce;
                                gas_word = word 8 _ gas e_gas;
                                fees = same;
                                fee_word = word 16 _ price e_price;
                                to_address = decode_to-eq-ok rlp p _ to e_to;
                                r_range = (r0, rn);
                                low_s = (s0, sn);
                                parity = y1;
                              })

  eip1559_fields-IsValid :
      (payload : Bytes) (items : List Bytes) (tx : ParsedTx)
      → eip1559_fields rlp p payload ≡ ok (items, tx)
      → IsValid tx
  unfolding eip1559_fields
  eip1559_fields-IsValid payload items tx h0 =
      after (outer_items rlp p 12 payload) h0 λ its e_items h1.
        after (decode_word rlp p 8 (item_at its 0)) h1 λ chain_id e_chain h2.
          after (decode_word rlp p 8 (item_at its 1)) h2 λ nonce e_nonce h3.
            after (decode_word rlp p 16 (item_at its 2)) h3 λ priority e_priority h4.
              after (decode_word rlp p 16 (item_at its 3)) h4 λ fee e_fee h5.
                after (guard (leb priority fee) TxParseError.invalid_fee_ordering) h5
                  λ u e_order h6. after (decode_word rlp p 8 (item_at its 4)) h6 λ gas e_gas h7.
                    after (decode_to rlp p (item_at its 5)) h7 λ to e_to h8.
                      after (decode_u256 rlp p (item_at its 6)) h8 λ value e_value h9.
                        after (decode_bytes rlp p (item_at its 7)) h9 λ input e_input h10.
                          after (check_access_list rlp p (item_at its 8)) h10 λ u1 e_list h11.
                            after (decode_word rlp p 8 (item_at its 9)) h11 λ y_parity e_y h12.
                              after (decode_u256 rlp p (item_at its 10)) h12 λ r e_r h13.
                                after (decode_u256 rlp p (item_at its 11)) h13 λ s e_s h14.
                                  after
                                    (guard (leb y_parity 1) TxParseError.invalid_signature
                                      >>! validate_signature r s y_parity)
                                    h14
                                    λ u2 e_both h16.
                                      after (guard (leb y_parity 1) TxParseError.invalid_signature)
                                        e_both
                                        λ u3 e_bit e_sig.
                                          let (r0, rn, s0, sn, y1) =
                                            (validate_signature_iff r s y_parity).0 e_sig in
                                          subst IsValid
                                            (ap (λ (x : List Bytes × ParsedTx). x.1) (ok_inj h16))
                                            (record {
                                              chain = (chain_id, refl, word 8 _ chain_id e_chain);
                                              nonce_word = word 8 _ nonce e_nonce;
                                              gas_word = word 8 _ gas e_gas;
                                              fees = leb→le priority fee (guard-eq-ok _ _ e_order);
                                              fee_word = word 16 _ fee e_fee;
                                              to_address = decode_to-eq-ok rlp p _ to e_to;
                                              r_range = (r0, rn);
                                              low_s = (s0, sn);
                                              parity = y1;
                                            })

  with_sender : (tx : ParsedTx) (a : Bytes) → IsValid tx → IsValid (record tx { sender = a })
  with_sender tx a v = record {
    chain = v.chain;
    nonce_word = v.nonce_word;
    gas_word = v.gas_word;
    fees = v.fees;
    fee_word = v.fee_word;
    to_address = v.to_address;
    r_range = v.r_range;
    low_s = v.low_s;
    parity = v.parity;
  }

  module _ (host : Host) where
    -- What follows a step of a run that came back.
    came {ℓ κ μ} :
        {A : Type ℓ} {B : Type κ} {C : Type μ} (r : Outcome A × host.World)
        {f : A → host.World → Outcome B × host.World} {b : B} {w : host.World}
        → go_on r f ≡ (returned b, w)
        → ((a : A) (v : host.World) → r ≡ (returned a, v) → f a v ≡ (returned b, w) → C)
        → C
    came (returned a, v) h k = k a v refl h
    came (exited args, v) h k = cc

    address_length :
        (multihash sender : Bytes)
        → (if ltb (length multihash) 34
            then err TxParseError.hash_failure
            else ok (take 20 (drop (2 + 12) multihash)))
          ≡ ok sender
        → length sender ≡ 20
    address_length multihash sender h =
        ground (arith, length-take 20 (drop 14 multihash), length-drop 14 multihash)

    value_of :
        {A : Type 0} {a b : A} {v w : host.World}
        → pure {W = host.World} a v ≡ pure {W = host.World} b w
        → a ≡ b
    value_of {a = a} h =
        ap (λ (x : Outcome _ × host.World). elim x.0 [ returned y ↦ y | exited z ↦ a ]) h

    address_of-length :
        (xy : TxResult Bytes) (sender : Bytes) (w w' : host.World)
        → address_of rlp p host xy w ≡ (returned (ok sender), w')
        → length sender ≡ 20
    unfolding address_of
    address_of-length (err e) sender w w' h = cc
    address_of-length (ok xy) sender w w' h =
        came (hash host hash_keccak_256 xy w) h
          λ multihash v step e. address_length multihash sender (value_of e)

    recover_sender-length :
        (msg_hash : Bytes) (r s y_parity : ℕ) (sender : Bytes) (w w' : host.World)
        → recover_sender rlp p host msg_hash r s y_parity w ≡ (returned (ok sender), w')
        → length sender ≡ 20
    unfolding recover_sender
    recover_sender-length msg_hash r s y_parity sender w w' h =
        came _ h λ pubkey v step e. address_of-length (pubkey_xy pubkey) sender v w' e

    sign_hash-IsSigned :
        (tx0 tx : ParsedTx) (hashed : TxResult Bytes) (w w' : host.World)
        → IsValid tx0
        → sign_hash rlp p host tx0 hashed w ≡ (returned (ok tx), w')
        → IsSigned tx
    unfolding sign_hash
    sign_hash-IsSigned tx0 tx (err e) w w' valid h = cc
    sign_hash-IsSigned tx0 tx (ok m) w w' valid h =
        came (recover_sender rlp p host m tx0.r tx0.s tx0.y_parity w) h λ sender v step e.
          after sender (value_of e) λ a got e2. subst IsSigned (ok_inj e2) (record {
            valid = with_sender tx0 a valid;
            sender_address =
                recover_sender-length m tx0.r tx0.s tx0.y_parity a w v
                  (step ∙ ap (λ (z : TxResult Bytes). pure {W = host.World} z v) got);
          })

    sign_off-IsSigned :
        (preimage : Bytes) (tx0 tx : ParsedTx) (w w' : host.World)
        → IsValid tx0
        → sign_off rlp p host preimage tx0 w ≡ (returned (ok tx), w')
        → IsSigned tx
    unfolding sign_off
    sign_off-IsSigned preimage tx0 tx w w' valid h =
        came (keccak256 rlp p host preimage w) h
          λ hashed v step e. sign_hash-IsSigned tx0 tx hashed v w' valid e

    unsupported :
        {t : TxParseError} {tx : ParsedTx} {w w' : host.World}
        → pure {W = host.World} (TxResult.err t) w ≡ pure (TxResult.ok tx) w'
        → IsSigned tx
    unsupported h = absurd (err_is_not_ok (value_of h))
      where
        err_is_not_ok : {t : TxParseError} {tx : ParsedTx} → ¬ (TxResult.err t ≡ TxResult.ok tx)
        err_is_not_ok h = cc

    legacy-IsSigned :
        (parsed : TxResult (List Bytes × ParsedTx)) (tx : ParsedTx) (w w' : host.World)
        → ((items : List Bytes) (tx0 : ParsedTx) → parsed ≡ ok (items, tx0) → IsValid tx0)
        → sign_legacy rlp p host parsed w ≡ (returned (ok tx), w')
        → IsSigned tx
    unfolding sign_legacy
    legacy-IsSigned (err e) tx w w' valid h = cc
    legacy-IsSigned (ok (items, tx0)) tx w w' valid h =
        sign_off-IsSigned _ tx0 tx w w' (valid items tx0 refl) h

    eip1559-IsSigned :
        (parsed : TxResult (List Bytes × ParsedTx)) (tx : ParsedTx) (w w' : host.World)
        → ((items : List Bytes) (tx0 : ParsedTx) → parsed ≡ ok (items, tx0) → IsValid tx0)
        → sign_eip1559 rlp p host parsed w ≡ (returned (ok tx), w')
        → IsSigned tx
    unfolding sign_eip1559
    eip1559-IsSigned (err e) tx w w' valid h = cc
    eip1559-IsSigned (ok (items, tx0)) tx w w' valid h =
        sign_off-IsSigned _ tx0 tx w w' (valid items tx0 refl) h

    -- A transaction that is accepted, in either format, has a chain id, its integers fit their
    -- words, its priority fee is at most its fee, `to` is no address or one of 20 bytes, `r` and `s`
    -- are in the range of the curve with a low `s`, the parity is a bit, and its sender has 20 bytes.
    pub parse_raw_tx-IsSigned :
        (raw : Bytes) (tx : ParsedTx) (w w' : host.World)
        → parse_raw_tx rlp p host raw w ≡ (returned (ok tx), w')
        → IsSigned tx
    unfolding parse_raw_tx parse_legacy parse_eip1559
    parse_raw_tx-IsSigned [] tx w w' h = cc
    parse_raw_tx-IsSigned (first ∷ rest) tx w w' h = elim (Bool-cases (leb 0xc0 first)) [
      | inl e ↦
          legacy-IsSigned (legacy_fields rlp p (first ∷ rest)) tx w w'
            (legacy_fields-IsValid (first ∷ rest)) (rw e at h)
      | inr e ↦ elim (Bool-cases (first == 0x02)) [
        | inl e2 ↦
            eip1559-IsSigned (eip1559_fields rlp p rest) tx w w' (eip1559_fields-IsValid rest)
              (rw e2 at (rw e at h))
        | inr e2 ↦ unsupported (rw e2 at (rw e at h))
      ]
    ]
