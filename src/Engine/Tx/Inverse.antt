-- ===== src/Engine/Tx/Inverse.antt =====
-- What a success of the parser's steps says of their arguments.
use koinos_evm_engine.Base.{
  ℕ, ◌+◌, ◌*◌, ◌^◌, ◌≤◌, ◌<◌, ◌≡◌, refl, ap, ◌∙◌, Bool, true, false, inl, inr, ◌⊎◌, ◌↔◌, Option,
  none, some, Option-cases, length, ltb, if◌then◌else◌, arith,
}
use koinos_evm_engine.Base.Words.{Bytes, IsBytes, be_value}
use koinos_evm_engine.Engine.Database.{Primitives}
use koinos_evm_engine.Engine.Tx.{
  TxParseError, TxResult, ok, err, ◌>>=!◌, ◌>>!◌, guard, Rlp, check_canonical, shift_in, classify_v,
  validate_signature, secp256k1_n, secp256k1_n_half,
}
use koinos_evm_engine.Engine.Tx.Fields.{decode_bytes, decode_word, decode_to}
use koinos_evm_engine.Engine.Tx.Words.{shift_in_value, be_value_bound, pow_mono}

pub >>=!-eq-ok {ℓ κ} :
    {A : Type ℓ} {B : Type κ} (m : TxResult A) (f : A → TxResult B) {b : B}
    → (m >>=! f) ≡ ok b
    → (a : A) × (m ≡ ok a) × (f a ≡ ok b)
>>=!-eq-ok (err e) f h = cc
>>=!-eq-ok (ok a) f h = (a, refl, h)

pub >>!-eq-ok {ℓ} :
    {B : Type ℓ} (m : TxResult (Unit {0})) (k : TxResult B) {b : B}
    → (m >>! k) ≡ ok b
    → (m ≡ ok tt) × (k ≡ ok b)
>>!-eq-ok (err e) k h = cc
>>!-eq-ok (ok u) k h = (refl, h)

-- The same, for a chain of steps: what follows has the value, and the two equations.
pub after {ℓ κ μ} :
    {A : Type ℓ} {B : Type κ} {C : Type μ} (m : TxResult A) {f : A → TxResult B} {b : B}
    → (m >>=! f) ≡ ok b
    → ((a : A) → m ≡ ok a → f a ≡ ok b → C)
    → C
after (err e) h k = cc
after (ok a) h k = k a refl h

pub ok_inj {ℓ} : {A : Type ℓ} {a b : A} → TxResult.ok a ≡ ok b → a ≡ b
ok_inj {a = a} h = ap (λ (r : TxResult _). elim r [ ok x ↦ x | err e ↦ a ]) h

pub guard-eq-ok : (b : Bool) (e : TxParseError) → guard b e ≡ ok tt → b ≡ true
guard-eq-ok true e h = refl
guard-eq-ok false e h = cc

-- A signature is accepted exactly where r is in [1, n), s in [1, n/2], and the parity a bit.
pub validate_signature_iff :
    (r s y_parity : ℕ)
    → (validate_signature r s y_parity ≡ ok tt)
      ↔ ((0 < r) × (r < secp256k1_n) × (0 < s) × (s ≤ secp256k1_n_half) × (y_parity ≤ 1))
unfolding validate_signature
validate_signature_iff r s y_parity = ground arith

-- A legacy `v` is taken as a chain id and a parity exactly where it is 35 + 2 * chain id + parity with
-- a parity of at most 1; every other `v` is rejected.
pub classify_v_iff :
    (v chain_id y_parity : ℕ)
    → (classify_v v ≡ ok (chain_id, y_parity))
      ↔ ((v ≡ 35 + 2 * chain_id + y_parity) × (y_parity ≤ 1))
unfolding classify_v
classify_v_iff v chain_id y_parity = ground arith

module _ (rlp : Rlp) (p : Primitives) where
  pub decode_bytes-eq-ok :
      (item bytes : Bytes) → decode_bytes rlp p item ≡ ok bytes → rlp.decode_bytes item ≡ some bytes
  unfolding decode_bytes
  decode_bytes-eq-ok item bytes h = elim (Option-cases (rlp.decode_bytes item)) [
    | inl e ↦ ground (arith, e)
    | inr (b, e) ↦ ground (arith, e)
  ]

  sized :
      (size n : ℕ) (bytes : Bytes)
      → (if ltb size (length bytes)
          then err TxParseError.scalar_too_large
          else ok (shift_in (size * 8) 0 bytes))
        ≡ ok n
      → (length bytes ≤ size) × (n ≡ shift_in (size * 8) 0 bytes)
  sized size n bytes h = ground arith

  -- What a successful reading of an integer says of its payload.
  decode_word-eq-ok :
      (size : ℕ) (item : Bytes) (n : ℕ)
      → decode_word rlp p size item ≡ ok n
      → (bytes : Bytes) × (rlp.decode_bytes item ≡ some bytes)
        × (check_canonical bytes ≡ ok tt)
        × (length bytes ≤ size)
        × (n ≡ shift_in (size * 8) 0 bytes)
  unfolding decode_word
  decode_word-eq-ok size item n h =
      let (bytes, read, h1) = >>=!-eq-ok (decode_bytes rlp p item) _ h in
      let (canonical, h2) = >>!-eq-ok (check_canonical bytes) _ h1 in
      let (fits, value) = sized size n bytes h2 in
      (bytes, decode_bytes-eq-ok item bytes read, canonical, fits, value)

  -- The bytes that the decoder hands over are bytes.
  abbrev pub GivesBytes : Type 0
  GivesBytes = (item bytes : Bytes) → rlp.decode_bytes item ≡ some bytes → IsBytes bytes

  module _ (given : GivesBytes) where
    -- An integer that is read is the number that its payload stands for, and fits the word.
    pub decode_word-value :
        (size : ℕ) (item : Bytes) (n : ℕ)
        → decode_word rlp p size item ≡ ok n
        → ((bytes : Bytes) × (rlp.decode_bytes item ≡ some bytes) × (n ≡ be_value bytes))
          × (n < 256 ^ size)
    decode_word-value size item n h =
        let (bytes, read, canonical, fits, value) = decode_word-eq-ok size item n h in
        let is = given item bytes read in
        let e = value ∙ shift_in_value size bytes is fits in
        (
          (bytes, read, e),
          omega (arith, e, be_value_bound bytes is, pow_mono (length bytes) size fits),
        )

  pub decode_to-eq-ok :
      (item : Bytes) (to : Option Bytes)
      → decode_to rlp p item ≡ ok to
      → (to ≡ none) ⊎ ((address : Bytes) × (to ≡ some address) × (length address ≡ 20))
  unfolding decode_to
  decode_to-eq-ok item to h =
      let (bytes, read, h1) = >>=!-eq-ok (decode_bytes rlp p item) _ h in ground arith
