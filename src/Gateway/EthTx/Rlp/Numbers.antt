-- ===== src/Gateway/EthTx/Rlp/Numbers.antt =====
-- A number that the gateway writes into a signing payload is read back.
use koinos_evm_engine.Base.{
  ℕ, zero, suc, ◌+◌, ◌-◌, ◌*◌, ◌%◌, ◌^◌, ◌<◌, ◌≤◌, ◌≡◌, refl, true, ap, ◌∙◌, bit_or, false, ◌&&◌,
  some, Bool-cases, inl, inr, [], ◌∷◌, take_all, length, get_or, ◌==◌, leb, arith,
}
use koinos_evm_engine.Base.Words.{Bytes, IsU64, to_be, to_be-IsBytes}
use koinos_evm_engine.Gateway.EthTx.Rlp.{
  read_length, rlp_header, checked_add, rlp_decode_bytes, decode_u64, shift_in, strip_zeros,
  rlp_encode_u64,
}
use koinos_evm_engine.Gateway.EthTx.Rlp.Items.{
  read_length_eq, strip_zeros-IsBytes, be_onto-strip_to_be, strip_to_be_size,
}

shift_in_eq : (acc : ℕ) (bs : Bytes) → shift_in acc bs ≡ read_length acc bs
unfolding shift_in read_length
shift_in_eq acc [] = refl
shift_in_eq acc (b ∷ bs) = shift_in_eq (bit_or (acc * 2 ^ 8 % 2 ^ 64) b) bs

decode_short : (b : ℕ) → b < 0x80 → rlp_decode_bytes (b ∷ []) ≡ some (b ∷ [])
unfolding rlp_decode_bytes rlp_header
decode_short b h = ground arith

decode_long :
    (k : ℕ) (bytes : Bytes)
    → length bytes ≡ k
    → k ≤ 8
    → rlp_decode_bytes ((0x80 + k) ∷ bytes) ≡ some bytes
unfolding rlp_decode_bytes rlp_header checked_add
decode_long k bytes e h = ground (arith, take_all (0x80 + k - 0x80) bytes (omega (arith, e)))

decode_of :
    (x bytes : Bytes)
    → rlp_decode_bytes x ≡ some bytes
    → length bytes ≤ 8
    → decode_u64 x ≡ some (read_length 0 bytes)
unfolding decode_u64
decode_of x bytes e h = ground (arith, e, shift_in_eq 0 bytes)

one_byte :
    (bytes : Bytes)
    → length bytes ≡ 1
    → leb (get_or bytes 0 0) 0x7f ≡ true
    → rlp_decode_bytes bytes ≡ some bytes
one_byte [] one small = absurd (omega (arith, one))
one_byte (b ∷ []) one small = decode_short b (ground (arith, small))
one_byte (b ∷ c ∷ bs) one small = absurd (omega (arith, one))

zero_read : decode_u64 (rlp_encode_u64 0) ≡ some 0
unfolding rlp_encode_u64 decode_u64 rlp_decode_bytes rlp_header checked_add shift_in
zero_read = refl

-- The gateway's reader takes the number back out of the item that `rlp_encode_u64` makes of it.
pub decode_u64-rlp_encode_u64 : (n : ℕ) → IsU64 n → decode_u64 (rlp_encode_u64 n) ≡ some n
unfolding rlp_encode_u64
decode_u64-rlp_encode_u64 zero h = zero_read
decode_u64-rlp_encode_u64 (suc n) h =
    let bytes : Bytes = strip_zeros (to_be 8 (suc n)) in
    let sizes = strip_to_be_size (suc n) h (omega arith) in
    let value = be_onto-strip_to_be (suc n) h in
    let read =
      read_length_eq 0 bytes (strip_zeros-IsBytes (to_be 8 (suc n)) (to_be-IsBytes 8 (suc n)))
        (omega (arith, value, h)) in
    rw (not_zero n) (elim (Bool-cases (length bytes == 1 && leb (get_or bytes 0 0) 0x7f)) [
      | inl short ↦ rw short (
          decode_of bytes bytes (one_byte bytes (ground (arith, short)) (ground (arith, short)))
            sizes.1
          ∙ ap some (read ∙ value))
      | inr long ↦ rw long (
          decode_of ((0x80 + length bytes) ∷ bytes) bytes
            (decode_long (length bytes) bytes refl sizes.1) sizes.1
          ∙ ap some (read ∙ value))
    ])
  where
    not_zero : (n : ℕ) → (suc n == 0) ≡ false
    not_zero n = ground arith
