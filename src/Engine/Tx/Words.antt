-- ===== src/Engine/Tx/Words.antt =====
-- The integers of a transaction: `decode_u64`, `decode_u128`, `decode_u256` and `check_canonical`.
use koinos_evm_engine.Base.{
  ℕ, zero, suc, ◌+◌, ◌*◌, ◌^◌, ◌≤◌, ◌<◌, ◌≡◌, refl, ap, [], ◌∷◌, length, arith,
}
use koinos_evm_engine.Base.Words.{Bytes, IsBytes, be_onto, be_value, shift_in_byte}
use koinos_evm_engine.Engine.Tx.{shift_in}
use native.Mathlib.Nat.{pow-suc, pow-le-pow_right, mod-eq_of_lt}

pow_eq : (b i j : ℕ) → i ≡ j → b ^ i ≡ b ^ j
pow_eq b i j e = ap (λ (n : ℕ). b ^ n) e

-- A word of `size` bytes.
word_size : (size : ℕ) → 2 ^ (size * 8) ≡ 256 ^ size
word_size zero = refl
word_size (suc n) = omega (
  arith,
  pow_eq 2 (suc n * 8) (suc (suc (suc (suc (suc (suc (suc (suc (n * 8))))))))) (omega arith),
  pow-suc 2 (n * 8),
  pow-suc 2 (suc (n * 8)),
  pow-suc 2 (suc (suc (n * 8))),
  pow-suc 2 (suc (suc (suc (n * 8)))),
  pow-suc 2 (suc (suc (suc (suc (n * 8))))),
  pow-suc 2 (suc (suc (suc (suc (suc (n * 8)))))),
  pow-suc 2 (suc (suc (suc (suc (suc (suc (n * 8))))))),
  pow-suc 2 (suc (suc (suc (suc (suc (suc (suc (n * 8)))))))),
  pow-suc 256 n,
  word_size n,
)

pub be_onto_bound :
    (acc k : ℕ) (bs : Bytes) → IsBytes bs → acc < 256 ^ k → be_onto acc bs < 256 ^ (k + length bs)
unfolding be_onto
be_onto_bound acc k [] h ha = omega (arith, pow_eq 256 (k + 0) (k) (omega arith))
be_onto_bound acc k (b ∷ bs) (hb, h) ha = omega (
  arith,
  be_onto_bound (acc * 256 + b) (suc k) bs h (omega (arith, pow-suc 256 k)),
  pow_eq 256 (k + suc (length bs)) (suc k + length bs) (omega arith),
)

pub pow_mono : (i j : ℕ) → i ≤ j → 256 ^ i ≤ 256 ^ j
pow_mono i j h = pow-le-pow_right (omega arith) h

-- While the bytes fit the word, nothing is shifted out.
shift_in_onto :
    (size acc k : ℕ) (bs : Bytes)
    → IsBytes bs
    → acc < 256 ^ k
    → k + length bs ≤ size
    → shift_in (size * 8) acc bs ≡ be_onto acc bs
unfolding shift_in be_onto
shift_in_onto size acc k [] h ha fits = refl
shift_in_onto size acc k (b ∷ bs) (hb, h) ha fits =
    rw (mod-eq_of_lt fits_word, shift_in_byte acc b hb)
      (shift_in_onto size (acc * 256 + b) (suc k) bs h (omega (arith, pow-suc 256 k)) (omega arith))
  where
    fits_word : acc * 2 ^ 8 < 2 ^ (size * 8)
    fits_word = omega (arith, pow-suc 256 k, word_size size, pow_mono (suc k) size (omega arith))

pub shift_in_value :
    (size : ℕ) (bs : Bytes) → IsBytes bs → length bs ≤ size → shift_in (size * 8) 0 bs ≡ be_value bs
unfolding be_value
shift_in_value size bs h fits = shift_in_onto size 0 0 bs h (omega arith) (omega arith)

pub be_value_bound : (bs : Bytes) → IsBytes bs → be_value bs < 256 ^ length bs
unfolding be_value
be_value_bound bs h = omega (
  arith,
  be_onto_bound 0 0 bs h (omega arith),
  pow_eq 256 (0 + length bs) (length bs) (omega arith),
)
