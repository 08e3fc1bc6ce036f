-- ===== src/Gateway/Base58/Value.antt =====
-- The number that a base58 text stands for is that of the bytes it is read as.
use koinos_evm_engine.Base.{
  ℕ, zero, suc, ◌+◌, ◌*◌, ◌/◌, ◌<◌, ◌≡◌, Option, some, ◌>>=?◌, [], ◌∷◌, arith,
}
use koinos_evm_engine.Base.Words.{Bytes, IsBytes}
use koinos_evm_engine.Gateway.Base58.{digit, carry_out, push_digit}

-- Bytes with the least significant first.
unfoldable pub le_value : Bytes → ℕ
le_value [] = 0
le_value (b ∷ bs) = b + 256 * le_value bs

-- A text read as a number in base 58, onto `acc`.
unfoldable pub digits_value : ℕ → Bytes → Option ℕ
digits_value acc [] = some acc
digits_value acc (c ∷ cs) = digit c >>=? λ i. digits_value (acc * 58 + i) cs

push_digit-le_value :
    (carry : ℕ) (bs : Bytes)
    → carry < 58
    → IsBytes bs
    → (le_value (push_digit carry bs) ≡ le_value bs * 58 + carry) × IsBytes (push_digit carry bs)
unfolding push_digit carry_out le_value
push_digit-le_value zero [] h k = (omega arith, tt)
push_digit-le_value (suc c) [] h k = ground (arith, h)
push_digit-le_value carry (b ∷ bs) h (hb, k) =
    let next = push_digit-le_value ((b * 58 + carry) / 256) bs (omega (arith, h, hb)) k in
    (omega (arith, next.0), (omega arith, next.1))
