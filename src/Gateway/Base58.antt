-- ===== src/Gateway/Base58.antt =====
-- koinos-evm/rpc/src/state.rs: the reading of Koinos addresses, base58 with a checksum.
-- A text is its characters by their code points; `none` is an error.
pub mod Value
use koinos_evm_engine.Base.{
  ℕ, zero, suc, ◌+◌, ◌-◌, ◌*◌, ◌/◌, ◌%◌, Option, none, some, ◌>>=?◌, List, [], ◌∷◌, ◌++◌, take,
  drop, length, replicate, ltb, ◌==◌, bytes_eq, if◌then◌else◌,
}
use koinos_evm_engine.Base.Words.{Bytes}
use koinos_evm_engine.Base.Text.{codes}
use mathlib.Core.List.{reverse}

abbrev pub bs58_alphabet : Bytes
bs58_alphabet = codes "123456789ABCDEFGHJKLMNPQRSTUVWXYZabcdefghijkmnopqrstuvwxyz"

-- `position(|&x| x == c)`
unfoldable pub digit_from : ℕ → Bytes → ℕ → Option ℕ
digit_from i [] c = none
digit_from i (x ∷ xs) c = if x == c then some i else digit_from (i + 1) xs c

-- The cast `c as u8` keeps the low byte of a character.
unfoldable pub digit : ℕ → Option ℕ
digit c = digit_from 0 bs58_alphabet (c % 256)

unfoldable pub leading_ones : Bytes → ℕ
leading_ones [] = 0
leading_ones (c ∷ cs) = if c == b'1' then suc (leading_ones cs) else 0

-- The `while carry > 0` loop: a carry is less than 58 here, and gives one byte at most.
unfoldable pub carry_out : ℕ → Bytes
carry_out carry = if carry == 0 then [] else carry % 256 ∷ []

-- A digit onto the bytes so far, the least significant first.
unfoldable pub push_digit : ℕ → Bytes → Bytes
push_digit carry [] = carry_out carry
push_digit carry (b ∷ bs) = (b * 58 + carry) % 256 ∷ push_digit ((b * 58 + carry) / 256) bs

unfoldable pub push_digits : Bytes → Bytes → Option Bytes
push_digits n [] = some n
push_digits n (c ∷ cs) = digit c >>=? λ i. push_digits (push_digit i n) cs

unfoldable pub bs58_decode : Bytes → Option Bytes
bs58_decode s = push_digits [] s >>=? λ n. some (replicate (leading_ones s) 0 ++ reverse n)

-- The hash is a parameter. The version byte and the checksum are taken off.
unfoldable pub base58check_decode : (Bytes → Bytes) → Bytes → Option Bytes
base58check_decode sha256 s = bs58_decode s >>=? λ raw.
    if ltb (length raw) 5
    then none
    else let payload = take (length raw - 4) raw in
      let check = drop (length raw - 4) raw in
      if bytes_eq (take 4 (sha256 (sha256 payload))) check then some (drop 1 payload) else none
