-- ===== src/Gateway/EthCodec.antt =====
-- koinos-evm/rpc/src/eth_codec.rs: the hex texts of Ethereum JSON-RPC. A text is its characters by
-- their code points; the crate `hex` is a parameter. `none` is an error.
pub mod Quantities
use koinos_evm_engine.Base.{
  ℕ, zero, suc, ◌+◌, ◌-◌, ◌*◌, ◌/◌, ◌%◌, ◌^◌, ◌<◌, ◌≡◌, Bool, true, false, ◌&&◌, Option, none, some,
  ◌>>=?◌, List, [], ◌∷◌, ◌++◌, length, is_empty, replicate, drop, get_elem?, take, ltb, leb, ◌==◌,
  bytes_eq, if◌then◌else◌, String, arith,
}
use koinos_evm_engine.Base.Words.{Bytes, IsBytes}
use koinos_evm_engine.Base.Text.{codes}
use koinos_evm_engine.Base.Order.{lt_wf}
use mathlib.Core.Logic.{dite}
use mathlib.Core.WellFounded.{Acc}
use native.Mathlib.Decide.{dec_lt}

-- The crate `hex`: two lowercase digits for each byte, and back.
pub record Hex : Type 0 where
  pub encode : Bytes → Bytes
  pub decode : Bytes → Option Bytes
  pub decode-encode : (b : Bytes) → IsBytes b → decode (encode b) ≡ some b
  pub length-encode : (b : Bytes) → length (encode b) ≡ 2 * length b

-- `strip_prefix`
unfoldable pub strip_prefix : Bytes → Bytes → Option Bytes
strip_prefix [] s = some s
strip_prefix (p ∷ ps) [] = none
strip_prefix (p ∷ ps) (c ∷ s) = if p == c then strip_prefix ps s else none

unfoldable pub hex_value : ℕ → Option ℕ
hex_value c =
    if leb b'0' c && leb c b'9'
    then some (c - b'0')
    else if leb b'a' c && leb c b'f'
    then some (c - b'a' + 10)
    else if leb b'A' c && leb c b'F'
    then some (c - b'A' + 10)
    else none

-- A digit onto a u64, with the checks of the product and of the sum.
unfoldable pub add_digit : ℕ → ℕ → Option ℕ
add_digit acc d = if ltb (acc * 16 + d) (2 ^ 64) then some (acc * 16 + d) else none

unfoldable pub radix_onto : ℕ → Bytes → Option ℕ
radix_onto acc [] = some acc
radix_onto acc (c ∷ cs) = hex_value c >>=? λ d. add_digit acc d >>=? λ next. radix_onto next cs

-- `u64::from_str_radix(s, 16)`: a plus sign in front of digits is passed over.
unfoldable pub from_str_radix : Bytes → Option ℕ
from_str_radix [] = none
from_str_radix (c ∷ []) = if c == b'+' then none else radix_onto 0 (c ∷ [])
from_str_radix (c ∷ d ∷ cs) = if c == b'+' then radix_onto 0 (d ∷ cs) else radix_onto 0 (c ∷ d ∷ cs)

-- An empty text is an error of its own.
unfoldable pub parse_quantity : Bytes → Option ℕ
parse_quantity s = strip_prefix (codes "0x") s >>=? λ digits.
    if is_empty digits then none else from_str_radix digits

unfoldable pub hex_digit : ℕ → ℕ
hex_digit d = if ltb d 10 then b'0' + d else b'a' + (d - 10)

hex_loop : (n : ℕ) → Acc ◌<◌ n → Bytes
hex_loop n (Acc.intro _ smaller) =
    dite (dec_lt 15 n)
      (λ h. hex_loop (n / 16) (smaller (n / 16) (omega arith)) ++ (hex_digit (n % 16) ∷ []))
      (λ _. hex_digit n ∷ [])

-- `{:x}`
unfoldable pub lower_hex : ℕ → Bytes
unfolding hex_loop lt_wf dec_lt
lower_hex n = hex_loop n (lt_wf.apply n)

unfoldable pub quantity : ℕ → Bytes
quantity n = codes "0x" ++ lower_hex n

unfoldable pub quantity_u128 : ℕ → Bytes
quantity_u128 n = codes "0x" ++ lower_hex n

unfoldable pub trim_zeros : Bytes → Bytes
trim_zeros [] = []
trim_zeros (c ∷ cs) = if c == b'0' then trim_zeros cs else c ∷ cs

module _ (hex : Hex) where
  unfoldable pub parse_data : Bytes → Option Bytes
  parse_data s = strip_prefix (codes "0x") s >>=? λ digits.
      if length digits % 2 == 0 then hex.decode digits else none

  -- A word of 32 bytes: the digits are filled up to 64.
  unfoldable pub parse_u256_be : Bytes → Option Bytes
  parse_u256_be s = strip_prefix (codes "0x") s >>=? λ digits.
      if is_empty digits
      then none
      else if ltb 64 (length digits)
      then none
      else hex.decode (replicate (64 - length digits) b'0' ++ digits)

  unfoldable pub sized : ℕ → Bytes → Option Bytes
  sized n v = if length v == n then some v else none

  unfoldable pub parse_address : Bytes → Option Bytes
  parse_address s = parse_data s >>=? λ v. sized 20 v

  unfoldable pub parse_b32 : Bytes → Option Bytes
  parse_b32 s = parse_data s >>=? λ v. sized 32 v

  unfoldable pub data_text : Bytes → Bytes
  data_text bytes = codes "0x" ++ hex.encode bytes

  unfoldable pub quantity_from_be32 : Bytes → Bytes
  quantity_from_be32 bytes =
      let trimmed = trim_zeros (hex.encode bytes) in
      if is_empty trimmed then codes "0x0" else codes "0x" ++ trimmed
