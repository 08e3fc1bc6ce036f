-- ===== src/Gateway/EthCodec/Quantities.antt =====
-- The texts of the codec are read back.
use koinos_evm_engine.Base.{
  ℕ, ◌+◌, ◌*◌, ◌/◌, ◌%◌, ◌^◌, ◌<◌, ◌≡◌, refl, ap, ◌∙◌, false, Bool-cases, inl, inr, some,
  Option-cases, [], ◌∷◌, ◌++◌, length, is_empty, ltb, ◌==◌, arith,
}
use koinos_evm_engine.Base.Words.{Bytes, IsBytes}
use koinos_evm_engine.Base.Order.{lt_wf}
use mathlib.Core.Logic.{dif_pos, dif_neg}
use mathlib.Core.WellFounded.{Acc}
use native.Mathlib.Decide.{dec_lt}
use native.Mathlib.Bridge.{le_prop}
use koinos_evm_engine.Gateway.EthCodec.{
  Hex, strip_prefix, hex_value, add_digit, radix_onto, from_str_radix, parse_quantity, hex_digit,
  hex_loop, lower_hex, quantity, parse_data, parse_address, parse_b32, sized, data_text,
}

hex_value-hex_digit : (d : ℕ) → d < 16 → hex_value (hex_digit d) ≡ some d
unfolding hex_value hex_digit
hex_value-hex_digit d h = ground arith

radix_onto-snoc :
    (acc : ℕ) (cs : Bytes) (c d n : ℕ)
    → hex_value c ≡ some d
    → radix_onto acc cs ≡ some n
    → n * 16 + d < 2 ^ 64
    → radix_onto acc (cs ++ (c ∷ [])) ≡ some (n * 16 + d)
unfolding radix_onto add_digit
radix_onto-snoc acc [] c d n hc h k = ground (arith, hc, h, k)
radix_onto-snoc acc (x ∷ cs) c d n hc h k = elim (Option-cases (hex_value x)) [
  | inl e ↦ absurd (ground (arith, e, h))
  | inr (v, e) ↦ elim (Bool-cases (ltb (acc * 16 + v) (2 ^ 64))) [
    | inl small ↦
        rw (e, small) (radix_onto-snoc (acc * 16 + v) cs c d n hc (ground (arith, h, e, small)) k)
    | inr big ↦ absurd (ground (arith, e, h, big))
  ]
]

radix_onto-hex_loop : (n : ℕ) (w : Acc ◌<◌ n) → n < 2 ^ 64 → radix_onto 0 (hex_loop n w) ≡ some n
unfolding hex_loop radix_onto add_digit
radix_onto-hex_loop n (Acc.intro _ smaller) h = elim (dec_lt 15 n) [
  | yes p ↦ rw (dif_pos (dec_lt 15 n) le_prop p) (
      radix_onto-snoc 0 (hex_loop (n / 16) (smaller (n / 16) (omega arith))) (hex_digit (n % 16))
        (n % 16) (n / 16) (hex_value-hex_digit (n % 16) (omega arith))
        (radix_onto-hex_loop (n / 16) (smaller (n / 16) (omega arith)) (omega arith)) (omega arith)
      ∙ ap some (omega arith))
  | no p ↦ rw (dif_neg (dec_lt 15 n) p) (ground (arith, p, hex_value-hex_digit n))
]

is_empty-snoc : (cs : Bytes) (c : ℕ) → is_empty (cs ++ (c ∷ [])) ≡ false
is_empty-snoc [] c = refl
is_empty-snoc (x ∷ cs) c = refl

is_empty-hex_loop : (n : ℕ) (w : Acc ◌<◌ n) → is_empty (hex_loop n w) ≡ false
unfolding hex_loop
is_empty-hex_loop n (Acc.intro _ smaller) = elim (dec_lt 15 n) [
  | yes p ↦ rw (dif_pos (dec_lt 15 n) le_prop p) (is_empty-snoc _ (hex_digit (n % 16)))
  | no p ↦ rw (dif_neg (dec_lt 15 n) p) refl
]

-- Digits that are read have no sign in front.
from_str_radix-digits :
    (s : Bytes) (n : ℕ) → is_empty s ≡ false → radix_onto 0 s ≡ some n → from_str_radix s ≡ some n
unfolding from_str_radix radix_onto hex_value
from_str_radix-digits [] n e h = cc
from_str_radix-digits (c ∷ []) n e h = ground (arith, h)
from_str_radix-digits (c ∷ d ∷ cs) n e h = ground (arith, h)

-- The quantity that is written for a u64 is read back as it.
pub parse_quantity-quantity : (n : ℕ) → n < 2 ^ 64 → parse_quantity (quantity n) ≡ some n
unfolding parse_quantity quantity strip_prefix lower_hex
parse_quantity-quantity n h =
    let w : Acc ◌<◌ n = lt_wf.apply n in
    rw (is_empty-hex_loop n w)
      (from_str_radix-digits (hex_loop n w) n (is_empty-hex_loop n w) (radix_onto-hex_loop n w h))

module _ (hex : Hex) where
  pub parse_data-data_text : (b : Bytes) → IsBytes b → parse_data hex (data_text hex b) ≡ some b
  unfolding parse_data data_text strip_prefix
  parse_data-data_text b h =
      rw (ap (λ (n : ℕ). n % 2 == 0) (hex.length-encode b)) (ground (arith, hex.decode-encode b h))

  -- The texts of bytes, addresses and hashes are read back as they were, the latter two where they
  -- have 20 and 32 bytes.
  pub parse_texts :
      (b : Bytes)
      → IsBytes b
      → (parse_data hex (data_text hex b) ≡ some b)
        × (length b ≡ 20 → parse_address hex (data_text hex b) ≡ some b)
        × (length b ≡ 32 → parse_b32 hex (data_text hex b) ≡ some b)
  unfolding parse_address parse_b32 sized
  parse_texts b h = (
    parse_data-data_text b h,
    (λ e. rw (parse_data-data_text b h) (ground (arith, e))),
    (λ e. rw (parse_data-data_text b h) (ground (arith, e))),
  )
