-- ===== src/Base/Decimal.antt =====
-- The parse of an unsigned decimal number, `str::parse::<u64>`, and its round trip with `{}`.
use koinos_evm_engine.Base.Tests.{ltb, leb, ◌==◌, if◌then◌else◌, ◌>>=?◌, Bool-cases, Option-cases}
use koinos_evm_engine.Base.Lists.{is_empty}
use koinos_evm_engine.Base.Words.{Bytes}
use koinos_evm_engine.Base.Order.{lt_wf}
use koinos_evm_engine.Base.Text.{decimal, decimal_loop}
use Prim.Native.Nat.{ℕ, ◌+◌, ◌-◌, ◌*◌, ◌/◌, ◌%◌, ◌^◌, ◌<◌}
use mathlib.Core.Path.{◌≡◌, refl, ap, ◌∙◌}
use mathlib.Core.Logic.{inl, inr, dif_pos, dif_neg}
use mathlib.Core.Bool.{false, ◌&&◌}
use mathlib.Core.Option.{Option, none, some}
use mathlib.Core.List.{[], ◌∷◌, ◌++◌}
use mathlib.Core.WellFounded.{Acc}
use native.Mathlib.Decide.{dec_lt}
use native.Mathlib.Bridge.{le_prop}
use native.Mathlib.Omega.{arith}

unfoldable pub digit_value : ℕ → Option ℕ
digit_value c = if leb b'0' c && leb c b'9' then some (c - b'0') else none

-- A digit onto a u64, with the checks of the product and of the sum.
unfoldable pub digits_onto : ℕ → Bytes → Option ℕ
digits_onto acc [] = some acc
digits_onto acc (c ∷ cs) = digit_value c >>=? λ d.
    (if ltb (acc * 10 + d) (2 ^ 64) then some (acc * 10 + d) else none) >>=? λ next.
    digits_onto next cs

-- A plus sign in front of digits is passed over.
unfoldable pub parse_u64 : Bytes → Option ℕ
parse_u64 [] = none
parse_u64 (c ∷ []) = if c == b'+' then none else digits_onto 0 (c ∷ [])
parse_u64 (c ∷ d ∷ cs) = if c == b'+' then digits_onto 0 (d ∷ cs) else digits_onto 0 (c ∷ d ∷ cs)

digits_onto-lt :
    (acc : ℕ) (cs : Bytes) (n : ℕ) → acc < 2 ^ 64 → digits_onto acc cs ≡ some n → n < 2 ^ 64
unfolding digits_onto
digits_onto-lt acc [] n h e = ground (arith, e)
digits_onto-lt acc (c ∷ cs) n h e = elim (Option-cases (digit_value c)) [
  | inl bad ↦ absurd (ground (arith, bad, e))
  | inr (d, good) ↦ elim (Bool-cases (ltb (acc * 10 + d) (2 ^ 64))) [
    | inl small ↦
        digits_onto-lt (acc * 10 + d) cs n (ground (arith, small)) (ground (arith, e, good, small))
    | inr big ↦ absurd (ground (arith, good, big, e))
  ]
]

pub parse_u64-lt : (s : Bytes) (n : ℕ) → parse_u64 s ≡ some n → n < 2 ^ 64
unfolding parse_u64
parse_u64-lt [] n e = cc
parse_u64-lt (c ∷ []) n e = ground (arith, e, digits_onto-lt 0 (c ∷ []) n)
parse_u64-lt (c ∷ d ∷ cs) n e =
    ground (arith, e, digits_onto-lt 0 (c ∷ d ∷ cs) n, digits_onto-lt 0 (d ∷ cs) n)

digits_onto-snoc :
    (acc : ℕ) (cs : Bytes) (c d n : ℕ)
    → digit_value c ≡ some d
    → digits_onto acc cs ≡ some n
    → n * 10 + d < 2 ^ 64
    → digits_onto acc (cs ++ (c ∷ [])) ≡ some (n * 10 + d)
unfolding digits_onto
digits_onto-snoc acc [] c d n hc h k = ground (arith, hc, h, k)
digits_onto-snoc acc (x ∷ cs) c d n hc h k = elim (Option-cases (digit_value x)) [
  | inl e ↦ absurd (ground (arith, e, h))
  | inr (v, e) ↦ elim (Bool-cases (ltb (acc * 10 + v) (2 ^ 64))) [
    | inl small ↦
        rw (e, small) (digits_onto-snoc (acc * 10 + v) cs c d n hc (ground (arith, h, e, small)) k)
    | inr big ↦ absurd (ground (arith, e, h, big))
  ]
]

digit_value-digit : (d : ℕ) → d < 10 → digit_value (48 + d) ≡ some d
unfolding digit_value
digit_value-digit d h = ground arith

digits_onto-decimal_loop :
    (n : ℕ) (w : Acc ◌<◌ n) → n < 2 ^ 64 → digits_onto 0 (decimal_loop n w) ≡ some n
unfolding decimal_loop digits_onto
digits_onto-decimal_loop n (Acc.intro _ smaller) h = elim (dec_lt 9 n) [
  | yes p ↦ rw (dif_pos (dec_lt 9 n) le_prop p) (
      digits_onto-snoc 0 (decimal_loop (n / 10) (smaller (n / 10) (omega arith))) (48 + n % 10)
        (n % 10) (n / 10) (digit_value-digit (n % 10) (omega arith))
        (digits_onto-decimal_loop (n / 10) (smaller (n / 10) (omega arith)) (omega arith))
        (omega arith)
      ∙ ap some (omega arith))
  | no p ↦ rw (dif_neg (dec_lt 9 n) p) (ground (arith, p, digit_value-digit n))
]

is_empty-snoc : (cs : Bytes) (c : ℕ) → is_empty (cs ++ (c ∷ [])) ≡ false
is_empty-snoc [] c = refl
is_empty-snoc (x ∷ cs) c = refl

is_empty-decimal_loop : (n : ℕ) (w : Acc ◌<◌ n) → is_empty (decimal_loop n w) ≡ false
unfolding decimal_loop
is_empty-decimal_loop n (Acc.intro _ smaller) = elim (dec_lt 9 n) [
  | yes p ↦ rw (dif_pos (dec_lt 9 n) le_prop p) (is_empty-snoc _ (48 + n % 10))
  | no p ↦ rw (dif_neg (dec_lt 9 n) p) refl
]

-- Digits that are read have no sign in front.
parse_u64-digits :
    (s : Bytes) (n : ℕ) → is_empty s ≡ false → digits_onto 0 s ≡ some n → parse_u64 s ≡ some n
unfolding parse_u64 digits_onto digit_value
parse_u64-digits [] n e h = cc
parse_u64-digits (c ∷ []) n e h = ground (arith, h)
parse_u64-digits (c ∷ d ∷ cs) n e h = ground (arith, h)

pub parse_u64-decimal : (n : ℕ) → n < 2 ^ 64 → parse_u64 (decimal n) ≡ some n
unfolding decimal
parse_u64-decimal n h =
    parse_u64-digits (decimal n) n (is_empty-decimal_loop n (lt_wf.apply n))
      (digits_onto-decimal_loop n (lt_wf.apply n) h)
