-- ===== src/Engine/Proto/Varint.antt =====
-- `encode_varint` and `decode_varint` of koinos-evm/engine/src/proto.rs.
use koinos_evm_engine.Base.{
  ℕ, zero, suc, ◌+◌, ◌*◌, ◌/◌, ◌%◌, ◌^◌, ◌≤◌, ◌<◌, bit_and, bit_or, ◌≡◌, sym, ap, ◌∙◌, some, [],
  ◌∷◌, ◌++◌, append_assoc, length, arith,
}
use koinos_evm_engine.Base.Words.{Bytes, IsBytes, IsU64}
use koinos_evm_engine.Base.Bits.{bit_and_7f, bit_and_80, bit_or_80, bit_or_above}
use koinos_evm_engine.Base.Order.{lt_wf}
use koinos_evm_engine.Engine.Proto.{
  shift_shrinks, encode_varint_loop, encode_varint, decode_varint, decode_varint_loop,
}
use mathlib.Core.Logic.{dif_pos, dif_neg}
use mathlib.Core.WellFounded.{Acc, Acc-prop}
use native.Mathlib.Bridge.{le_prop}
use native.Mathlib.Decide.{dec_lt}
use native.Mathlib.Numerals.{towards_suc}
use native.Mathlib.Nat.{pow-suc, mul-le-mul_right, pow-le-pow_right}

encode_loop_last :
    (buf : Bytes) (v : ℕ) (w : Acc ◌<◌ v) → v < 128 → encode_varint_loop buf v w ≡ buf ++ (v ∷ [])
unfolding encode_varint_loop
encode_loop_last buf v (Acc.intro _ smaller) h =
    dif_neg (dec_lt 0 (v / 2 ^ 7)) (λ p. absurd (omega arith)) _ _
    ∙ ap (λ (b : ℕ). buf ++ (b ∷ [])) (omega (arith, bit_and_7f v))

-- A round that goes on; the loop does not look at the proof that it ends.
encode_loop_more :
    (buf : Bytes) (v : ℕ) (w : Acc ◌<◌ v) (w' : Acc ◌<◌ (v / 128))
    → 128 ≤ v
    → encode_varint_loop buf v w ≡ encode_varint_loop (buf ++ ((v % 128 + 128) ∷ [])) (v / 128) w'
unfolding encode_varint_loop
encode_loop_more buf v (Acc.intro _ smaller) w' h =
    dif_pos (dec_lt 0 (v / 2 ^ 7)) le_prop more _ _
    ∙ ap
        (λ (b : ℕ).
          encode_varint_loop (buf ++ (b ∷ [])) (v / 2 ^ 7)
            (smaller (v / 2 ^ 7) (shift_shrinks v more)))
        top_bit_set
    ∙ ap (encode_varint_loop (buf ++ ((v % 128 + 128) ∷ [])) (v / 128))
        (Acc-prop (smaller (v / 2 ^ 7) (shift_shrinks v more)) w')
  where
    more : 0 < v / 2 ^ 7
    more = omega arith

    top_bit_set : bit_or (bit_and v 0x7f) 0x80 ≡ v % 128 + 128
    top_bit_set = rw bit_and_7f (bit_or_80 (v % 128) (omega arith))

pub encode_varint_last : (buf : Bytes) (v : ℕ) → v < 128 → encode_varint buf v ≡ buf ++ (v ∷ [])
unfolding encode_varint
encode_varint_last buf v h = encode_loop_last buf v (lt_wf.apply v) h

pub encode_varint_more :
    (buf : Bytes) (v : ℕ)
    → 128 ≤ v
    → encode_varint buf v ≡ encode_varint (buf ++ ((v % 128 + 128) ∷ [])) (v / 128)
unfolding encode_varint
encode_varint_more buf v h = encode_loop_more buf v (lt_wf.apply v) (lt_wf.apply (v / 128)) h

-- What is written goes behind what is there.
encode_append_upto :
    (n v : ℕ) (buf : Bytes) → v ≤ n → encode_varint buf v ≡ buf ++ encode_varint [] v
encode_append_upto zero v buf h =
    encode_varint_last buf v (omega arith)
    ∙ ap (◌++◌ buf) (sym (encode_varint_last [] v (omega arith)))
encode_append_upto (suc n) v buf h = elim (dec_lt v 128) [
  | yes small ↦ encode_varint_last buf v small ∙ ap (◌++◌ buf) (sym (encode_varint_last [] v small))
  | no large ↦
      let group : Bytes = (v % 128 + 128) ∷ [] in
      encode_varint_more buf v (omega arith)
      ∙ encode_append_upto n (v / 128) (buf ++ group) (omega arith)
      ∙ append_assoc buf group (encode_varint [] (v / 128))
      ∙ ap (◌++◌ buf) (sym (encode_append_upto n (v / 128) group (omega arith)))
      ∙ ap (◌++◌ buf) (sym (encode_varint_more [] v (omega arith)))
]

pub encode_varint-append : (buf : Bytes) (v : ℕ) → encode_varint buf v ≡ buf ++ encode_varint [] v
encode_varint-append buf v = encode_append_upto v v buf (omega arith)

encode_varint_group :
    (v : ℕ) → 128 ≤ v → encode_varint [] v ≡ (v % 128 + 128) ∷ encode_varint [] (v / 128)
encode_varint_group v h =
    encode_varint_more [] v h ∙ encode_varint-append ((v % 128 + 128) ∷ []) (v / 128)

encode_shape :
    (k v : ℕ)
    → v < 128 ^ suc k
    → IsBytes (encode_varint [] v)
      × (1 ≤ length (encode_varint [] v))
      × (length (encode_varint [] v) ≤ suc k)
encode_shape zero v h = rw (encode_varint_last [] v (omega arith)) (omega arith)
encode_shape (suc k) v h = elim (dec_lt v 128) [
  | yes small ↦ rw (encode_varint_last [] v small) (omega arith)
  | no large ↦
      let (b, lo, hi) = encode_shape k (v / 128) (omega (arith, pow-suc 128 (suc k))) in
      rw (encode_varint_group v (omega arith)) ((omega arith, b), omega arith, omega arith)
]

-- A `u64` is written as 1 to 10 bytes.
pub encode_varint_shape :
    (v : ℕ)
    → IsU64 v
    → IsBytes (encode_varint [] v)
      × (1 ≤ length (encode_varint [] v))
      × (length (encode_varint [] v) ≤ 10)
encode_varint_shape v h = encode_shape 9 v (omega arith)

-- One round of the decoder, on a byte without and with the continuation bit.
decode_last :
    (w result i shift : ℕ) (rest : Bytes)
    → w < 128
    → i < 10
    → shift ≡ 7 * i
    → result < 2 ^ shift
    → result + w * 2 ^ shift < 2 ^ 64
    → decode_varint_loop (w ∷ rest) i result shift ≡ some (result + w * 2 ^ shift, i + 1)
unfolding decode_varint_loop
decode_last w result i shift rest hw hi hs below fits =
    ground (arith, bit_and_7f w, bit_and_80 w, bit_or_above shift w result)

decode_more :
    (g result i shift : ℕ) (rest : Bytes)
    → g < 128
    → i < 9
    → shift ≡ 7 * i
    → result < 2 ^ shift
    → result + g * 2 ^ shift < 2 ^ 64
    → decode_varint_loop ((g + 128) ∷ rest) i result shift
      ≡ decode_varint_loop rest (i + 1) (result + g * 2 ^ shift) (shift + 7)
unfolding decode_varint_loop
decode_more g result i shift rest hg hi hs below fits =
    ground (arith, bit_and_7f (g + 128), bit_and_80 (g + 128), bit_or_above shift g result)

-- Seven more bits are a factor of 128.
weight_step : (n : ℕ) → 2 ^ (n + 7) ≡ 128 * 2 ^ n
weight_step n = simp towards_suc (omega arith)

spread : (q r p : ℕ) → (128 * q + r) * p ≡ r * p + q * (128 * p)
spread q r p = grind arith

-- A number is its low group, and its other groups at seven times the weight.
weigh_groups : (n v : ℕ) → v * 2 ^ n ≡ v % 128 * 2 ^ n + v / 128 * 2 ^ (n + 7)
weigh_groups n v =
    let whole : v ≡ 128 * (v / 128) + v % 128 = omega arith in
    rw (weight_step n) (ap (λ (k : ℕ). k * 2 ^ n) whole ∙ spread (v / 128) (v % 128) (2 ^ n))

group_below : (g result s : ℕ) → g ≤ 127 → result < 2 ^ s → result + g * 2 ^ s < 2 ^ (s + 7)
group_below g result s hg hr = omega (arith, weight_step s, mul-le-mul_right (2 ^ s) hg)

decode_small :
    (v result i shift : ℕ) (rest : Bytes)
    → v < 128
    → i < 10
    → shift ≡ 7 * i
    → result < 2 ^ shift
    → result + v * 2 ^ shift < 2 ^ 64
    → decode_varint_loop (encode_varint [] v ++ rest) i result shift
      ≡ some (result + v * 2 ^ shift, i + length (encode_varint [] v))
decode_small v result i shift rest small hi hs below fits =
    rw (encode_varint_last [] v small) (decode_last v result i shift rest small hi hs below fits)

-- What is still to be read counts from bit `shift` on; `k` more groups may come.
decode-encode_from :
    (k v result i shift : ℕ) (rest : Bytes)
    → i + k ≡ 9
    → shift ≡ 7 * i
    → v < 128 ^ suc k
    → result < 2 ^ shift
    → result + v * 2 ^ shift < 2 ^ 64
    → decode_varint_loop (encode_varint [] v ++ rest) i result shift
      ≡ some (result + v * 2 ^ shift, i + length (encode_varint [] v))
decode-encode_from zero v result i shift rest hk hs hv below fits =
    decode_small v result i shift rest (omega arith) (omega arith) hs below fits
decode-encode_from (suc k) v result i shift rest hk hs hv below fits = elim (dec_lt v 128) [
  | yes small ↦ decode_small v result i shift rest small (omega arith) hs below fits
  | no large ↦
      let g : ℕ = v % 128 in
      let low : result + g * 2 ^ shift < 2 ^ 64 = omega (arith, weigh_groups shift v) in
      let next : ℕ = result + g * 2 ^ shift in
      let step =
        decode-encode_from k (v / 128) next (i + 1) (shift + 7) rest (omega arith) (omega arith)
          (omega (arith, pow-suc 128 (suc k))) (group_below g result shift (omega arith) below)
          (omega (arith, weigh_groups shift v)) in
      rw (encode_varint_group v (omega arith)) (
        decode_more g result i shift (encode_varint [] (v / 128) ++ rest) (omega arith)
          (omega arith) hs below low
        ∙ step
        ∙ ground (arith, weigh_groups shift v))
]

-- `decode_varint` reads back the `u64` that `encode_varint` wrote, says how many bytes it took, and
-- does not look at what follows.
pub decode_varint-encode_varint :
    (v : ℕ) (rest : Bytes)
    → IsU64 v
    → decode_varint (encode_varint [] v ++ rest) ≡ some (v, length (encode_varint [] v))
unfolding decode_varint
decode_varint-encode_varint v rest h =
    decode-encode_from 9 v 0 0 0 rest (omega arith) (omega arith) (omega arith) (omega arith)
      (omega arith)
    ∙ ground arith

-- A group that passes the overflow test stays inside the word.
group_fits :
    (payload result i shift : ℕ)
    → payload ≤ 127
    → i ≤ 9
    → shift ≡ 7 * i
    → (shift ≡ 63 → payload ≤ 1)
    → result < 2 ^ shift
    → result + payload * 2 ^ shift < 2 ^ 64
group_fits payload result i shift hp hi hs top below = elim (dec_lt i 9) [
  | yes low ↦
      let small : 2 ^ shift ≤ 2 ^ 56 = pow-le-pow_right (omega arith) {j = 56} (omega arith) in
      omega (arith, mul-le-mul_right (2 ^ shift) hp)
  | no high ↦
      let at : shift ≡ 63 = omega arith in
      let same : 2 ^ shift ≡ 2 ^ 63 = ap (λ (k : ℕ). 2 ^ k) at in
      omega (arith, mul-le-mul_right (2 ^ shift) (top at))
]

-- What an accepted varint is: a `u64`, from 1 to 10 bytes of the input.
decode_takes :
    (src : Bytes) (i result shift v consumed : ℕ)
    → i ≤ 10
    → shift ≡ 7 * i
    → result < 2 ^ shift
    → decode_varint_loop src i result shift ≡ some (v, consumed)
    → (i < consumed) × (consumed ≤ 10) × (consumed ≤ i + length src) × IsU64 v
unfolding decode_varint_loop
decode_takes [] i result shift v consumed hi hs below e = cc
decode_takes (b ∷ bs) i result shift v consumed hi hs below e =
    let g : ℕ = b % 128 in
    ground (
      arith,
      bit_and_7f b,
      bit_and_80 b,
      bit_or_above shift g result,
      group_fits g result i shift,
      group_below g result shift,
      decode_takes bs (i + 1) (result + g * 2 ^ shift) (shift + 7) v consumed,
    )

-- `decode_varint` ends on every input; what it accepts is a `u64` that took 1 to 10 bytes, all of
-- them in the input.
pub decode_varint_bounds :
    (src : Bytes) (v consumed : ℕ)
    → decode_varint src ≡ some (v, consumed)
    → (1 ≤ consumed) × (consumed ≤ 10) × (consumed ≤ length src) × IsU64 v
unfolding decode_varint
decode_varint_bounds src v consumed e =
    omega (arith, decode_takes src 0 0 0 v consumed (omega arith) (omega arith) (omega arith) e)
