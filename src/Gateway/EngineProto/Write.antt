-- ===== src/Gateway/EngineProto/Write.antt =====
-- What the gateway's writers put out is what the engine's encoders would.
use koinos_evm_engine.Base.{
  ℕ, ◌+◌, ◌*◌, ◌/◌, ◌%◌, ◌^◌, ◌<◌, bit_and, bit_or, ◌≡◌, ◌≢◌, refl, sym, ap, ◌∙◌, [], ◌∷◌, ◌++◌,
  length, arith,
}
use koinos_evm_engine.Base.Words.{Bytes}
use koinos_evm_engine.Base.Bits.{bit_and_7f, bit_or_80, bit_or_below}
use koinos_evm_engine.Base.Order.{lt_wf}
use koinos_evm_engine.Engine.Proto.{encode_varint, encode_bytes_field, wire_length_delimited}
use koinos_evm_engine.Engine.Proto.Varint.{encode_varint_last, encode_varint_more}
use koinos_evm_engine.Engine.Proto.Fields.{encode_tag_eq}
use koinos_evm_engine.Gateway.EngineProto.{
  shift_falls, write_varint_loop, write_varint, field_tag, write_bytes_field,
}
use mathlib.Core.Logic.{dif_pos, dif_neg}
use mathlib.Core.WellFounded.{Acc}
use native.Mathlib.Bridge.{le_prop}
use native.Mathlib.Decide.{dec_le}

group_byte : (n : ℕ) → bit_or (bit_and n 0x7f % 2 ^ 8) 0x80 ≡ n % 128 + 128
group_byte n =
    ap (λ (k : ℕ). bit_or (k % 2 ^ 8) 0x80) (bit_and_7f n)
    ∙ ap (λ (k : ℕ). bit_or k 0x80) (the_group n)
    ∙ bit_or_80 (n % 128) (omega arith)
  where
    the_group : (m : ℕ) → m % 128 % 2 ^ 8 ≡ m % 128
    the_group m = omega arith

write_loop_eq :
    (out : Bytes) (n : ℕ) (w : Acc ◌<◌ n) → write_varint_loop out n w ≡ encode_varint out n
unfolding write_varint_loop
write_loop_eq out n (Acc.intro _ smaller) = elim (dec_le 0x80 n) [
  | yes more ↦
      dif_pos (dec_le 0x80 n) le_prop more _ _
      ∙ write_loop_eq (out ++ (bit_or (bit_and n 0x7f % 2 ^ 8) 0x80 ∷ [])) (n / 2 ^ 7)
          (smaller (n / 2 ^ 7) (shift_falls n more))
      ∙ ap (λ (b : ℕ). encode_varint (out ++ (b ∷ [])) (n / 128)) (group_byte n)
      ∙ sym (encode_varint_more out n more)
  | no last ↦
      dif_neg (dec_le 0x80 n) last _ _
      ∙ ap (λ (b : ℕ). out ++ (b ∷ [])) (omega arith)
      ∙ sym (encode_varint_last out n (omega arith))
]

-- `write_varint` writes what the engine's `encode_varint` writes, for every number.
pub write_varint_eq : (out : Bytes) (n : ℕ) → write_varint out n ≡ encode_varint out n
unfolding write_varint
write_varint_eq out n = write_loop_eq out n (lt_wf.apply n)

-- A bytes field that is not empty is written as the engine writes it.
pub write_bytes_field_eq :
    (out : Bytes) (f : ℕ) (v : Bytes)
    → f < 2 ^ 29
    → v ≢ []
    → write_bytes_field out f v ≡ encode_bytes_field out f v
unfolding write_bytes_field encode_bytes_field field_tag
write_bytes_field_eq out f [] hf h = absurd (h refl)
write_bytes_field_eq out f (b ∷ bs) hf h =
    ap (λ (o : Bytes). o ++ (b ∷ bs))
      (write_varint_eq _ (length (b ∷ bs))
        ∙ ap (λ (o : Bytes). encode_varint o (length (b ∷ bs)))
            (write_varint_eq out _
              ∙ ap (encode_varint out) tag
              ∙ sym (encode_tag_eq out f wire_length_delimited (omega arith) (omega arith))))
  where
    tag : bit_or (f * 2 ^ 3 % 2 ^ 32) 2 ≡ f * 8 + 2
    tag = ground (arith, bit_or_below 3 f 2)
