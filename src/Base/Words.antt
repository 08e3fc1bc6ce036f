-- ===== src/Base/Words.antt =====
-- Byte strings, and their big-endian reading.
use Prim.Native.Nat.{ℕ, zero, suc, ◌+◌, ◌*◌, ◌/◌, ◌%◌, ◌^◌, ◌<◌, bit_or}
use koinos_evm_engine.Base.Bits.{bit_or_below}
use koinos_evm_engine.Base.Lists.{length, length-append, All}
use mathlib.Core.Path.{◌≡◌, refl}
use mathlib.Core.List.{List, [], ◌∷◌, ◌++◌}
use native.Mathlib.Nat.{pow-suc}
use native.Mathlib.Omega.{arith}

abbrev pub Bytes : Type 0
Bytes = List ℕ

abbrev pub IsByte : ℕ → Type 0
IsByte b = b < 256

abbrev pub IsBytes : Bytes → Type 0
IsBytes = All IsByte

abbrev pub IsU32 : ℕ → Type 0
IsU32 v = v < 2 ^ 32

abbrev pub IsU64 : ℕ → Type 0
IsU64 v = v < 2 ^ 64

pub IsBytes-append : (xs ys : Bytes) → IsBytes xs → IsBytes ys → IsBytes (xs ++ ys)
IsBytes-append [] ys h k = k
IsBytes-append (x ∷ xs) ys (hx, h) k = (hx, IsBytes-append xs ys h k)

-- The number that a byte string stands for, most significant byte first, read onto `acc`.
unfoldable pub be_onto : ℕ → Bytes → ℕ
be_onto acc [] = acc
be_onto acc (b ∷ bs) = be_onto (acc * 256 + b) bs

unfoldable pub be_value : Bytes → ℕ
unfolding be_onto
be_value bs = be_onto 0 bs

-- The `k` low bytes of `v`, most significant first.
unfoldable pub to_be : ℕ → ℕ → Bytes
to_be zero v = []
to_be (suc k) v = to_be k (v / 256) ++ (v % 256 ∷ [])

pub length-to_be : (k v : ℕ) → length (to_be k v) ≡ k
unfolding to_be
length-to_be zero v = refl
length-to_be (suc k) v =
    omega (arith, length-append (to_be k (v / 256)) (v % 256 ∷ []), length-to_be k (v / 256))

pub to_be-IsBytes : (k v : ℕ) → IsBytes (to_be k v)
unfolding to_be
to_be-IsBytes zero v = tt
to_be-IsBytes (suc k) v = IsBytes-append (to_be k (v / 256)) _ (to_be-IsBytes k _) (omega arith)

pub be_onto-append_one :
    (acc : ℕ) (bs : Bytes) (b : ℕ) → be_onto acc (bs ++ (b ∷ [])) ≡ be_onto acc bs * 256 + b
unfolding be_onto
be_onto-append_one acc [] b = refl
be_onto-append_one acc (c ∷ bs) b = be_onto-append_one (acc * 256 + c) bs b

pub be_value-to_be : (k v : ℕ) → v < 256 ^ k → be_value (to_be k v) ≡ v
unfolding be_value to_be
be_value-to_be zero v h = unfold be_onto in omega arith
be_value-to_be (suc k) v h = omega (
  arith,
  be_onto-append_one 0 (to_be k (v / 256)) (v % 256),
  be_value-to_be k (v / 256) (omega (arith, pow-suc 256 k)),
)

-- `out = (out << 8) | b` on a byte, while nothing is shifted out of the word.
pub shift_in_byte : (acc b : ℕ) → b < 256 → bit_or (acc * 2 ^ 8) b ≡ acc * 256 + b
shift_in_byte acc b h = omega (arith, bit_or_below 8 acc b h)
