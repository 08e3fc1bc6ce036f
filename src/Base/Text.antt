-- ===== src/Base/Text.antt =====
-- Text as bytes: string constants, and `{}` of numbers.
use Prim.Native.Nat.{ℕ, ◌+◌, ◌-◌, ◌/◌, ◌%◌, ◌^◌, ◌<◌}
use Prim.Native.Char.{code}
use Prim.Native.String.{String}
use koinos_evm_engine.Base.Tests.{ltb, if◌then◌else◌}
use koinos_evm_engine.Base.Words.{Bytes}
use koinos_evm_engine.Base.Order.{lt_wf}
use mathlib.Core.Path.{◌≡◌, refl}
use mathlib.Core.List.{[], ◌∷◌, ◌++◌}
use mathlib.Core.Logic.{dite}
use mathlib.Core.WellFounded.{Acc}
use native.Mathlib.Decide.{dec_lt}
use native.Mathlib.Omega.{arith}

-- The bytes of an ASCII text.
abbrev pub codes : String → Bytes
codes String.[] = []
codes (String.◌∷◌ c s) = code c ∷ codes s

unfoldable pub decimal_loop : (n : ℕ) → Acc ◌<◌ n → Bytes
decimal_loop n (Acc.intro _ smaller) =
    dite (dec_lt 9 n)
      (λ h. decimal_loop (n / 10) (smaller (n / 10) (omega arith)) ++ ((48 + n % 10) ∷ []))
      (λ _. (48 + n) ∷ [])

-- `{}` of an unsigned number.
unfoldable pub decimal : ℕ → Bytes
unfolding decimal_loop lt_wf dec_lt
decimal n = decimal_loop n (lt_wf.apply n)

-- `{}` of an `i32`, given as its bit pattern.
unfoldable pub decimal_i32 : ℕ → Bytes
unfolding decimal
decimal_i32 n = if ltb n (2 ^ 31) then decimal n else b'-' ∷ decimal (2 ^ 32 - n)

decimal_42069 : decimal 42069 ≡ codes "42069"
unfolding decimal
decimal_42069 = refl

decimal_i32_minus : decimal_i32 (2 ^ 32 - 12) ≡ codes "-12"
unfolding decimal_i32
decimal_i32_minus = refl
