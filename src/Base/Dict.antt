-- ===== src/Base/Dict.antt =====
-- Maps keyed by byte strings, the `HashMap` of the source: a list of entries with distinct keys.
use koinos_evm_engine.Base.Tests.{
  if◌then◌else◌, bytes_eq, bytes_eq_refl, bytes_eq→eq, bytes_eq_ne, Bool-cases,
}
use koinos_evm_engine.Base.Lists.{length}
use Prim.Native.Nat.{ℕ, ◌+◌, ◌≤◌}
use mathlib.Core.Path.{◌≡◌, refl, sym, ap, ◌∙◌}
use mathlib.Core.Logic.{◌≢◌, ◌⊎◌, inl, inr}
use mathlib.Core.Bool.{Bool, true}
use mathlib.Core.Option.{Option, none, some}
use mathlib.Core.List.{List, [], ◌∷◌}
use native.Mathlib.Omega.{arith}

-- A key, a byte string as `List ℕ`.
abbrev pub Key : Type 0
Key = List ℕ

abbrev pub Dict {ℓ} : Type ℓ → Type ℓ
Dict V = List (Key × V)

module _ {ℓ} {V : Type ℓ} where
  unfoldable pub lookup : Dict V → Key → Option V
  lookup [] k = none
  lookup ((k', v) ∷ d) k = if bytes_eq k' k then some v else lookup d k

  unfoldable pub remove : Key → Dict V → Dict V
  remove k [] = []
  remove k ((k', v) ∷ d) = if bytes_eq k' k then remove k d else (k', v) ∷ remove k d

  unfoldable pub put : Key → V → Dict V → Dict V
  put k v d = (k, v) ∷ remove k d

  unfoldable pub retain : (V → Bool) → Dict V → Dict V
  retain keep [] = []
  retain keep ((k, v) ∷ d) = if keep v then (k, v) ∷ retain keep d else retain keep d

  -- No key occurs twice.
  unfoldable pub IsMap : Dict V → Type ℓ
  IsMap [] = Unit
  IsMap ((k, v) ∷ d) = (lookup d k ≡ none) × IsMap d

  pub lookup-remove_same : (k : Key) (d : Dict V) → lookup (remove k d) k ≡ none
  unfolding lookup remove
  lookup-remove_same k [] = refl
  lookup-remove_same k ((k', v) ∷ d) = ground (arith, lookup-remove_same k d)

  pub lookup-remove_other : (k j : Key) (d : Dict V) → k ≢ j → lookup (remove k d) j ≡ lookup d j
  unfolding lookup remove
  lookup-remove_other k j [] ne = refl
  lookup-remove_other k j ((k', v) ∷ d) ne =
      ground (arith, lookup-remove_other k j d ne, bytes_eq→eq k' k, bytes_eq_ne k j ne)

  pub lookup-put_same : (k : Key) (v : V) (d : Dict V) → lookup (put k v d) k ≡ some v
  unfolding lookup put
  lookup-put_same k v d = rw (bytes_eq_refl k) refl

  pub lookup-put_other :
      (k j : Key) (v : V) (d : Dict V) → k ≢ j → lookup (put k v d) j ≡ lookup d j
  unfolding lookup put
  lookup-put_other k j v d ne = rw (bytes_eq_ne k j ne) (lookup-remove_other k j d ne)

  pub remove_absent : (k : Key) (d : Dict V) → lookup d k ≡ none → remove k d ≡ d
  unfolding lookup remove
  remove_absent k [] h = refl
  remove_absent k ((k', v) ∷ d) h = ground (arith, remove_absent k d)

  pub length-remove-le : (k : Key) (d : Dict V) → length (remove k d) ≤ length d
  unfolding remove
  length-remove-le k [] = omega arith
  length-remove-le k ((k', v) ∷ d) = ground (arith, length-remove-le k d)

  pub length-remove_present :
      (k : Key) (v : V) (d : Dict V) → lookup d k ≡ some v → length (remove k d) + 1 ≤ length d
  unfolding lookup remove
  length-remove_present k v [] h = cc
  length-remove_present k v ((k', v') ∷ d) h =
      ground (arith, length-remove-le k d, length-remove_present k v d)

  pub length-put-le : (k : Key) (v : V) (d : Dict V) → length (put k v d) ≤ length d + 1
  unfolding put
  length-put-le k v d = omega (arith, length-remove-le k d)

  pub length-put_present :
      (k : Key) (v w : V) (d : Dict V) → lookup d k ≡ some w → length (put k v d) ≤ length d
  unfolding put
  length-put_present k v w d h = omega (arith, length-remove_present k w d h)

  lookup-remove-none : (k j : Key) (d : Dict V) → lookup d j ≡ none → lookup (remove k d) j ≡ none
  unfolding lookup remove
  lookup-remove-none k j [] h = refl
  lookup-remove-none k j ((k', v) ∷ d) h = ground (arith, lookup-remove-none k j d)

  pub remove-IsMap : (k : Key) (d : Dict V) → IsMap d → IsMap (remove k d)
  unfolding IsMap remove
  remove-IsMap k [] h = tt
  remove-IsMap k ((k', v) ∷ d) (new, h) = elim (Bool-cases (bytes_eq k' k)) [
    | inl e ↦ rw e (remove-IsMap k d h)
    | inr e ↦ rw e (lookup-remove-none k k' d new, remove-IsMap k d h)
  ]

  pub put-IsMap : (k : Key) (v : V) (d : Dict V) → IsMap d → IsMap (put k v d)
  unfolding IsMap put
  put-IsMap k v d h = (lookup-remove_same k d, remove-IsMap k d h)

  lookup-retain-none :
      (keep : V → Bool) (k : Key) (d : Dict V) → lookup d k ≡ none → lookup (retain keep d) k ≡ none
  unfolding lookup retain
  lookup-retain-none keep k [] h = refl
  lookup-retain-none keep k ((k', v) ∷ d) h = ground (arith, lookup-retain-none keep k d)

  pub retain-IsMap : (keep : V → Bool) (d : Dict V) → IsMap d → IsMap (retain keep d)
  unfolding IsMap retain
  retain-IsMap keep [] h = tt
  retain-IsMap keep ((k, v) ∷ d) (new, h) = elim (Bool-cases (keep v)) [
    | inl e ↦ rw e (lookup-retain-none keep k d new, retain-IsMap keep d h)
    | inr e ↦ rw e (retain-IsMap keep d h)
  ]

  pub length-retain-le : (keep : V → Bool) (d : Dict V) → length (retain keep d) ≤ length d
  unfolding retain
  length-retain-le keep [] = omega arith
  length-retain-le keep ((k, v) ∷ d) = ground (arith, length-retain-le keep d)

  -- What is kept keeps its value.
  pub lookup-retain_kept :
      (keep : V → Bool) (k : Key) (v : V) (d : Dict V)
      → lookup d k ≡ some v
      → keep v ≡ true
      → lookup (retain keep d) k ≡ some v
  unfolding lookup retain
  lookup-retain_kept keep k v [] h kept = cc
  lookup-retain_kept keep k v ((k', v') ∷ d) h kept = ground (arith, lookup-retain_kept keep k v d)

  -- What is left behind a removal has another key, and its value.
  pub lookup-remove-some :
      (k j : Key) (v : V) (d : Dict V)
      → lookup (remove k d) j ≡ some v
      → (k ≢ j) × (lookup d j ≡ some v)
  lookup-remove-some k j v d h =
      let ne : k ≢ j = λ e. absurd_some (ap (lookup (remove k d)) e ∙ h) in
      (ne, sym (lookup-remove_other k j d ne) ∙ h)
    where
      absurd_some : lookup (remove k d) k ≡ some v → ⊥
      absurd_some e = cc (e, lookup-remove_same k d)

  -- An entry behind a `put` is the new one, or an old one of another key.
  pub lookup-put-some :
      (k j : Key) (v w : V) (d : Dict V)
      → lookup (put k v d) j ≡ some w
      → ((k ≡ j) × (v ≡ w)) ⊎ ((k ≢ j) × (lookup d j ≡ some w))
  unfolding lookup put
  lookup-put-some k j v w d h = elim (Bool-cases (bytes_eq k j)) [
    | inl same ↦ inl (bytes_eq→eq k j same, ground (arith, same, h))
    | inr other ↦ inr (lookup-remove-some k j w d (ground (arith, other, h)))
  ]

  pub lookup-head : (k j : Key) (v : V) (d : Dict V) → k ≡ j → lookup ((k, v) ∷ d) j ≡ some v
  unfolding lookup
  lookup-head k j v d e = rw (ap (bytes_eq k) (sym e) ∙ bytes_eq_refl k) refl

  pub lookup-tail : (k j : Key) (v : V) (d : Dict V) → k ≢ j → lookup ((k, v) ∷ d) j ≡ lookup d j
  unfolding lookup
  lookup-tail k j v d ne = rw (bytes_eq_ne k j ne) refl
