-- ===== src/Engine/Precompiles/Gas.antt =====
-- What a precompile charges, and what it returns.
use koinos_evm_engine.Base.{
  ℕ, ◌+◌, ◌-◌, ◌*◌, ◌≤◌, ◌≡◌, refl, ap, Bool, not, true, false, ◌⊎◌, inl, inr, [], ◌++◌, length,
  drop, replicate, length-take, length-drop, ltb, leb, if◌then◌else◌, arith,
}
use mathlib.Core.Path.{subst}
use koinos_evm_engine.Base.Words.{Bytes}
use koinos_evm_engine.Engine.Koinos.{Host, Outcome, returned, exited, pure, go_on}
use koinos_evm_engine.Engine.Sys.{Run}
use koinos_evm_engine.Engine.Precompiles.{
  PrecompileResult, output, out_of_gas, other, div_ceil_32, accepts_v, padded, slice,
  word_of_address, recovered_address, ec_recover, sha256_run, ripemd160_run, identity_run,
}

-- A result is paid for by the gas that was offered, and is empty or a word.
abbrev pub IsWordWithin : ℕ → PrecompileResult → Type 0
IsWordWithin gas_limit (output gas bytes) =
    (gas ≤ gas_limit) × ((length bytes ≡ 0) ⊎ (length bytes ≡ 32))
IsWordWithin gas_limit out_of_gas = Unit
IsWordWithin gas_limit other = Unit

module _ (host : Host) where
  -- What a run that comes back has as its value.
  pub record Gives {A : Type 0} (P : A → Type 0) (m : Run host A) : Type 0 where
    pub gives : (w w' : host.World) (a : A) → m w ≡ pure a w' → P a

  value_of :
      {A : Type 0} {a b : A} {v w : host.World}
      → pure {W = host.World} a v ≡ pure {W = host.World} b w
      → a ≡ b
  value_of {a = a} h =
      ap (λ (x : Outcome _ × host.World). elim x.0 [ returned y ↦ y | exited z ↦ a ]) h

  pure-Gives : {A : Type 0} (P : A → Type 0) (a : A) → P a → Gives P (pure a)
  pure-Gives P a h = record { gives = λ w w' b e. subst P (value_of e) h }

  go_on-Gives :
      {A B : Type 0} (P : B → Type 0) (r : Outcome A × host.World) (f : A → Run host B)
      → ((a : A) → Gives P (f a))
      → (w' : host.World) (b : B) → go_on r f ≡ pure b w'
      → P b
  go_on-Gives P (returned a, v) f h w' b e = (h a).gives v w' b e
  go_on-Gives P (exited args, v) f h w' b e = cc

  bind-Gives :
      {A B : Type 0} (P : B → Type 0) (m : Run host A) (f : A → Run host B)
      → ((a : A) → Gives P (f a))
      → Gives P (λ w. go_on (m w) f)
  bind-Gives P m f h = record { gives = λ w w' b e. go_on-Gives P (m w) f h w' b e }

  if-Gives :
      {A : Type 0} (P : A → Type 0) (b : Bool) (m k : Run host A)
      → (b ≡ true → Gives P m)
      → (b ≡ false → Gives P k)
      → Gives P (if b then m else k)
  if-Gives P true m k hm hk = hm refl
  if-Gives P false m k hm hk = hk refl

  module _ (input : Bytes) (gas_limit : ℕ) where
    abbrev Within : PrecompileResult → Type 0
    Within = IsWordWithin gas_limit

    word-Within :
        (mh : Bytes)
        → 3000 ≤ gas_limit
        → Within (if ltb (length mh) 34 then output 3000 [] else output 3000 (word_of_address mh))
    unfolding word_of_address
    word-Within mh h = ground (arith, length-take 20 (drop 14 mh), length-drop 14 mh)

    recovered_address-Gives :
        (pubkey : Bytes) → 3000 ≤ gas_limit → Gives Within (recovered_address host pubkey)
    unfolding recovered_address
    recovered_address-Gives pubkey h =
        if-Gives Within (ltb (length pubkey) 64) _ _ (λ e. pure-Gives Within _ (h, inl refl))
          (λ e. bind-Gives Within _ _ (λ mh. pure-Gives Within _ (word-Within mh h)))

    offered : (gas : ℕ) → ltb gas_limit gas ≡ false → gas ≤ gas_limit
    offered gas e = ground arith

    ec_recover-Gives : Gives Within (ec_recover host input gas_limit)
    unfolding ec_recover
    ec_recover-Gives =
        if-Gives Within (ltb gas_limit 3000) _ _ (λ e. pure-Gives Within _ tt)
          (λ e.
            if-Gives Within (not (accepts_v (slice 32 64 (padded input)))) _ _
              (λ e2. pure-Gives Within _ (offered 3000 e, inl refl))
              (λ e2.
                bind-Gives Within _ _ (λ pubkey. recovered_address-Gives pubkey (offered 3000 e))))

    digest-Within :
        (gas : ℕ) (mh : Bytes)
        → gas ≤ gas_limit
        → Within (if leb 34 (length mh) then output gas (slice 2 34 mh) else other)
    digest-Within gas mh h = ground (arith, length-take 32 (drop 2 mh), length-drop 2 mh)

    sha256_run-Gives : Gives Within (sha256_run host input gas_limit)
    unfolding sha256_run
    sha256_run-Gives =
        if-Gives Within (ltb gas_limit (60 + 12 * div_ceil_32 (length input))) _ _
          (λ e. pure-Gives Within _ tt)
          (λ e.
            bind-Gives Within _ _ (λ mh. pure-Gives Within _ (digest-Within _ mh (offered _ e))))

    short-Within :
        (gas : ℕ) (mh : Bytes)
        → gas ≤ gas_limit
        → Within (
            if leb 22 (length mh)
            then output gas (replicate 12 0 ++ drop (length mh - 20) mh)
            else other)
    short-Within gas mh h = ground (arith, length-drop (length mh - 20) mh)

    ripemd160_run-Gives : Gives Within (ripemd160_run host input gas_limit)
    unfolding ripemd160_run
    ripemd160_run-Gives =
        if-Gives Within (ltb gas_limit (600 + 120 * div_ceil_32 (length input))) _ _
          (λ e. pure-Gives Within _ tt)
          (λ e. bind-Gives Within _ _ (λ mh. pure-Gives Within _ (short-Within _ mh (offered _ e))))

    -- Whatever the host answers, a precompile that succeeds charges no more than the gas that it
    -- was offered, and `ecrecover`, `sha256` and `ripemd160` return nothing or a 32-byte word.
    pub precompiles-Gives :
        Gives Within (ec_recover host input gas_limit)
        × Gives Within (sha256_run host input gas_limit)
        × Gives Within (ripemd160_run host input gas_limit)
        × Gives
            (λ r. (r ≡ out_of_gas) ⊎ ((gas : ℕ) × (r ≡ output gas input) × (gas ≤ gas_limit)))
            (identity_run host input gas_limit)
    unfolding identity_run
    precompiles-Gives = (
      ec_recover-Gives,
      sha256_run-Gives,
      ripemd160_run-Gives,
      if-Gives _ (ltb gas_limit (15 + 3 * div_ceil_32 (length input))) _ _
          (λ e. pure-Gives _ _ (inl refl)) (λ e. pure-Gives _ _ (inr (_, refl, offered _ e))),
    )
