-- ===== src/Gateway/Limit/Bounds.antt =====
-- The limiter's memory and its buckets are bounded.
use koinos_evm_engine.Base.{
  ℕ, ◌<◌, ◌≤◌, ◌≡◌, Bool, true, false, not, ◌&&◌, Bool-cases, none, Option-cases, inl, inr, [], ◌∷◌,
  length, leb, All, bytes_eq, arith,
}
use koinos_evm_engine.Base.Words.{Bytes}
use koinos_evm_engine.Base.Dict.{
  Key, Dict, lookup, put, remove, retain, IsMap, put-IsMap, retain-IsMap, length-put-le,
  length-put_present, length-retain-le,
}
use koinos_evm_engine.Gateway.Limit.{
  Float, Bucket, RateLimiter, max_buckets, or_greater, new, enabled, is_known, sweep, entry, refill,
  take_tokens, allow,
}

module _ {ℓ κ} {V : Type ℓ} (P : V → Type κ) where
  -- Every value of a map.
  abbrev pub AllValues : Dict V → Type κ
  AllValues d = All (λ (e : Key × V). P e.1) d

  remove-AllValues : (k : Key) (d : Dict V) → AllValues d → AllValues (remove k d)
  unfolding remove
  remove-AllValues k [] h = h
  remove-AllValues k ((j, v) ∷ d) (hv, h) = elim (Bool-cases (bytes_eq j k)) [
    | inl e ↦ rw e (remove-AllValues k d h)
    | inr e ↦ rw e (hv, remove-AllValues k d h)
  ]

  retain-AllValues : (keep : V → Bool) (d : Dict V) → AllValues d → AllValues (retain keep d)
  unfolding retain
  retain-AllValues keep [] h = h
  retain-AllValues keep ((j, v) ∷ d) (hv, h) = elim (Bool-cases (keep v)) [
    | inl e ↦ rw e (hv, retain-AllValues keep d h)
    | inr e ↦ rw e (retain-AllValues keep d h)
  ]

  put-AllValues : (k : Key) (v : V) (d : Dict V) → P v → AllValues d → AllValues (put k v d)
  unfolding put
  put-AllValues k v d hv h = (hv, remove-AllValues k d h)

module _ (float : Float) where
  -- At most `max_buckets` clients are remembered, none with more tokens than the burst.
  pub record IsBounded (l : RateLimiter float) : Type 0 where
    pub is_map : IsMap l.buckets
    pub within : length l.buckets ≤ max_buckets
    pub full_at_most : AllValues (λ b. float.Le b.tokens l.burst) l.buckets

  refill-Le :
      (now : ℕ) (l : RateLimiter float) (b : Bucket float)
      → float.Le (refill float now l b).tokens l.burst
  unfolding refill
  refill-Le now l b = float.min-Le _ l.burst

  -- There is room for the client, or it has a bucket.
  HasRoom : RateLimiter float → Bytes → Type 0
  HasRoom l ip = length (put {V = Bucket float} ip (entry float 0 l none) l.buckets) ≤ max_buckets

  put-IsBounded :
      (ip : Bytes) (b : Bucket float) (l : RateLimiter float)
      → IsBounded l
      → HasRoom l ip
      → float.Le b.tokens l.burst
      → IsBounded (record l { buckets = put ip b l.buckets })
  unfolding HasRoom put
  put-IsBounded ip b l h room le = record {
    is_map = put-IsMap ip b l.buckets h.is_map;
    within = room;
    full_at_most = put-AllValues (λ x. float.Le x.tokens l.burst) ip b l.buckets le h.full_at_most;
  }

  take_tokens-IsBounded :
      (now : ℕ) (ip : Bytes) (cost : ℕ) (l : RateLimiter float)
      → IsBounded l
      → HasRoom l ip
      → IsBounded (take_tokens float now ip cost l).1
  unfolding take_tokens
  take_tokens-IsBounded now ip cost l h room =
      let b = refill float now l (entry float now l (lookup l.buckets ip)) in
      let le = refill-Le now l (entry float now l (lookup l.buckets ip)) in
      elim (Bool-cases (float.ge b.tokens (float.of_nat cost))) [
        | inl enough ↦
            rw (take_tokens, enough)
              (put-IsBounded ip (record b { tokens = float.sub b.tokens (float.of_nat cost) }) l h
                room (float.Le-trans _ b.tokens l.burst (float.sub-Le b.tokens cost) le))
        | inr short ↦ rw (take_tokens, short) (put-IsBounded ip b l h room le)
      ]

  sweep-IsBounded : (now : ℕ) (l : RateLimiter float) → IsBounded l → IsBounded (sweep float now l)
  unfolding sweep
  sweep-IsBounded now l h = record {
    is_map = retain-IsMap _ l.buckets h.is_map;
    within = omega (arith, h.within, length-retain-le _ l.buckets);
    full_at_most = retain-AllValues (λ x. float.Le x.tokens l.burst) _ l.buckets h.full_at_most;
  }

  room_left : (l : RateLimiter float) (ip : Bytes) → length l.buckets < max_buckets → HasRoom l ip
  unfolding HasRoom
  room_left l ip h = omega (arith, h, length-put-le ip (entry float 0 l none) l.buckets)

  room_known :
      (l : RateLimiter float) (ip : Bytes) → IsBounded l → is_known float l ip ≡ true → HasRoom l ip
  unfolding HasRoom is_known
  room_known l ip h known = elim (Option-cases (lookup l.buckets ip)) [
    | inl absent ↦ absurd (ground (arith, known, absent))
    | inr (b, present) ↦
        omega (arith, h.within, length-put_present ip (entry float 0 l none) b l.buckets present)
  ]

  new_client :
      (now : ℕ) (ip : Bytes) (cost : ℕ) (l : RateLimiter float)
      → IsBounded l
      → enabled float l ≡ true
      → is_known float l ip ≡ false
      → IsBounded (allow float now ip cost l).1
  unfolding allow
  new_client now ip cost l h on new =
      let swept = sweep float now l in
      let h' = sweep-IsBounded now l h in
      elim (Bool-cases (leb max_buckets (length l.buckets))) [
        | inr room ↦
            rw (allow, on, room)
              (take_tokens-IsBounded now ip (or_greater cost 1) l h
                (room_left l ip (ground (arith, room))))
        | inl full ↦ elim (Bool-cases (leb max_buckets (length swept.buckets))) [
          | inl still ↦ rw (allow, on, full, new, still) h'
          | inr room ↦
              rw (allow, on, full, new, room)
                (take_tokens-IsBounded now ip (or_greater cost 1) swept h'
                  (room_left swept ip (ground (arith, room))))
        ]
      ]

  -- Whatever client asks at whatever time and cost: the limiter remembers at most 10,000 clients,
  -- and no bucket holds more tokens than the burst, if it was so before.
  pub allow-IsBounded :
      (now : ℕ) (ip : Bytes) (cost : ℕ) (l : RateLimiter float)
      → IsBounded l
      → IsBounded (allow float now ip cost l).1
  unfolding allow
  allow-IsBounded now ip cost l h = elim (Bool-cases (enabled float l)) [
    | inr off ↦ rw (allow, off) h
    | inl on ↦ elim (Bool-cases (is_known float l ip)) [
      | inl known ↦
          elim (Bool-cases (leb max_buckets (length l.buckets) && not (is_known float l ip))) [
            | inl both ↦ absurd (ground (arith, both, known))
            | inr old ↦
                rw (allow, on, old)
                  (take_tokens-IsBounded now ip (or_greater cost 1) l h (room_known l ip h known))
          ]
      | inr new ↦ new_client now ip cost l h on new
    ]
  ]
