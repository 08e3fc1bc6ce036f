-- ===== src/Runs/Limits.antt =====
-- A run of the rate limiter, whose numbers are natural here.
use koinos_evm_engine.Base.{
  ℕ, ◌+◌, ◌-◌, ◌*◌, ◌/◌, ◌^◌, ◌≤◌, [], ◌∷◌, leb, ltb, if◌then◌else◌, arith,
}
use koinos_evm_engine.Base.Dict.{IsMap}
use koinos_evm_engine.Gateway.Limit.{Float, RateLimiter, new, allow}
use koinos_evm_engine.Gateway.Limit.Bounds.{IsBounded, allow-IsBounded}

abbrev least : ℕ → ℕ → ℕ
least a b = if leb a b then a else b

least-le : (a b : ℕ) → least a b ≤ b
least-le a b = ground arith

abbrev natural : Float
natural = record {
  F = ℕ;
  of_nat = λ n. n;
  secs = λ n. n / 10 ^ 9;
  add = ◌+◌;
  mul = ◌*◌;
  sub = ◌-◌;
  min = least;
  ge = λ a b. leb b a;
  is_above = λ a b. ltb b a;
  Le = ◌≤◌;
  Le-trans = λ a b c h k. omega (arith, h, k);
  min-Le = least-le;
  sub-Le = λ a n. omega arith;
}

abbrev new_limiter : RateLimiter natural
new_limiter = new natural 5 10

new_limiter-IsBounded : IsBounded natural new_limiter
unfolding new IsMap
new_limiter-IsBounded = record { is_map = tt; within = omega arith; full_at_most = tt }

allow-IsBounded_example :
    IsBounded natural (allow natural 1000 (10 ∷ 0 ∷ 0 ∷ 1 ∷ []) 3 new_limiter).1
allow-IsBounded_example =
    allow-IsBounded natural 1000 (10 ∷ 0 ∷ 0 ∷ 1 ∷ []) 3 new_limiter new_limiter-IsBounded
