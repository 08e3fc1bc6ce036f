-- ===== src/Gateway/Limit.antt =====
-- koinos-evm/rpc/src/limit.rs: the token buckets of the clients, and the address that is limited.
-- An address is its octets, an `Instant` a number of nanoseconds. `f64` is a parameter.
pub mod Bounds
use koinos_evm_engine.Base.{
  ℕ, ◌+◌, ◌-◌, ◌*◌, ◌/◌, ◌^◌, Bool, true, false, not, ◌&&◌, ◌||◌, Option, none, some, List, [], ◌∷◌,
  length, ltb, leb, if◌then◌else◌,
}
use koinos_evm_engine.Base.Words.{Bytes}
use koinos_evm_engine.Base.Dict.{Dict, lookup, put, retain}

-- The numbers that the limiter computes with, and what it relies on of them.
pub record Float : Type 1 where
  pub F : Type 0
  pub of_nat : ℕ → F
  pub secs : ℕ → F
  pub add : F → F → F
  pub mul : F → F → F
  pub sub : F → F → F
  pub min : F → F → F
  pub ge : F → F → Bool
  pub is_above : F → F → Bool
  pub Le : F → F → Type 0
  pub Le-trans : (a b c : F) → Le a b → Le b c → Le a c
  pub min-Le : (a b : F) → Le (min a b) b
  pub sub-Le : (a : F) (n : ℕ) → Le (sub a (of_nat n)) a

abbrev pub max_buckets : ℕ
max_buckets = 10_000

abbrev pub idle_sweep_secs : ℕ
idle_sweep_secs = 60

abbrev pub or_greater : ℕ → ℕ → ℕ
or_greater a b = if ltb a b then b else a

module _ (float : Float) where
  pub record Bucket : Type 0 where
    pub tokens : float.F
    pub last_refill : ℕ

  pub record RateLimiter : Type 0 where
    pub buckets : Dict Bucket
    pub rps : float.F
    pub burst : float.F

  unfoldable pub new : ℕ → ℕ → RateLimiter
  new rps burst = record {
    buckets = [];
    rps = float.of_nat rps;
    burst = float.of_nat (or_greater burst (or_greater rps 1));
  }

  unfoldable pub enabled : RateLimiter → Bool
  enabled l = float.is_above l.rps (float.of_nat 0)

  unfoldable pub is_known : RateLimiter → Bytes → Bool
  is_known l ip = elim (lookup l.buckets ip) [ none ↦ false | some b ↦ true ]

  -- The sweep of the idle buckets.
  unfoldable pub sweep : ℕ → RateLimiter → RateLimiter
  sweep now l = record l {
    buckets = retain (λ b. ltb ((now - b.last_refill) / 10 ^ 9) idle_sweep_secs) l.buckets;
  }

  -- `entry(ip).or_insert(…)`
  abbrev pub entry : ℕ → RateLimiter → Option Bucket → Bucket
  entry now l none = record { tokens = l.burst; last_refill = now }
  entry now l (some b) = b

  unfoldable pub refill : ℕ → RateLimiter → Bucket → Bucket
  refill now l b = record {
    tokens =
        float.min (float.add b.tokens (float.mul (float.secs (now - b.last_refill)) l.rps)) l.burst;
    last_refill = now;
  }

  -- The tokens are taken, if there are enough.
  unfoldable pub take_tokens : ℕ → Bytes → ℕ → RateLimiter → Bool × RateLimiter
  take_tokens now ip cost l =
      let b = refill now l (entry now l (lookup l.buckets ip)) in
      if float.ge b.tokens (float.of_nat cost)
      then (
        true,
        record l {
          buckets = put ip (record b { tokens = float.sub b.tokens (float.of_nat cost) }) l.buckets;
        },
      )
      else (false, record l { buckets = put ip b l.buckets })

  unfoldable pub allow : ℕ → Bytes → ℕ → RateLimiter → Bool × RateLimiter
  allow now ip cost l =
      let cost = or_greater cost 1 in
      let swept = sweep now l in
      if not (enabled l)
      then (true, l)
      else if leb max_buckets (length l.buckets) && not (is_known l ip)
      then if leb max_buckets (length swept.buckets)
        then (false, swept)
        else take_tokens now ip cost swept
      else take_tokens now ip cost l

-- The headers of a request: the parsed value of X-Real-IP, and of the last hop of X-Forwarded-For.
pub record Headers : Type 0 where
  pub real_ip : Option Bytes
  pub forwarded_for : Option Bytes

unfoldable pub effective_client_ip : (is_loopback : Bytes → Bool) → Bytes → Headers → Bool → Bytes
effective_client_ip is_loopback peer headers trust =
    if not trust || not (is_loopback peer) then peer else elim headers.real_ip [
      | some ip ↦ ip
      | none ↦ elim headers.forwarded_for [ some ip ↦ ip | none ↦ peer ]
    ]
