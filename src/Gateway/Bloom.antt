-- ===== src/Gateway/Bloom.antt =====
-- koinos-evm/rpc/src/bloom.rs: the bloom filter of a receipt's logs, and
-- koinos-evm/rpc/src/rpc.rs (receipt_to_json): its union over the logs.
pub mod Member
use koinos_evm_engine.Base.{
  ℕ, zero, suc, ◌+◌, ◌-◌, ◌*◌, ◌/◌, ◌%◌, ◌^◌, bit_and, bit_or, List, [], ◌∷◌, replicate, get_or,
}
use koinos_evm_engine.Base.Words.{Bytes}

abbrev pub bloom_bytes : ℕ
bloom_bytes = 256

-- The accumulator, big-endian.
abbrev pub Bloom : Type 0
Bloom = Bytes

abbrev pub default : Bloom
default = replicate bloom_bytes 0

-- `xs[i] |= mask`, where `i` is in range.
unfoldable pub or_at : ℕ → ℕ → Bytes → Bytes
or_at i mask [] = []
or_at zero mask (b ∷ bs) = bit_or b mask ∷ bs
or_at (suc i) mask (b ∷ bs) = b ∷ or_at i mask bs

-- The loop body of `accrue` for a position.
unfoldable pub set_bit : ℕ → Bloom → Bloom
set_bit idx bloom = or_at (bloom_bytes - 1 - idx / 8) (2 ^ (idx % 8)) bloom

unfoldable pub position : Bytes → ℕ → ℕ
position hash pair =
    bit_and (bit_or (get_or hash (2 * pair) 0 * 2 ^ 8 % 2 ^ 16) (get_or hash (2 * pair + 1) 0))
      0x7ff

unfoldable pub union : Bloom → Bloom → Bloom
union [] other = []
union (a ∷ as') [] = a ∷ as'
union (a ∷ as') (b ∷ bs) = bit_or a b ∷ union as' bs

module _ (keccak256 : Bytes → Bytes) where
  unfoldable pub accrue : Bytes → Bloom → Bloom
  accrue element bloom =
      let hash = keccak256 element in
      set_bit (position hash 2) (set_bit (position hash 1) (set_bit (position hash 0) bloom))

  unfoldable pub accrue_all : List Bytes → Bloom → Bloom
  accrue_all [] bloom = bloom
  accrue_all (t ∷ topics) bloom = accrue_all topics (accrue t bloom)

  unfoldable pub log_bloom : Bytes → List Bytes → Bloom
  log_bloom address topics = accrue_all topics (accrue address default)

  -- The union over the logs of a receipt, each with its address and its topics.
  unfoldable pub receipt_bloom : List (Bytes × List Bytes) → Bloom → Bloom
  receipt_bloom [] bloom = bloom
  receipt_bloom ((address, topics) ∷ logs) bloom =
      receipt_bloom logs (union bloom (log_bloom address topics))
