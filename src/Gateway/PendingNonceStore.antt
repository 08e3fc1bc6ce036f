-- ===== src/Gateway/PendingNonceStore.antt =====
-- koinos-evm/rpc/src/state.rs: the next nonces of the senders, `PendingNonceStore`.
-- An `Instant` is a number of nanoseconds, and the clock's reading is an argument.
pub mod Bounds
use koinos_evm_engine.Base.{
  ℕ, ◌-◌, Bool, true, false, Option, none, some, List, [], ◌∷◌, length, leb, ltb, if◌then◌else◌,
  arith,
}
use koinos_evm_engine.Base.Words.{Bytes}
use koinos_evm_engine.Base.Dict
use koinos_evm_engine.Base.Dict.{Dict, lookup, put, retain}

-- A nonce, and the time of its last advance.
abbrev pub Entry : Type 0
Entry = ℕ × ℕ

pub record PendingNonceStore : Type 0 where
  pub entries : Dict Entry
  pub cap : ℕ
  pub ttl : ℕ

unfoldable pub new : ℕ → ℕ → PendingNonceStore
new cap ttl = record { entries = []; cap = if leb cap 1 then 1 else cap; ttl = ttl }

unfoldable pub get_unexpired : ℕ → PendingNonceStore → Bytes → Option ℕ
get_unexpired now s addr = elim (lookup s.entries addr) [
  | none ↦ none
  | some (nonce, t) ↦ if leb s.ttl (now - t) then none else some nonce
]

-- The sender with the oldest entry and its time. `min_by_key` takes one of several: here the first.
unfoldable pub oldest : Dict Entry → Option (Bytes × ℕ)
oldest [] = none
oldest ((addr, (nonce, t)) ∷ d) = elim (oldest d) [
  | none ↦ some (addr, t)
  | some (other, u) ↦ if ltb u t then some (other, u) else some (addr, t)
]

-- The single oldest entry is dropped.
unfoldable pub drop_oldest : Dict Entry → Dict Entry
drop_oldest d = elim (oldest d) [ none ↦ d | some (addr, t) ↦ Dict.remove addr d ]

unfoldable pub evict : ℕ → PendingNonceStore → PendingNonceStore
evict now s =
    let fresh = retain (λ e. ltb (now - e.1) s.ttl) s.entries in
    record s { entries = if leb s.cap (length fresh) then drop_oldest fresh else fresh }

unfoldable pub advance : ℕ → Bytes → ℕ → PendingNonceStore → PendingNonceStore
advance now addr next s = elim (lookup s.entries addr) [
  | some (cur, t) ↦ record s {
    entries = put addr (if ltb cur next then next else cur, now) s.entries;
  }
  | none ↦
      let room = if leb s.cap (length s.entries) then evict now s else s in
      record room { entries = put addr (next, now) room.entries }
]

unfoldable pub remove : Bytes → PendingNonceStore → PendingNonceStore
remove addr s = record s { entries = Dict.remove addr s.entries }
