-- ===== src/Gateway/TxMetaStore.antt =====
-- koinos-evm/rpc/src/state.rs: the metadata of the relayed transactions, `TxMetaStore`.
-- An `Instant` is a number of nanoseconds, and the clock's reading is an argument.
pub mod Bounds
pub mod Keeps
pub mod Reached
use koinos_evm_engine.Base.{
  ℕ, zero, suc, ◌+◌, ◌-◌, ◌≤◌, Bool, true, false, Option, none, some, List, [], ◌∷◌, ◌++◌, length,
  leb, ◌==◌, ltb, if◌then◌else◌, arith,
}
use koinos_evm_engine.Base.Words.{Bytes}
use koinos_evm_engine.Base.Dict
use koinos_evm_engine.Base.Dict.{Dict, lookup, put}

pub record TxMeta : Type 0 where
  pub koinos_tx_id : Bytes
  pub from : Bytes
  pub to : Option Bytes
  pub nonce : ℕ
  pub value : Bytes
  pub input : Bytes
  pub gas_limit : ℕ
  pub gas_price : Bytes
  pub raw_tx : Bytes
  pub tx_type : ℕ
  pub chain_id : Option ℕ
  pub r : Bytes
  pub s : Bytes
  pub v : ℕ

-- An entry of the map, and one of the queue: a hash and the time of its insertion.
abbrev pub Entry : Type 0
Entry = TxMeta × ℕ

abbrev pub Queued : Type 0
Queued = Bytes × ℕ

pub record TxMetaStore : Type 0 where
  pub entries : Dict Entry
  pub order : List Queued
  pub cap : ℕ
  pub ttl : ℕ

unfoldable pub new : ℕ → ℕ → TxMetaStore
new cap ttl = record { entries = []; order = []; cap = if leb cap 1 then 1 else cap; ttl = ttl }

unfoldable pub contains : TxMetaStore → Bytes → Bool
contains s hash = elim (lookup s.entries hash) [ none ↦ false | some e ↦ true ]

unfoldable pub get : TxMetaStore → Bytes → Option TxMeta
get s hash = elim (lookup s.entries hash) [ none ↦ none | some (meta, t) ↦ some meta ]

-- `map_match`: the map's entry is the one that was queued.
unfoldable pub matches : Dict Entry → Queued → Bool
matches m (hash, inserted) = elim (lookup m hash) [ none ↦ false | some (meta, t) ↦ t == inserted ]

-- The first loop of `evict`: stale and expired entries from the front.
unfoldable pub evict_expired : ℕ → ℕ → Dict Entry → List Queued → Dict Entry × List Queued
evict_expired ttl now m [] = (m, [])
evict_expired ttl now m ((hash, inserted) ∷ rest) =
    let stale = evict_expired ttl now m rest in
    let expired = evict_expired ttl now (Dict.remove hash m) rest in
    if matches m (hash, inserted)
    then if leb ttl (now - inserted) then expired else (m, (hash, inserted) ∷ rest)
    else stale

-- The second loop: the oldest entries until the map is within its cap.
unfoldable pub evict_over : ℕ → Dict Entry → List Queued → Dict Entry × List Queued
evict_over cap m [] = (m, [])
evict_over cap m ((hash, inserted) ∷ rest) =
    let dropped = evict_over cap (Dict.remove hash m) rest in
    let stale = evict_over cap m rest in
    if ltb cap (length m)
    then if matches m (hash, inserted) then dropped else stale
    else (m, (hash, inserted) ∷ rest)

unfoldable pub evict : ℕ → TxMetaStore → TxMetaStore
evict now s =
    let (unexpired, queue) = evict_expired s.ttl now s.entries s.order in
    let (kept, order) = evict_over s.cap unexpired queue in
    record s { entries = kept; order = order }

unfoldable pub insert : ℕ → Bytes → TxMeta → TxMetaStore → TxMetaStore
insert now hash meta s =
    evict now
      (record s { entries = put hash (meta, now) s.entries; order = s.order ++ ((hash, now) ∷ []) })

unfoldable pub set_koinos_tx_id : Bytes → Bytes → TxMetaStore → TxMetaStore
set_koinos_tx_id hash id s = elim (lookup s.entries hash) [
  | none ↦ s
  | some (meta, t) ↦ record s {
    entries = put hash (record meta { koinos_tx_id = id }, t) s.entries;
  }
]

unfoldable pub remove : Bytes → TxMetaStore → TxMetaStore
remove hash s = record s { entries = Dict.remove hash s.entries }
