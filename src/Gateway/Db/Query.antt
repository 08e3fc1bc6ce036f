-- ===== src/Gateway/Db/Query.antt =====
-- koinos-evm/rpc/src/db.rs: the log filter and `query_logs`.
use koinos_evm_engine.Base.{
  ℕ, ◌-◌, ◌^◌, Bool, true, false, ◌&&◌, ◌||◌, Option, none, some, List, [], ◌∷◌, map, is_empty,
  take, ltb, leb, ◌==◌, bytes_eq, if◌then◌else◌,
}
use koinos_evm_engine.Base.Words.{Bytes}
use koinos_evm_engine.Base.Sort.{sort_by, select}
use koinos_evm_engine.Gateway.Receipts.{LogRow}
use koinos_evm_engine.Gateway.Db.{StoredLog, Db}
use koinos_evm_engine.Gateway.Db.Reads.{le_i64, row_log}

pub record LogQueryRow : Type 0 where
  pub eth_hash : Bytes
  pub block_height : ℕ
  pub block_hash : Bytes
  pub tx_index : ℕ
  pub log : LogRow

-- The alternatives of the four topic positions; an empty list means "any".
pub record LogFilter : Type 0 where
  pub from_block : ℕ
  pub to_block : ℕ
  pub block_hash : Option Bytes
  pub addresses : List Bytes
  pub topics0 : List Bytes
  pub topics1 : List Bytes
  pub topics2 : List Bytes
  pub topics3 : List Bytes

-- `IN (…)`, or `any` in the source.
unfoldable pub is_among : List Bytes → Bytes → Bool
is_among [] x = false
is_among (a ∷ rest) x = bytes_eq a x || is_among rest x

-- `.min(i64::MAX as u64)`
unfoldable pub clamp_i64 : ℕ → ℕ
clamp_i64 n = if leb n (2 ^ 63 - 1) then n else 2 ^ 63 - 1

-- The condition on the block.
unfoldable pub in_blocks : LogFilter → StoredLog → Bool
in_blocks f l = elim f.block_hash [
  | some h ↦ bytes_eq l.block_hash h
  | none ↦
      le_i64 (clamp_i64 f.from_block) l.block_height && le_i64 l.block_height (clamp_i64 f.to_block)
]

unfoldable pub address_in : List Bytes → Bytes → Bool
address_in addresses address = is_empty addresses || is_among addresses address

-- A NULL column is in no list.
unfoldable pub topic_in : List Bytes → Option Bytes → Bool
topic_in alternatives none = is_empty alternatives
topic_in alternatives (some t) = is_empty alternatives || is_among alternatives t

-- The WHERE clause.
unfoldable pub selects : LogFilter → StoredLog → Bool
selects f l =
    in_blocks f l
    && (address_in f.addresses l.address
        && (topic_in f.topics0 l.topic0
            && (topic_in f.topics1 l.topic1
                && (topic_in f.topics2 l.topic2 && topic_in f.topics3 l.topic3))))

-- The order of two BLOBs.
unfoldable pub bytes_le : Bytes → Bytes → Bool
bytes_le [] ys = true
bytes_le (x ∷ xs) [] = false
bytes_le (x ∷ xs) (y ∷ ys) = if x == y then bytes_le xs ys else ltb x y

-- `ORDER BY block_height, eth_hash, log_index`
unfoldable pub by_place : StoredLog → StoredLog → Bool
by_place a b =
    if a.block_height == b.block_height
    then if bytes_eq a.eth_hash b.eth_hash
      then le_i64 a.log_index b.log_index
      else bytes_le a.eth_hash b.eth_hash
    else le_i64 a.block_height b.block_height

unfoldable pub query_row : StoredLog → LogQueryRow
query_row l = record {
  eth_hash = l.eth_hash;
  block_height = l.block_height;
  block_hash = l.block_hash;
  tx_index = l.tx_index;
  log = row_log l;
}

unfoldable pub query_logs : Db → LogFilter → ℕ → List LogQueryRow
query_logs db f limit = map query_row (take limit (sort_by by_place (select (selects f) db.logs)))
