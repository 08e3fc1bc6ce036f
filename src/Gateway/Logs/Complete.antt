-- ===== src/Gateway/Logs/Complete.antt =====
-- An answer of eth_getLogs is whole: a result is never cut off.
use koinos_evm_engine.Base.{ℕ, ◌≤◌, ◌≡◌, ◌⊎◌, ◌≢◌, Option, none, some, List, map, length}
use koinos_evm_engine.Base.Words.{Bytes}
use koinos_evm_engine.Base.Text.{codes}
use koinos_evm_engine.Base.Sort.{sort_by, select}
use koinos_evm_engine.Gateway.Json.{Value, unsigned, text, get}
use koinos_evm_engine.Gateway.EthCodec.{Hex, parse_quantity}
use koinos_evm_engine.Gateway.Db.{Db}
use koinos_evm_engine.Gateway.Db.Query.{LogFilter, LogQueryRow, query_row, selects, by_place}
use koinos_evm_engine.Gateway.Logs.{
  AddressTopicFilter, parse_address_topic_filter, parse_block_hash, block_range, log_filter,
}

-- All rows that a filter selects, in the order of their place.
abbrev pub all_rows : Db → LogFilter → List LogQueryRow
all_rows db f = map query_row (sort_by by_place (select (selects f) db.logs))

-- The height that a tag of a request stands for, `head` being the height that the node gives for its
-- head: that height itself, where the tag is not given or is one of four words.
pub data StandsFor (head : Option ℕ) : Option Value → ℕ → Type 0 where
  not_given : (n : ℕ) → head ≡ some n → StandsFor head none n
  latest : (n : ℕ) → head ≡ some n → StandsFor head (some (text (codes "latest"))) n
  pending : (n : ℕ) → head ≡ some n → StandsFor head (some (text (codes "pending"))) n
  safe : (n : ℕ) → head ≡ some n → StandsFor head (some (text (codes "safe"))) n
  finalized : (n : ℕ) → head ≡ some n → StandsFor head (some (text (codes "finalized"))) n
  earliest : StandsFor head (some (text (codes "earliest"))) 1
  quantity : (s : Bytes) (n : ℕ) → parse_quantity s ≡ some n → StandsFor head (some (text s)) n
  number : (n : ℕ) → StandsFor head (some (unsigned n)) n

-- A range of heights that the tags of a request stand for: it goes up, and is not too large.
pub record IsRange (max_range : ℕ) (head : Option ℕ) (from_v to_v : Option Value) (from to : ℕ)
    : Type 0 where
  pub from_read : StandsFor head from_v from
  pub to_read : StandsFor head to_v to
  pub ordered : from ≤ to
  pub small : block_range from to ≤ max_range

-- The rows are all that the request's filter selects, and no more than the limit; a filter with no
-- block hash is over the request's range of heights.
pub record IsComplete (hex : Hex) (max_range max_results : ℕ) (db : Db) (request : Value)
    (head : Option ℕ) (rs : List LogQueryRow) : Type 0 where
  pub asked : AddressTopicFilter
  pub parsed : parse_address_topic_filter hex request ≡ some asked
  pub block_hash : Option Bytes
  pub hash_parsed : parse_block_hash hex (get (codes "blockHash") request) ≡ some block_hash
  pub from : ℕ
  pub to : ℕ
  pub all : rs ≡ all_rows db (log_filter asked from to block_hash)
  pub few : length rs ≤ max_results
  pub range :
      (block_hash ≢ none)
      ⊎ IsRange max_range head
          (get (codes "fromBlock") request)
          (get (codes "toBlock") request)
          from
          to
