-- ===== src/Gateway/Logs.antt =====
-- koinos-evm/rpc/src/rpc.rs: the log filter of eth_getLogs and of a logs subscription, and the
-- handler of eth_getLogs up to its rows. `none` is an error of the parameters.
pub mod Complete
use koinos_evm_engine.Base.{
  ℕ, zero, suc, ◌+◌, ◌-◌, ◌^◌, Bool, true, false, not, ◌&&◌, ◌||◌, Option, none, some, ◌>>=?◌, List,
  [], ◌∷◌, ◌++◌, length, ltb, leb, ◌==◌, bytes_eq, if◌then◌else◌,
}
use koinos_evm_engine.Base.Words.{Bytes}
use koinos_evm_engine.Base.Text.{codes}
use koinos_evm_engine.Base.Decimal.{parse_u64}
use koinos_evm_engine.Gateway.Json.{
  Value, null, bool, unsigned, other_number, text, array, object, elements, get, get_at, as_str,
}
use koinos_evm_engine.Gateway.EthCodec.{Hex, strip_prefix, parse_quantity, parse_address, parse_b32}
use koinos_evm_engine.Gateway.Db.{Db}
use koinos_evm_engine.Gateway.Db.Query.{LogFilter, LogQueryRow, query_logs}

-- Addresses, and the alternatives of the four topic positions.
pub record AddressTopicFilter : Type 0 where
  pub addresses : List Bytes
  pub topics0 : List Bytes
  pub topics1 : List Bytes
  pub topics2 : List Bytes
  pub topics3 : List Bytes

-- `resolve_block_tag`
unfoldable pub resolve_block_tag : Value → ℕ → Option ℕ
resolve_block_tag (text s) head =
    if bytes_eq s (codes "latest")
      || (bytes_eq s (codes "pending")
          || (bytes_eq s (codes "safe") || bytes_eq s (codes "finalized")))
    then some head
    else if bytes_eq s (codes "earliest")
    then some 1
    else elim (strip_prefix (codes "0x") s) [ none ↦ none | some rest ↦ parse_quantity s ]
resolve_block_tag (unsigned n) head = some n
resolve_block_tag _ head = none

-- Texts that are read one by one, up to the first error.
unfoldable pub parse_all : (Bytes → Option Bytes) → List Value → Option (List Bytes)
parse_all parse [] = some []
parse_all parse (v ∷ vs) =
    as_str v >>=? λ s. parse s >>=? λ b. parse_all parse vs >>=? λ bs. some (b ∷ bs)

-- A position that is not given is any.
unfoldable pub position : List (List Bytes) → ℕ → List Bytes
position [] i = []
position (t ∷ ts) zero = t
position (t ∷ ts) (suc i) = position ts i

unfoldable pub is_given : Option Value → Bool
is_given none = false
is_given (some null) = false
is_given (some _) = true

-- Whether a tag needs the height of the head.
unfoldable pub needs_head : Option Value → Bool
needs_head none = true
needs_head (some null) = true
needs_head (some (text s)) = elim (strip_prefix (codes "0x") s) [ none ↦ true | some r ↦ false ]
needs_head (some _) = false

unfoldable pub or_latest : Option Value → Value
or_latest none = text (codes "latest")
or_latest (some v) = v

-- How `handle_get_logs` ends.
pub data Logs : Type 0 where
  bad_params node_failed range_too_large too_many_results : Logs
  rows : List LogQueryRow → Logs

-- The number of blocks of a range; one that overflows counts as the largest u64.
unfoldable pub block_range : ℕ → ℕ → ℕ
block_range from to = if ltb (to - from + 1) (2 ^ 64) then to - from + 1 else 2 ^ 64 - 1

unfoldable pub log_filter : AddressTopicFilter → ℕ → ℕ → Option Bytes → LogFilter
log_filter f from to hash = record {
  from_block = from;
  to_block = to;
  block_hash = hash;
  addresses = f.addresses;
  topics0 = f.topics0;
  topics1 = f.topics1;
  topics2 = f.topics2;
  topics3 = f.topics3;
}

unfoldable pub run_query : ℕ → Db → LogFilter → Logs
run_query max_results db f =
    let found = query_logs db f (max_results + 1) in
    if ltb max_results (length found) then too_many_results else rows found

-- The range, from the height of the head on. `head` is the node's answer, where it is asked for.
unfoldable pub logs_in_range :
    ℕ → ℕ → Db → AddressTopicFilter → Option Value → Option Value → ℕ → Logs
logs_in_range max_range max_results db f from_v to_v head =
    elim (resolve_block_tag (or_latest from_v) head) [
      | none ↦ bad_params
      | some from ↦ elim (resolve_block_tag (or_latest to_v) head) [
        | none ↦ bad_params
        | some to ↦
            if ltb to from
            then bad_params
            else if ltb max_range (block_range from to)
            then range_too_large
            else run_query max_results db (log_filter f from to none)
      ]
    ]

-- `head` is what `get_head_info` gives, with its height read: `none` is an error.
unfoldable pub logs_by_range : ℕ → ℕ → Db → AddressTopicFilter → Value → Option ℕ → Logs
logs_by_range max_range max_results db f filter head =
    let from_v = get (codes "fromBlock") filter in
    let to_v = get (codes "toBlock") filter in
    if needs_head from_v || needs_head to_v
    then elim head [
      | none ↦ node_failed
      | some h ↦ logs_in_range max_range max_results db f from_v to_v h
    ]
    else logs_in_range max_range max_results db f from_v to_v 0

module _ (hex : Hex) where
  unfoldable pub parse_addresses : Option Value → Option (List Bytes)
  parse_addresses none = some []
  parse_addresses (some null) = some []
  parse_addresses (some (text s)) = parse_address hex s >>=? λ a. some (a ∷ [])
  parse_addresses (some (array items)) = parse_all (parse_address hex) (elements items)
  parse_addresses (some _) = none

  -- One topic position: any, one topic, or alternatives.
  unfoldable pub parse_topic : Value → Option (List Bytes)
  parse_topic null = some []
  parse_topic (text s) = parse_b32 hex s >>=? λ t. some (t ∷ [])
  parse_topic (array items) = parse_all (parse_b32 hex) (elements items)
  parse_topic _ = none

  unfoldable pub parse_positions : List Value → Option (List (List Bytes))
  parse_positions [] = some []
  parse_positions (v ∷ vs) = parse_topic v >>=? λ t. parse_positions vs >>=? λ ts. some (t ∷ ts)

  unfoldable pub parse_topics : Option Value → Option (List (List Bytes))
  parse_topics none = some []
  parse_topics (some null) = some []
  parse_topics (some (array items)) =
      if ltb 4 (length (elements items)) then none else parse_positions (elements items)
  parse_topics (some _) = none

  unfoldable pub parse_address_topic_filter : Value → Option AddressTopicFilter
  parse_address_topic_filter filter =
      parse_addresses (get (codes "address") filter) >>=? λ addresses.
      parse_topics (get (codes "topics") filter) >>=? λ ts. some (record {
        addresses = addresses;
        topics0 = position ts 0;
        topics1 = position ts 1;
        topics2 = position ts 2;
        topics3 = position ts 3;
      })

  unfoldable pub parse_block_hash : Option Value → Option (Option Bytes)
  parse_block_hash none = some none
  parse_block_hash (some null) = some none
  parse_block_hash (some (text s)) = parse_b32 hex s >>=? λ h. some (some h)
  parse_block_hash (some _) = none

  unfoldable pub logs_of_filter : ℕ → ℕ → Db → Value → Option ℕ → Logs
  logs_of_filter max_range max_results db filter head = elim (parse_address_topic_filter filter) [
    | none ↦ bad_params
    | some f ↦ elim (parse_block_hash (get (codes "blockHash") filter)) [
      | none ↦ bad_params
      | some none ↦ logs_by_range max_range max_results db f filter head
      | some (some hash) ↦
          if is_given (get (codes "fromBlock") filter) || is_given (get (codes "toBlock") filter)
          then bad_params
          else run_query max_results db (log_filter f 0 0 (some hash))
    ]
  ]

  unfoldable pub handle_get_logs : ℕ → ℕ → Db → Value → Option ℕ → Logs
  handle_get_logs max_range max_results db params head = elim (get_at 0 params) [
    | some (object fields) ↦ logs_of_filter max_range max_results db (object fields) head
    | _ ↦ bad_params
  ]
