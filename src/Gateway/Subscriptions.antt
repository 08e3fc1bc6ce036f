-- ===== src/Gateway/Subscriptions.antt =====
-- koinos-evm/rpc/src/ws.rs: the subscriptions of a connection, what is pushed to them, and the two
-- pollers. The rendered JSON is a parameter. A message is a subscription's id with its result; that
-- a socket fails while they are sent is left out. A HashMap is gone through in the order of its list.
pub mod Agree
use koinos_evm_engine.Base.{
  ℕ, zero, suc, ◌+◌, ◌-◌, ◌^◌, ◌%◌, Bool, true, false, not, ◌&&◌, ◌||◌, Option, none, some, ◌>>=?◌,
  List, [], ◌∷◌, ◌++◌, map, get_elem?, is_empty, ltb, leb, ◌==◌, bytes_eq, if◌then◌else◌,
}
use koinos_evm_engine.Base.Words.{Bytes}
use koinos_evm_engine.Base.Text.{codes}
use koinos_evm_engine.Base.Dict
use koinos_evm_engine.Base.Dict.{Dict, lookup, put}
use koinos_evm_engine.Gateway.Json
use koinos_evm_engine.Gateway.Json.{Value, get_at, as_str}
use koinos_evm_engine.Gateway.EthCodec.{Hex, lower_hex}
use koinos_evm_engine.Gateway.Logs.{AddressTopicFilter, parse_address_topic_filter}
use koinos_evm_engine.Gateway.Db.{Db}
use koinos_evm_engine.Gateway.Db.Reads.{max_indexed_height, le_i64}
use koinos_evm_engine.Gateway.Db.Query.{LogFilter, LogQueryRow, is_among, query_logs}

pub data SubKind : Type 0 where
  new_heads : SubKind
  logs_of : AddressTopicFilter → SubKind

-- The position `i` and those behind it.
unfoldable pub topics_match : ℕ → List (List Bytes) → List Bytes → Bool
topics_match i [] topics = true
topics_match i (alternatives ∷ rest) topics =
    let others = topics_match (i + 1) rest topics in
    if is_empty alternatives then others else elim (get_elem? topics i) [
      | none ↦ false
      | some t ↦ if is_among alternatives t then others else false
    ]

unfoldable pub positions : AddressTopicFilter → List (List Bytes)
positions f = f.topics0 ∷ f.topics1 ∷ f.topics2 ∷ f.topics3 ∷ []

unfoldable pub log_matches : AddressTopicFilter → Bytes → List Bytes → Bool
log_matches f address topics =
    if not (is_empty f.addresses) && not (is_among f.addresses address)
    then false
    else topics_match 0 (positions f) topics

-- What `handle_request` answers to the two methods of its own.
pub data Reply : Type 0 where
  subscribed : Bytes → Reply
  unsubscribed : Bool → Reply
  invalid_filter unsupported_kind : Reply

unfoldable pub subscribe : ℕ → SubKind → Dict SubKind → Reply × ℕ × Dict SubKind
subscribe counter kind subs =
    let sub_id = codes "0x" ++ lower_hex counter in
    (subscribed sub_id, (counter + 1) % 2 ^ 64, put sub_id kind subs)

-- A text at an index, or the empty one.
unfoldable pub str_at : ℕ → Value → Bytes
str_at i params = elim (get_at i params >>=? as_str) [ none ↦ [] | some s ↦ s ]

unfoldable pub filter_at : Value → Value
filter_at params = elim (get_at 1 params) [ none ↦ Value.object Json.end | some v ↦ v ]

-- eth_subscribe: the counter of the process names the subscription.
unfoldable pub handle_subscribe : Hex → Value → ℕ → Dict SubKind → Reply × ℕ × Dict SubKind
handle_subscribe hex params counter subs =
    let kind = str_at 0 params in
    if bytes_eq kind (codes "newHeads")
    then subscribe counter new_heads subs
    else if bytes_eq kind (codes "logs")
    then elim (parse_address_topic_filter hex (filter_at params)) [
      | none ↦ (invalid_filter, counter, subs)
      | some f ↦ subscribe counter (logs_of f) subs
    ]
    else (unsupported_kind, counter, subs)

unfoldable pub handle_unsubscribe : Value → Dict SubKind → Reply × Dict SubKind
handle_unsubscribe params subs =
    let sub_id = str_at 0 params in
    (
      unsubscribed (elim (lookup subs sub_id) [ none ↦ false | some k ↦ true ]),
      Dict.remove sub_id subs,
    )

-- At most 11 heads are caught up with.
unfoldable pub first_head : ℕ → ℕ → ℕ
first_head last_head height =
    let n = (last_head + 1) % 2 ^ 64 in if leb (height - 10) n then n else height - 10

-- The largest height of the rows, `from` where there is none.
unfoldable pub max_height_of : List LogQueryRow → ℕ → ℕ
max_height_of [] from = from
max_height_of (r ∷ []) from = r.block_height
max_height_of (r ∷ r' ∷ rs) from =
    let rest = max_height_of (r' ∷ rs) from in
    if leb r.block_height rest then rest else r.block_height

abbrev pub tail_filter : ℕ → LogFilter
tail_filter from = record {
  from_block = from;
  to_block = 2 ^ 63 - 1;
  block_hash = none;
  addresses = [];
  topics0 = [];
  topics1 = [];
  topics2 = [];
  topics3 = [];
}

module _ (Json : Type 0) where
  pub record WsLog : Type 0 where
    pub address : Bytes
    pub topics : List Bytes
    pub rendered : Json

  pub data WsEvent : Type 0 where
    new_head : Json → WsEvent
    new_logs : List WsLog → WsEvent

  abbrev pub Message : Type 0
  Message = Bytes × Json

  unfoldable pub push_logs : Bytes → AddressTopicFilter → List WsLog → List Message
  push_logs sub_id f [] = []
  push_logs sub_id f (l ∷ ls) =
      if log_matches f l.address l.topics
      then (sub_id, l.rendered) ∷ push_logs sub_id f ls
      else push_logs sub_id f ls

  -- What one subscription is sent.
  unfoldable pub messages_for : Bytes → SubKind → WsEvent → List Message
  messages_for sub_id new_heads (new_head head) = (sub_id, head) ∷ []
  messages_for sub_id new_heads (new_logs ls) = []
  messages_for sub_id (logs_of f) (new_head head) = []
  messages_for sub_id (logs_of f) (new_logs ls) = push_logs sub_id f ls

  unfoldable pub push_event : Dict SubKind → WsEvent → List Message
  push_event [] ev = []
  push_event ((sub_id, kind) ∷ subs) ev = messages_for sub_id kind ev ++ push_event subs ev

  -- A block as the node gives it: an error, one that is not visible yet, or its header.
  pub data Fetched : Type 0 where
    fetch_failed not_visible : Fetched
    block : Json → Fetched

  -- The heads of the heights from `h` on, and the last height that was pushed; an error ends it.
  unfoldable pub push_heads : (ℕ → Fetched) → ℕ → ℕ → ℕ → List (ℕ × Json) × ℕ
  push_heads fetch zero h last_head = ([], last_head)
  push_heads fetch (suc left) h last_head = elim (fetch h) [
    | fetch_failed ↦ ([], last_head)
    | not_visible ↦ push_heads fetch left (h + 1) last_head
    | block head ↦ let (sent, last) = push_heads fetch left (h + 1) h in ((h, head) ∷ sent, last)
  ]

  -- The first observation is not replayed.
  unfoldable pub poll_heads : (ℕ → Fetched) → ℕ → ℕ → List (ℕ × Json) × ℕ
  poll_heads fetch height last_head =
      let last = if last_head == 0 then height else last_head in
      let from = first_head last height in push_heads fetch (height + 1 - from) from last

  unfoldable pub ws_log : (LogQueryRow → Json) → LogQueryRow → WsLog
  ws_log render r = record { address = r.log.address; topics = r.log.topics; rendered = render r }

  -- A tick of the logs tail: the event, if there are rows, and the next height.
  unfoldable pub poll_logs : (LogQueryRow → Json) → Db → ℕ → Option WsEvent × ℕ
  poll_logs render db last_logs_height =
      let from = (last_logs_height + 1) % 2 ^ 64 in
      let rows = query_logs db (tail_filter from) 1000 in
      if is_empty rows
      then (none, last_logs_height)
      else (some (new_logs (map (ws_log render) rows)), max_height_of rows from)
