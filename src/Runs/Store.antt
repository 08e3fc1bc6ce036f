-- ===== src/Runs/Store.antt =====
-- Runs of the gateway's store, of its log queries and of the hex codec.
use koinos_evm_engine.Base.{
  ℕ, ◌+◌, ◌*◌, ◌/◌, ◌^◌, ap, ◌∙◌, length-append, take-append_length, ◌<◌, ◌≡◌, refl, Bool, true,
  false, none, some, List, [], ◌∷◌, ◌++◌, length, replicate, take, map, bytes_eq, arith,
}
use koinos_evm_engine.Base.Words.{Bytes}
use koinos_evm_engine.Base.Text.{codes}
use koinos_evm_engine.Base.Sort.{select, sort_by, insert_by}
use koinos_evm_engine.Base.Decimal.{parse_u64, digits_onto, digit_value}
use koinos_evm_engine.Base.Dict.{Dict, lookup}
use koinos_evm_engine.Gateway.TxMetaStore.{TxMeta, TxMetaStore, get}
use koinos_evm_engine.Gateway.Relay.{Answer}
use koinos_evm_engine.Gateway.Indexer.{receipt_row, strip_multihash}
use koinos_evm_engine.Gateway.Settling.{
  Chain, Disk, handle_get_tx_receipt, load_meta, stored_receipt, persist, settle_from_chain,
  fetch_receipt_from_chain, included, included_receipt, fetch_block_height, block_hash_of,
}
use koinos_evm_engine.Gateway.Settling.Durable.{IsPersisted, handle_get_tx_receipt-IsPersisted}
use koinos_evm_engine.Gateway.Receipts.{LogRow, empty_events, decode_receipt_events, decode_events}
use koinos_evm_engine.Gateway.EthCodec.{Hex, parse_quantity, quantity, strip_prefix}
use koinos_evm_engine.Gateway.EthCodec.Quantities.{parse_quantity-quantity}
use koinos_evm_engine.Gateway.Json
use koinos_evm_engine.Gateway.Json.{Value, get as get_json}
use koinos_evm_engine.Gateway.Db.{
  ReceiptRow, Db, empty_db, find_tx, update_tx, insert_tx, new_row, settled, log_row, log_rows,
  replace_logs, keeps_index, is_indexed, block_of, find_block, write_index, index_tx, upsert_tx,
}
use koinos_evm_engine.Gateway.Db.Reads.{
  is_settled, has_status, get_receipt, row_log, row_topics, push_topic, le_i64,
}
use koinos_evm_engine.Gateway.Db.Query.{
  LogQueryRow, query_row, query_logs, is_among, selects, in_blocks, clamp_i64, address_in, topic_in,
}
use koinos_evm_engine.Gateway.Db.Indexes.{IsIndexed, Reached, Reached-IsIndexed}
use koinos_evm_engine.Gateway.Db.Indexes
use koinos_evm_engine.Gateway.Db.Repeats.{index_tx-twice, IsSucceeded, index_tx-IsSucceeded}
use koinos_evm_engine.Gateway.Db.Receipts.{get_receipt-index_tx, numbered}
use koinos_evm_engine.Gateway.Logs.{AddressTopicFilter, log_filter}
use koinos_evm_engine.Gateway.Subscriptions.{
  SubKind, new_heads, logs_of, topics_match, positions, log_matches, WsEvent, new_logs, push_logs,
  messages_for, push_event, ws_log,
}
use koinos_evm_engine.Gateway.Subscriptions.Agree.{tick_rows}
use koinos_evm_engine.Runs.Gateway.{demo_hash, demo_meta}

abbrev demo_log : LogRow
demo_log = record {
  log_index = 0;
  address = replicate 20 1;
  topics = replicate 32 2 ∷ [];
  payload = 3 ∷ [];
}

abbrev pub receipt_at : ℕ → Bool → ReceiptRow
receipt_at height status = record {
  block_height = height;
  block_hash = replicate 32 height;
  tx_index = none;
  status = status;
  gas_used = 21000;
  contract_address = none;
  logs = demo_log ∷ [];
}

-- The transaction is relayed, and then indexed in block 5.
abbrev relayed : Db
relayed = upsert_tx demo_hash demo_meta empty_db

abbrev in_block_5 : Db
in_block_5 = (index_tx demo_hash demo_meta (receipt_at 5 true) 100 relayed).1

Reached-IsIndexed_example : IsIndexed in_block_5
Reached-IsIndexed_example = Reached-IsIndexed {db = in_block_5} (
    Indexes.next (Indexes.next Indexes.opened (Indexes.upsert demo_hash demo_meta empty_db))
      (Indexes.index demo_hash demo_meta (receipt_at 5 true) 100 relayed))

index_tx-twice_example :
    index_tx demo_hash demo_meta (receipt_at 5 true) 200 in_block_5 ≡ (false, in_block_5)
index_tx-twice_example =
    index_tx-twice demo_hash demo_meta demo_meta (receipt_at 5 true) 100 200 relayed

in_block_5-IsSucceeded : IsSucceeded demo_hash in_block_5
unfolding bytes_eq index_tx is_indexed keeps_index find_tx write_index insert_tx settled new_row
    upsert_tx update_tx block_of find_block
in_block_5-IsSucceeded = record {
  row = settled (receipt_at 5 true) (some 0) (new_row demo_hash demo_meta);
  found = refl;
  height = 5;
  at_height = refl;
  place = 0;
  at_place = refl;
  succeeded = refl;
}

index_tx-IsSucceeded_example :
    IsSucceeded demo_hash (index_tx demo_hash demo_meta (receipt_at 6 false) 200 in_block_5).1
index_tx-IsSucceeded_example =
    index_tx-IsSucceeded demo_hash demo_hash demo_meta (receipt_at 6 false) 200 in_block_5
      in_block_5-IsSucceeded

relayed-writes : (index_tx demo_hash demo_meta (receipt_at 5 true) 100 relayed).0 ≡ true
unfolding bytes_eq index_tx is_indexed keeps_index find_tx upsert_tx new_row insert_tx
relayed-writes = refl

relayed-count : (block_of (receipt_at 5 true) 100 relayed.blocks).log_count + 1 < 2 ^ 63
unfolding block_of find_block upsert_tx
relayed-count = omega arith

get_receipt-index_tx_example :
    get_receipt in_block_5 demo_hash
    ≡ some (record (receipt_at 5 true) {
      tx_index = some (block_of (receipt_at 5 true) 100 relayed.blocks).tx_count;
      logs = numbered (block_of (receipt_at 5 true) 100 relayed.blocks).log_count (demo_log ∷ []);
    })
get_receipt-index_tx_example =
    get_receipt-index_tx demo_hash demo_meta (receipt_at 5 true) 100 relayed relayed-writes
      (omega arith, tt) relayed-count

pub halves : (b : Bytes) → some (take (length (b ++ b) / 2) (b ++ b)) ≡ some b
halves b =
    ap (λ (n : ℕ). some (take n (b ++ b))) (omega (arith, length-append b b))
    ∙ ap some (take-append_length b b)

pub doubled : (b : Bytes) → length (b ++ b) ≡ 2 * length b
doubled b = omega (arith, length-append b b)

-- A codec of one digit for each byte, which serves no text here.
abbrev pub demo_hex : Hex
demo_hex = record {
  encode = λ b. b ++ b;
  decode = λ s. some (take (length s / 2) s);
  decode-encode = λ b h. halves b;
  length-encode = λ b. doubled b;
}

abbrev demo_request : Value
demo_request = Value.object (
    Json.field (codes "fromBlock") (Value.text (codes "0x1"))
      (Json.field (codes "toBlock") (Value.text (codes "latest")) Json.end))

abbrev demo_params : Value
demo_params = Value.array (Json.cons demo_request Json.nil)

abbrev demo_filter : AddressTopicFilter
demo_filter = record { addresses = []; topics0 = []; topics1 = []; topics2 = []; topics3 = [] }

abbrev demo_rows : List LogQueryRow
demo_rows = query_logs in_block_5 (log_filter demo_filter 1 9 none) 11

abbrev any_filter : AddressTopicFilter
any_filter = record {
  addresses = [];
  topics0 = replicate 32 2 ∷ [];
  topics1 = [];
  topics2 = [];
  topics3 = [];
}

-- Two subscriptions, and the event of a tick that stood at height 4.
abbrev demo_subs : Dict SubKind
demo_subs = (codes "0x0", new_heads) ∷ (codes "0x1", logs_of any_filter) ∷ []

abbrev demo_event : WsEvent ℕ
demo_event = new_logs (map (ws_log ℕ (λ r. 7)) (map query_row (tick_rows in_block_5 4)))

-- What is pushed is the one log, to the second subscription.
demo_event-pushed : push_event ℕ demo_subs demo_event ≡ (codes "0x1", 7) ∷ []
unfolding bytes_eq push_event messages_for push_logs log_matches topics_match positions is_among
    ws_log row_log row_topics push_topic query_row select sort_by insert_by selects in_blocks
    clamp_i64 le_i64 address_in topic_in index_tx is_indexed keeps_index find_tx write_index
    insert_tx settled new_row upsert_tx update_tx block_of find_block replace_logs log_rows log_row
demo_event-pushed = refl

parse_quantity-quantity_example : parse_quantity (quantity 42069) ≡ some 42069
parse_quantity-quantity_example = parse_quantity-quantity 42069 (omega arith)

-- A transaction in the memory, which the chain has in a block of height 5.
abbrev sent_meta : TxMeta
sent_meta = record demo_meta { koinos_tx_id = 7 ∷ [] }

abbrev memory : TxMetaStore
memory = record { entries = (demo_hash, (sent_meta, 0)) ∷ []; order = []; cap = 2; ttl = 500 }

abbrev demo_chain : Chain
demo_chain = record {
  World = ℕ;
  transaction = λ id w.
      (Answer.ok (record { receipt = some []; containing_blocks = some (codes "0x1220") ∷ [] }), w);
  height_of = λ id w. (Answer.ok (some (codes "5")), w);
}

abbrev fetched_row : ReceiptRow
fetched_row = receipt_row 5 [] empty_events

-- Every call of the store succeeds, or all but the write of the receipt.
abbrev sound : Disk
sound = record { reads_meta = true; reads_receipt = true; upserts = true; sets = true }

abbrev faulty : Disk
faulty = record sound { sets = false }

receipt-given :
    (handle_get_tx_receipt demo_hex demo_chain sound memory demo_hash relayed 0).0
    ≡ Answer.ok (some (sent_meta, fetched_row))
unfolding handle_get_tx_receipt load_meta stored_receipt get lookup bytes_eq get_receipt find_tx
    upsert_tx new_row insert_tx settle_from_chain fetch_receipt_from_chain included included_receipt
    fetch_block_height parse_u64 digits_onto digit_value decode_receipt_events decode_events
    block_hash_of strip_multihash strip_prefix
receipt-given = refl

handle_get_tx_receipt-IsPersisted_example :
    IsPersisted sound demo_hash sent_meta relayed
      (handle_get_tx_receipt demo_hex demo_chain sound memory demo_hash relayed 0).1
handle_get_tx_receipt-IsPersisted_example =
    handle_get_tx_receipt-IsPersisted demo_hex demo_chain sound memory demo_hash relayed 0
      (sent_meta, fetched_row) receipt-given

-- The receipt is answered all the same where its write fails, and the transaction is not settled.
receipt-faulty :
    let out = handle_get_tx_receipt demo_hex demo_chain faulty memory demo_hash relayed 0 in
    (out.0 ≡ Answer.ok (some (sent_meta, fetched_row))) × (is_settled out.1 demo_hash ≡ false)
unfolding handle_get_tx_receipt load_meta stored_receipt get lookup bytes_eq get_receipt find_tx
    upsert_tx new_row insert_tx settle_from_chain fetch_receipt_from_chain included included_receipt
    fetch_block_height parse_u64 digits_onto digit_value decode_receipt_events decode_events
    block_hash_of strip_multihash strip_prefix persist is_settled has_status update_tx
receipt-faulty = (refl, refl)
