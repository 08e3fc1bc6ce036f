-- ===== src/Gateway/Indexer.antt =====
-- koinos-evm/rpc/src/indexer.rs: the pass over the engine's account history, and its cursor.
-- The node's JSON is taken apart into its texts, with what is missing as `none`, and an entry's
-- arguments and event payloads with their base64 decoded. The node is a parameter.
pub mod Cursor
pub mod Walk
pub mod Kept
pub mod Stored
pub mod Ends
use koinos_evm_engine.Base.{
  ℕ, zero, suc, ◌+◌, ◌-◌, ◌/◌, ◌%◌, ◌^◌, Bool, true, false, not, ◌&&◌, ◌||◌, Option, none, some,
  ◌>>=?◌, List, [], ◌∷◌, ◌++◌, length, ltb, leb, ◌==◌, bytes_eq, if◌then◌else◌,
}
use koinos_evm_engine.Base.Words.{Bytes}
use koinos_evm_engine.Base.Text.{codes, decimal}
use koinos_evm_engine.Base.Decimal.{parse_u64}
use koinos_evm_engine.Base.Dict.{Dict, lookup, put}
use koinos_evm_engine.Gateway.EngineProto
use koinos_evm_engine.Gateway.EngineProto.{
  ProtoError, ok, err, Result, ProtoIter, ProtoField, new, panicked,
}
use koinos_evm_engine.Gateway.EthCodec.{Hex, strip_prefix, parse_data}
use koinos_evm_engine.Gateway.EthTx.{Crypto, DecodedTx, decode_and_recover}
use koinos_evm_engine.Gateway.TxMetaStore.{TxMeta}
use koinos_evm_engine.Gateway.Receipts.{Event, DecodedEvents, decode_receipt_events}
use koinos_evm_engine.Gateway.Relay
use koinos_evm_engine.Gateway.Relay.{Answer, failed, ep_submit_raw_tx}
use koinos_evm_engine.Gateway.Db.{BlockRow, ReceiptRow, Db, index_tx, set_meta}
use koinos_evm_engine.Gateway.Db.Reads.{get_block_by_hash, get_meta}

pub record CallContract : Type 0 where
  pub entry_point : Option ℕ
  pub contract_id : Option Bytes
  pub args : Option Bytes

pub record Transaction : Type 0 where
  pub id : Option Bytes
  pub operations : List (Option CallContract)

-- An entry of the history; `events` are those of its receipt, `none` if it has no receipt.
pub record HistoryEntry : Type 0 where
  pub seq_num : Option Bytes
  pub transaction : Option Transaction
  pub events : Option (List Event)

pub record Header : Type 0 where
  pub height : Option Bytes
  pub timestamp : Option Bytes

-- What is asked of the node: the last irreversible block, a page of the history, the block that
-- contains a transaction, and a block's header.
pub record Node : Type 1 where
  pub World : Type 0
  pub last_irreversible_block : World → Answer (Option Bytes) × World
  pub account_history : Option ℕ → ℕ → World → Answer (List HistoryEntry) × World
  pub containing_block : Bytes → World → Answer (Option Bytes) × World
  pub block_header : Bytes → World → Answer (Option Header) × World

pub record Config : Type 0 where
  pub engine_contract_addr_b58check : Bytes
  pub indexer_page_size : ℕ

-- `EntryOutcome`
pub data EntryOutcome : Type 0 where
  indexed : ℕ → EntryOutcome
  already_indexed : ℕ → EntryOutcome
  not_evm : EntryOutcome

-- Whether an operation submits a raw transaction to the engine.
unfoldable pub submits : Bytes → CallContract → Bool
submits engine cc =
    elim cc.entry_point [ none ↦ false | some e ↦ e == ep_submit_raw_tx ]
    && elim cc.contract_id [ none ↦ true | some c ↦ bytes_eq c engine ]

-- The first of the operations that does.
unfoldable pub find_submit : Bytes → List (Option CallContract) → Option CallContract
find_submit engine [] = none
find_submit engine (none ∷ ops) = find_submit engine ops
find_submit engine (some cc ∷ ops) = if submits engine cc then some cc else find_submit engine ops

-- The first field 1 of length-delimited bytes; errors of the iterator are passed over.
unfoldable pub find_raw : ℕ → ProtoIter → Result (Option Bytes)
find_raw zero it = ok none
find_raw (suc fuel) it = elim (EngineProto.next it) [
  | none ↦ ok none
  | some (err panicked, it') ↦ err panicked
  | some (err e, it') ↦ find_raw fuel it'
  | some (ok f, it') ↦
      if f.field == 1 && f.wtype == 2 then ok (some f.payload) else find_raw fuel it'
]

unfoldable pub raw_tx_of : Bytes → Transaction → Result (Option Bytes)
raw_tx_of engine tx = elim (find_submit engine tx.operations) [
  | none ↦ ok none
  | some cc ↦ elim cc.args [ none ↦ ok none | some args ↦ find_raw (length args) (new args) ]
]

-- `trim_start_matches("0x")`
unfoldable pub trim_0x : Bytes → Bytes
trim_0x [] = []
trim_0x (c ∷ []) = c ∷ []
trim_0x (c ∷ d ∷ cs) = if c == b'0' && d == b'x' then trim_0x cs else c ∷ d ∷ cs

-- The multihash prefix of a Koinos id is stripped.
unfoldable pub strip_multihash : Bytes → Bytes
strip_multihash s = elim (strip_prefix (codes "0x1220") s) [ some h ↦ h | none ↦ trim_0x s ]

unfoldable pub id_bytes : Hex → Bytes → Bytes
id_bytes hex s = elim (parse_data hex (codes "0x" ++ strip_multihash s)) [ some b ↦ b | none ↦ [] ]

unfoldable pub koinos_id_of : Hex → Option Bytes → Bytes
koinos_id_of hex none = []
koinos_id_of hex (some s) = id_bytes hex s

abbrev pub tx_meta : Bytes → Bytes → DecodedTx → TxMeta
tx_meta koinos_tx_id raw d = record {
  koinos_tx_id = koinos_tx_id;
  from = d.from;
  to = d.to;
  nonce = d.nonce;
  value = d.value;
  input = d.input;
  gas_limit = d.gas_limit;
  gas_price = d.gas_price;
  raw_tx = raw;
  tx_type = d.tx_type;
  chain_id = d.chain_id;
  r = d.r;
  s = d.s;
  v = d.v;
}

abbrev pub receipt_row : ℕ → Bytes → DecodedEvents → ReceiptRow
receipt_row height block_hash ev = record {
  block_height = height;
  block_hash = block_hash;
  tx_index = none;
  status = ev.status;
  gas_used = ev.gas_used;
  contract_address = ev.contract_address;
  logs = ev.logs;
}

-- The cursor within a cycle.
pub record Cycle : Type 0 where
  pub next_seq : ℕ
  pub cursor_candidate : Option ℕ
  pub cursor_frozen : Bool

-- The candidate moves on to an entry whose block is irreversible, or the cursor freezes.
unfoldable pub advance_to : ℕ → ℕ → ℕ → Cycle → Cycle
advance_to lib seq block_height c =
    if not c.cursor_frozen && leb block_height lib
    then record c { cursor_candidate = some seq }
    else record c { cursor_frozen = true }

-- The `match` on the outcome of an entry; a panic ends the task.
unfoldable pub advance : ℕ → ℕ → Answer EntryOutcome → Cycle → Option Cycle
advance lib seq (Answer.ok (indexed h)) c = some (advance_to lib seq h c)
advance lib seq (Answer.ok (already_indexed h)) c = some (advance_to lib seq h c)
advance lib seq (Answer.ok not_evm) c =
    some (if c.cursor_frozen then c else record c { cursor_candidate = some seq })
advance lib seq (failed e) c = some (record c { cursor_frozen = true })
advance lib seq Answer.panicked c = none

-- A seq_num that is missing or no number is 0.
unfoldable pub seq_of : HistoryEntry → ℕ
seq_of entry = elim (entry.seq_num >>=? parse_u64) [ none ↦ 0 | some n ↦ n ]

abbrev pub cursor_key : Bytes
cursor_key = codes "indexer_cursor"

unfoldable pub cursor_of : Db → Option ℕ
cursor_of db = get_meta db cursor_key >>=? parse_u64

unfoldable pub first_cycle : Option ℕ → Cycle
first_cycle cursor = record {
  next_seq = elim cursor [ none ↦ 0 | some c ↦ (c + 1) % 2 ^ 64 ];
  cursor_candidate = cursor;
  cursor_frozen = false;
}

-- `cursor_candidate != cursor`, and the candidate that is there.
unfoldable pub moved : Option ℕ → Option ℕ → Option ℕ
moved cursor none = none
moved none (some c) = some c
moved (some old) (some c) = if c == old then none else some c

unfoldable pub store_cursor : Option ℕ → Option ℕ → Db → Db
store_cursor cursor candidate db = elim (moved cursor candidate) [
  | none ↦ db
  | some c ↦ set_meta cursor_key (decimal c) db
]

-- How the loop over the pages ends: caught up, by an error of the node, by a panic, or out of
-- the model's fuel.
pub data Ending : Type 0 where
  caught_up : Cycle → Ending
  gave_up stopped out_of_fuel : Ending

module _ (hex : Hex) (crypto : Crypto) (config : Config) (node : Node) where
  -- The node's world, the block cache of the process, and the store.
  pub record Indexer : Type 0 where
    pub world : node.World
    pub block_cache : Dict (ℕ × ℕ)
    pub db : Db

  unfoldable pub look_up_block : Bytes → Indexer → Answer (ℕ × Bytes × ℕ) × Indexer
  look_up_block block_id s =
      let (answer, w) = node.block_header block_id s.world in
      let s' = record s { world = w } in
      elim answer [
        | failed e ↦ (failed e, s')
        | Answer.panicked ↦ (Answer.panicked, s')
        | Answer.ok none ↦ (failed (codes "block lookup missing header"), s')
        | Answer.ok (some header) ↦ elim (header.height >>=? parse_u64) [
          | none ↦ (failed (codes "block header missing height"), s')
          | some height ↦
              let ts = elim (header.timestamp >>=? parse_u64) [ none ↦ 0 | some ms ↦ ms ] / 1000 in
              (
                Answer.ok (height, block_id, ts),
                record s' { block_cache = put block_id (height, ts) s.block_cache },
              )
        ]
      ]

  -- Process cache, blocks table, node.
  unfoldable pub resolve_block : Bytes → Indexer → Answer (ℕ × Bytes × ℕ) × Indexer
  resolve_block koinos_tx_id_hex s =
      let (answer, w) = node.containing_block koinos_tx_id_hex s.world in
      let s' = record s { world = w } in
      elim answer [
        | failed e ↦ (failed e, s')
        | Answer.panicked ↦ (Answer.panicked, s')
        | Answer.ok none ↦ (failed (codes "transaction has no containing block yet"), s')
        | Answer.ok (some block_id) ↦ elim (lookup s.block_cache block_id) [
          | some (h, ts) ↦ (Answer.ok (h, block_id, ts), s')
          | none ↦ elim (get_block_by_hash s.db.blocks (id_bytes hex block_id)) [
            | some row ↦ (
              Answer.ok (row.height, block_id, row.timestamp),
              record s' { block_cache = put block_id (row.height, row.timestamp) s.block_cache },
            )
            | none ↦ look_up_block block_id s'
          ]
        ]
      ]

  -- From the receipt on: the events, the block, and the write.
  unfoldable pub index_entry :
      HistoryEntry → Bytes → Bytes → DecodedTx → Indexer → Answer EntryOutcome × Indexer
  index_entry entry raw koinos_tx_id decoded s = elim entry.events [
    | none ↦ (failed (codes "history entry missing receipt"), s)
    | some events ↦ elim (decode_receipt_events events) [
      | err e ↦ (Answer.panicked, s)
      | ok ev ↦
          let (answer, s') = resolve_block (codes "0x1220" ++ hex.encode koinos_tx_id) s in
          elim answer [
            | failed e ↦ (failed e, s')
            | Answer.panicked ↦ (Answer.panicked, s')
            | Answer.ok (height, block_id, ts) ↦
                let (wrote, db) =
                  index_tx (crypto.keccak256 raw) (tx_meta koinos_tx_id raw decoded)
                    (receipt_row height (id_bytes hex block_id) ev) ts s'.db in
                (
                  Answer.ok (if wrote then indexed height else already_indexed height),
                  record s' { db = db },
                )
          ]
    ]
  ]

  unfoldable pub process_entry : HistoryEntry → Indexer → Answer EntryOutcome × Indexer
  process_entry entry s = elim entry.transaction [
    | none ↦ (Answer.ok not_evm, s)
    | some tx ↦ elim (raw_tx_of config.engine_contract_addr_b58check tx) [
      | err e ↦ (Answer.panicked, s)
      | ok none ↦ (Answer.ok not_evm, s)
      | ok (some raw) ↦ elim (decode_and_recover crypto raw) [
        | none ↦ (Answer.ok not_evm, s)
        | some decoded ↦ index_entry entry raw (koinos_id_of hex tx.id) decoded s
      ]
    ]
  ]

  -- The entries of a page. `none` is a panic.
  unfoldable pub process_page : ℕ → List HistoryEntry → Cycle → Indexer → Option Cycle × Indexer
  process_page lib [] c s = (some c, s)
  process_page lib (entry ∷ entries) c s =
      let (outcome, s') = process_entry entry s in
      let seq = seq_of entry in
      elim (advance lib seq outcome (record c { next_seq = (seq + 1) % 2 ^ 64 })) [
        | none ↦ (none, s')
        | some c' ↦ process_page lib entries c' s'
      ]

  -- One round is one page; the first run asks from the start.
  unfoldable pub pages : ℕ → ℕ → Cycle → Indexer → Ending × Indexer
  pages zero lib c s = (out_of_fuel, s)
  pages (suc fuel) lib c s =
      let from = if ltb 0 c.next_seq then some c.next_seq else none in
      let (answer, w) = node.account_history from config.indexer_page_size s.world in
      let s' = record s { world = w } in
      elim answer [
        | failed e ↦ (gave_up, s')
        | Answer.panicked ↦ (stopped, s')
        | Answer.ok [] ↦ (caught_up c, s')
        | Answer.ok (entry ∷ entries) ↦
            let (done, s'') = process_page lib (entry ∷ entries) c s' in
            elim done [
              | none ↦ (stopped, s'')
              | some c' ↦
                  if ltb (length (entry ∷ entries)) config.indexer_page_size
                  then (caught_up c', s'')
                  else pages fuel lib c' s''
            ]
      ]

  -- The cycle behind the node's answer on the last irreversible block.
  unfoldable pub cycle_from : ℕ → ℕ → Indexer → Ending × Indexer
  cycle_from fuel lib s =
      let cursor = cursor_of s.db in
      let (ending, s') = pages fuel lib (first_cycle cursor) s in
      elim ending [
        | caught_up c ↦
            (caught_up c, record s' { db = store_cursor cursor c.cursor_candidate s'.db })
        | gave_up ↦ (gave_up, s')
        | stopped ↦ (stopped, s')
        | out_of_fuel ↦ (out_of_fuel, s')
      ]

  -- `fuel` bounds the pages of the cycle.
  unfoldable pub run_cycle : ℕ → Indexer → Ending × Indexer
  run_cycle fuel s =
      let (answer, w) = node.last_irreversible_block s.world in
      let s' = record s { world = w } in
      elim answer [
        | failed e ↦ (gave_up, s')
        | Answer.panicked ↦ (stopped, s')
        | Answer.ok given ↦ elim (given >>=? parse_u64) [
          | none ↦ (gave_up, s')
          | some lib ↦ cycle_from fuel lib s'
        ]
      ]
