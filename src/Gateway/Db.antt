-- ===== src/Gateway/Db.antt =====
-- koinos-evm/rpc/src/db.rs: the gateway's durable store. A table is the list of its rows in the
-- order of their rowid, and a statement is what it does to that list; a statement that SQLite runs
-- does not fail here but for the error of `set_receipt`, which rolls back. An INTEGER column is
-- an i64: it is kept as the u64 it was cast from, and compared as an i64.
pub mod Reads
pub mod Query
pub mod Rows
pub mod Indexes
pub mod Found
pub mod Repeats
pub mod Receipts
use koinos_evm_engine.Base.{
  ℕ, zero, suc, ◌+◌, ◌-◌, ◌^◌, ◌%◌, Bool, true, false, not, ◌&&◌, Option, none, some, List, [], ◌∷◌,
  ◌++◌, length, is_empty, take, replicate, get_elem?, leb, ◌==◌, bytes_eq, if◌then◌else◌,
}
use koinos_evm_engine.Base.Words.{Bytes}
use koinos_evm_engine.Base.Dict
use koinos_evm_engine.Base.Dict.{Dict, put}
use koinos_evm_engine.Base.Sort.{select}
use koinos_evm_engine.Gateway.TxMetaStore.{TxMeta}
use koinos_evm_engine.Gateway.Receipts.{LogRow}

-- A row of `txs`. The columns from from_addr to sig_v are those of the TxMeta that was inserted;
-- koinos_tx_id is a column of its own.
pub record TxRow : Type 0 where
  pub eth_hash : Bytes
  pub koinos_tx_id : Option Bytes
  pub sent : TxMeta
  pub block_height : Option ℕ
  pub block_hash : Option Bytes
  pub tx_index : Option ℕ
  pub status : Option Bool
  pub gas_used : Option ℕ
  pub contract_address : Option Bytes
  pub poll_attempts : ℕ

-- A row of `logs`.
pub record StoredLog : Type 0 where
  pub eth_hash : Bytes
  pub block_height : ℕ
  pub block_hash : Bytes
  pub tx_index : ℕ
  pub log_index : ℕ
  pub address : Bytes
  pub topic0 : Option Bytes
  pub topic1 : Option Bytes
  pub topic2 : Option Bytes
  pub topic3 : Option Bytes
  pub payload : Bytes

pub record BlockRow : Type 0 where
  pub height : ℕ
  pub block_hash : Bytes
  pub timestamp : ℕ
  pub tx_count : ℕ
  pub log_count : ℕ

pub record ReceiptRow : Type 0 where
  pub block_height : ℕ
  pub block_hash : Bytes
  pub tx_index : Option ℕ
  pub status : Bool
  pub gas_used : ℕ
  pub contract_address : Option Bytes
  pub logs : List LogRow

-- The tables; `meta` is the last one. The rows of `blocks` are told apart by their height.
pub record Db : Type 0 where
  pub txs : List TxRow
  pub logs : List StoredLog
  pub blocks : List BlockRow
  pub meta : Dict Bytes

abbrev pub empty_db : Db
empty_db = record { txs = []; logs = []; blocks = []; meta = [] }

-- `SELECT … FROM txs WHERE eth_hash = ?1`
unfoldable pub find_tx : Bytes → List TxRow → Option TxRow
find_tx hash [] = none
find_tx hash (t ∷ ts) = if bytes_eq t.eth_hash hash then some t else find_tx hash ts

-- `UPDATE txs SET … WHERE eth_hash = ?1`
unfoldable pub update_tx : Bytes → (TxRow → TxRow) → List TxRow → List TxRow
update_tx hash set [] = []
update_tx hash set (t ∷ ts) =
    (if bytes_eq t.eth_hash hash then set t else t) ∷ update_tx hash set ts

-- `INSERT INTO txs … ON CONFLICT(eth_hash) DO UPDATE SET …`
unfoldable pub insert_tx : TxRow → (TxRow → TxRow) → List TxRow → List TxRow
insert_tx row set txs = elim (find_tx row.eth_hash txs) [
  | none ↦ txs ++ (row ∷ [])
  | some t ↦ update_tx row.eth_hash set txs
]

-- `(!meta.koinos_tx_id.is_empty()).then_some(…)`
unfoldable pub id_column : Bytes → Option Bytes
id_column koinos_tx_id = if is_empty koinos_tx_id then none else some koinos_tx_id

unfoldable pub new_row : Bytes → TxMeta → TxRow
new_row hash meta = record {
  eth_hash = hash;
  koinos_tx_id = id_column meta.koinos_tx_id;
  sent = meta;
  block_height = none;
  block_hash = none;
  tx_index = none;
  status = none;
  gas_used = none;
  contract_address = none;
  poll_attempts = 0;
}

unfoldable pub upsert_tx : Bytes → TxMeta → Db → Db
upsert_tx hash meta db = record db {
  txs =
      insert_tx (new_row hash meta) (λ t. record t { koinos_tx_id = id_column meta.koinos_tx_id })
        db.txs;
}

-- A row of `logs` for the log at position `i` of a receipt.
unfoldable pub log_row : Bytes → ReceiptRow → ℕ → ℕ → LogRow → StoredLog
log_row hash r tx_index log_index log = record {
  eth_hash = hash;
  block_height = r.block_height;
  block_hash = r.block_hash;
  tx_index = tx_index;
  log_index = log_index;
  address = log.address;
  topic0 = get_elem? log.topics 0;
  topic1 = get_elem? log.topics 1;
  topic2 = get_elem? log.topics 2;
  topic3 = get_elem? log.topics 3;
  payload = log.payload;
}

-- The inserts of `replace_logs`, from the position whose index is `log_index` on.
unfoldable pub log_rows : Bytes → ReceiptRow → ℕ → ℕ → List LogRow → List StoredLog
log_rows hash r tx_index log_index [] = []
log_rows hash r tx_index log_index (log ∷ logs) =
    log_row hash r tx_index log_index log ∷ log_rows hash r tx_index (log_index + 1) logs

unfoldable pub replace_logs : Bytes → ReceiptRow → ℕ → ℕ → List StoredLog → List StoredLog
replace_logs hash r tx_index log_index_base logs =
    select (λ l. not (bytes_eq l.eth_hash hash)) logs
    ++ log_rows hash r tx_index log_index_base r.logs

-- The columns that a receipt sets, with its position in the block.
unfoldable pub settled : ReceiptRow → Option ℕ → TxRow → TxRow
settled r tx_index t = record t {
  block_height = some r.block_height;
  block_hash = some r.block_hash;
  tx_index = tx_index;
  status = some r.status;
  gas_used = some r.gas_used;
  contract_address = r.contract_address;
}

-- `none` is the error for a missing row: the transaction is rolled back.
unfoldable pub set_receipt : Bytes → ReceiptRow → Db → Option Db
set_receipt hash r db = elim (find_tx hash db.txs) [
  | none ↦ none
  | some t ↦ some (record db {
    txs = update_tx hash (settled r none) db.txs;
    logs = replace_logs hash r 0 0 db.logs;
  })
]

-- Whether `index_tx` leaves the row as it is: it is indexed for the same block, or it was a
-- success and the new receipt is a failure.
unfoldable pub keeps_index : ReceiptRow → TxRow → Bool
keeps_index r t = elim t.tx_index [
  | none ↦ false
  | some i ↦ elim t.block_height [
    | none ↦ false
    | some h ↦
        if h == r.block_height
        then true
        else elim t.status [ none ↦ false | some st ↦ st && not r.status ]
  ]
]

unfoldable pub is_indexed : Bytes → ReceiptRow → List TxRow → Bool
is_indexed hash r txs = elim (find_tx hash txs) [ none ↦ false | some t ↦ keeps_index r t ]

-- `SELECT … FROM blocks WHERE height = ?1`
unfoldable pub find_block : ℕ → List BlockRow → Option BlockRow
find_block height [] = none
find_block height (b ∷ bs) = if b.height == height then some b else find_block height bs

-- `INSERT INTO blocks … ON CONFLICT(height) DO NOTHING`, and the row that is then there.
unfoldable pub block_of : ReceiptRow → ℕ → List BlockRow → BlockRow
block_of r timestamp blocks = elim (find_block r.block_height blocks) [
  | some b ↦ b
  | none ↦ record {
    height = r.block_height;
    block_hash = r.block_hash;
    timestamp = timestamp;
    tx_count = 0;
    log_count = 0;
  }
]

-- The row of a height is put in its place, or at the end where there was none.
unfoldable pub put_block : BlockRow → List BlockRow → List BlockRow
put_block b [] = b ∷ []
put_block b (c ∷ cs) = if c.height == b.height then b ∷ cs else c ∷ put_block b cs

-- `UPDATE blocks SET tx_count = tx_count + 1, log_count = log_count + ?2`
unfoldable pub counted : ℕ → BlockRow → BlockRow
counted logs b = record b { tx_count = b.tx_count + 1; log_count = b.log_count + logs }

-- The writes of `index_tx`, behind its early returns.
unfoldable pub write_index : Bytes → TxMeta → ReceiptRow → ℕ → Db → Db
write_index hash meta r timestamp db =
    let b = block_of r timestamp db.blocks in
    record db {
      txs =
          insert_tx (settled r (some b.tx_count) (new_row hash meta))
            (λ t. record (settled r (some b.tx_count) t) {
              koinos_tx_id = id_column meta.koinos_tx_id;
            })
            db.txs;
      logs = replace_logs hash r b.tx_count b.log_count db.logs;
      blocks = put_block (counted (length r.logs) b) db.blocks;
    }

unfoldable pub index_tx : Bytes → TxMeta → ReceiptRow → ℕ → Db → Bool × Db
index_tx hash meta r timestamp db =
    if is_indexed hash r db.txs then (false, db) else (true, write_index hash meta r timestamp db)

unfoldable pub bump_poll_attempts : Bytes → Db → Db
bump_poll_attempts hash db = record db {
  txs = update_tx hash (λ t. record t { poll_attempts = t.poll_attempts + 1 }) db.txs;
}

unfoldable pub set_meta : Bytes → Bytes → Db → Db
set_meta key value db = record db { meta = put key value db.meta }
