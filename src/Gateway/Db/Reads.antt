-- ===== src/Gateway/Db/Reads.antt =====
-- koinos-evm/rpc/src/db.rs: what is read from the tables.
use koinos_evm_engine.Base.{
  ℕ, ◌+◌, ◌-◌, ◌^◌, ◌%◌, Bool, true, false, not, ◌&&◌, Option, none, some, ◌>>=?◌, List, [], ◌∷◌,
  ◌++◌, map, length, take, replicate, ltb, leb, ◌==◌, bytes_eq, if◌then◌else◌,
}
use koinos_evm_engine.Base.Words.{Bytes}
use koinos_evm_engine.Base.Dict.{lookup}
use koinos_evm_engine.Base.Sort.{sort_by, select}
use koinos_evm_engine.Gateway.TxMetaStore.{TxMeta}
use koinos_evm_engine.Gateway.Receipts.{LogRow}
use koinos_evm_engine.Gateway.Db.{TxRow, StoredLog, BlockRow, ReceiptRow, Db, find_tx}

-- The order of two i64 that are kept as u64.
abbrev pub offset : ℕ → ℕ
offset n = (n + 2 ^ 63) % 2 ^ 64

unfoldable pub le_i64 : ℕ → ℕ → Bool
le_i64 a b = leb (offset a) (offset b)

-- `blob20` and `blob32`: cut, or filled with zeros.
unfoldable pub blob : ℕ → Bytes → Bytes
blob size v = take size v ++ replicate (size - length v) 0

unfoldable pub opt_blob : ℕ → Option Bytes → Option Bytes
opt_blob size none = none
opt_blob size (some v) = some (blob size v)

-- `unwrap_or_default`
unfoldable pub or_empty : Option Bytes → Bytes
or_empty none = []
or_empty (some v) = v

unfoldable pub row_meta : TxRow → TxMeta
row_meta t =
    let m = t.sent in
    record m {
      koinos_tx_id = or_empty t.koinos_tx_id;
      from = blob 20 m.from;
      to = opt_blob 20 m.to;
      value = blob 32 m.value;
      gas_price = blob 32 m.gas_price;
      r = blob 32 m.r;
      s = blob 32 m.s;
    }

unfoldable pub get_tx_meta : Db → Bytes → Option TxMeta
get_tx_meta db hash = find_tx hash db.txs >>=? λ t. some (row_meta t)

-- A topic column that is not NULL is pushed.
unfoldable pub push_topic : Option Bytes → List Bytes → List Bytes
push_topic none rest = rest
push_topic (some t) rest = t ∷ rest

unfoldable pub row_topics : StoredLog → List Bytes
row_topics l =
    push_topic l.topic0 (push_topic l.topic1 (push_topic l.topic2 (push_topic l.topic3 [])))

unfoldable pub row_log : StoredLog → LogRow
row_log l = record {
  log_index = l.log_index;
  address = l.address;
  topics = row_topics l;
  payload = l.payload;
}

unfoldable pub by_log_index : StoredLog → StoredLog → Bool
by_log_index a b = le_i64 a.log_index b.log_index

-- The rows of a transaction in the order of their index.
unfoldable pub tx_logs : Db → Bytes → List LogRow
tx_logs db hash =
    map row_log (sort_by by_log_index (select (λ l. bytes_eq l.eth_hash hash) db.logs))

unfoldable pub block_logs : Db → ℕ → List LogRow
block_logs db height =
    map row_log (sort_by by_log_index (select (λ l. l.block_height == height) db.logs))

-- The columns that a row with a status has too; a NULL there would be an error of the read.
unfoldable pub get_receipt : Db → Bytes → Option ReceiptRow
get_receipt db hash = find_tx hash db.txs >>=? λ t. t.status >>=? λ status.
    t.block_height >>=? λ block_height. t.block_hash >>=? λ block_hash. t.gas_used >>=? λ gas_used.
    some (record {
      block_height = block_height;
      block_hash = block_hash;
      tx_index = t.tx_index;
      status = status;
      gas_used = gas_used;
      contract_address = t.contract_address;
      logs = tx_logs db hash;
    })

unfoldable pub has_status : TxRow → Bool
has_status t = elim t.status [ none ↦ false | some s ↦ true ]

unfoldable pub is_settled : Db → Bytes → Bool
is_settled db hash = elim (find_tx hash db.txs) [ none ↦ false | some t ↦ has_status t ]

-- The signed maximum of the heights; a negative one counts as 0, as that of an empty table.
unfoldable pub max_height : List StoredLog → ℕ
max_height [] = 0
max_height (l ∷ ls) =
    let rest = max_height ls in if le_i64 l.block_height rest then rest else l.block_height

unfoldable pub max_indexed_height : Db → ℕ
max_indexed_height db = max_height db.logs

unfoldable pub get_meta : Db → Bytes → Option Bytes
get_meta db key = lookup db.meta key

unfoldable pub get_block_by_hash : List BlockRow → Bytes → Option BlockRow
get_block_by_hash [] hash = none
get_block_by_hash (b ∷ bs) hash =
    if bytes_eq b.block_hash hash then some b else get_block_by_hash bs hash

unfoldable pub is_at : ℕ → TxRow → Bool
is_at height t = elim t.block_height [ none ↦ false | some h ↦ h == height ]

-- `ORDER BY tx_index IS NULL, tx_index`; rows that are equal there stay in the order of the rowid.
unfoldable pub by_tx_index : Option ℕ → Option ℕ → Bool
by_tx_index (some i) (some j) = le_i64 i j
by_tx_index (some i) none = true
by_tx_index none (some j) = false
by_tx_index none none = true

unfoldable pub block_tx_hashes : Db → ℕ → List Bytes
block_tx_hashes db height =
    map (λ (t : TxRow). blob 32 t.eth_hash)
      (sort_by (λ a b. by_tx_index a.tx_index b.tx_index) (select (is_at height) db.txs))

unfoldable pub sum_gas : List TxRow → ℕ
sum_gas [] = 0
sum_gas (t ∷ ts) = elim t.gas_used [ none ↦ 0 | some n ↦ n ] + sum_gas ts

-- The sum, where the gas of a block fits an i64.
unfoldable pub block_gas_used : Db → ℕ → ℕ
block_gas_used db height = sum_gas (select (is_at height) db.txs)

abbrev pub poll_attempts_cap : ℕ
poll_attempts_cap = 200

unfoldable pub is_pending : TxRow → Bool
is_pending t =
    not (has_status t)
    && (elim t.koinos_tx_id [ none ↦ false | some i ↦ true ]
        && ltb t.poll_attempts poll_attempts_cap)

-- `ORDER BY poll_attempts ASC, rowid DESC`: the newest row is first in the list that is sorted.
unfoldable pub newest_first : List TxRow → List TxRow
newest_first [] = []
newest_first (t ∷ ts) = newest_first ts ++ (t ∷ [])

unfoldable pub pending_rows : Db → List TxRow
pending_rows db =
    sort_by (λ a b. leb a.poll_attempts b.poll_attempts) (newest_first (select is_pending db.txs))

unfoldable pub pending_txs : Db → ℕ → List (Bytes × Bytes)
pending_txs db limit =
    take limit
      (map (λ (t : TxRow). (blob 32 t.eth_hash, or_empty t.koinos_tx_id)) (pending_rows db))
