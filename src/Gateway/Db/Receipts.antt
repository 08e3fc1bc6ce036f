-- ===== src/Gateway/Db/Receipts.antt =====
-- A receipt that the indexer has written is read back, with its logs.
use koinos_evm_engine.Base.{
  ℕ, ◌+◌, ◌<◌, ◌≤◌, ◌^◌, ◌≡◌, refl, ap, ◌∙◌, Bool, true, not, Bool-cases, Option, some, inl, inr,
  List, [], ◌∷◌, ◌++◌, map, length, All, bytes_eq, bytes_eq_refl, arith,
}
use koinos_evm_engine.Base.Words.{Bytes}
use koinos_evm_engine.Base.Sort.{select, sort_by, IsOrdered, sort_by-ordered}
use koinos_evm_engine.Gateway.TxMetaStore.{TxMeta}
use koinos_evm_engine.Gateway.Receipts.{LogRow}
use koinos_evm_engine.Gateway.Db.{
  TxRow, StoredLog, replace_logs, log_row, log_rows, ReceiptRow, Db, find_tx, is_indexed, block_of,
  write_index, index_tx,
}
use koinos_evm_engine.Gateway.Db.Reads.{
  le_i64, row_topics, push_topic, row_log, by_log_index, tx_logs, get_receipt,
}
use koinos_evm_engine.Gateway.Db.Found.{place, indexed_row, find_tx-write_index, inserted_columns}
use koinos_evm_engine.Gateway.Db.Repeats.{index_tx-kept, index_tx-written}

-- The logs of a receipt, numbered from the counter of the block on.
abbrev pub numbered : ℕ → List LogRow → List LogRow
numbered i [] = []
numbered i (l ∷ ls) = record l { log_index = i } ∷ numbered (i + 1) ls

select_none :
    (hash : Bytes) (ls : List StoredLog)
    → select (λ l. bytes_eq l.eth_hash hash) (select (λ l. not (bytes_eq l.eth_hash hash)) ls) ≡ []
unfolding select
select_none hash [] = refl
select_none hash (l ∷ ls) = ground (arith, select_none hash ls)

select-append {ℓ} :
    {A : Type ℓ} (p : A → Bool) (xs ys : List A) → select p (xs ++ ys) ≡ select p xs ++ select p ys
unfolding select
select-append p [] ys = refl
select-append p (x ∷ xs) ys = ground (arith, select-append p xs ys)

select-log_rows :
    (hash : Bytes) (r : ReceiptRow) (i n : ℕ) (ls : List LogRow)
    → select (λ l. bytes_eq l.eth_hash hash) (log_rows hash r i n ls) ≡ log_rows hash r i n ls
unfolding select log_rows log_row
select-log_rows hash r i n [] = refl
select-log_rows hash r i n (l ∷ ls) =
    ground (arith, bytes_eq_refl hash, select-log_rows hash r i (n + 1) ls)

select-replace_logs :
    (hash : Bytes) (r : ReceiptRow) (i n : ℕ) (logs : List StoredLog)
    → select (λ l. bytes_eq l.eth_hash hash) (replace_logs hash r i n logs)
      ≡ log_rows hash r i n r.logs
unfolding replace_logs
select-replace_logs hash r i n logs =
    select-append _ (select (λ l. not (bytes_eq l.eth_hash hash)) logs) (log_rows hash r i n r.logs)
    ∙ ap
        (λ (ls : List StoredLog).
          ls ++ select (λ l. bytes_eq l.eth_hash hash) (log_rows hash r i n r.logs))
        (select_none hash logs)
    ∙ select-log_rows hash r i n r.logs

log_rows-above :
    (hash : Bytes) (r : ReceiptRow) (i n m : ℕ) (ls : List LogRow)
    → n ≤ m
    → m + length ls < 2 ^ 63
    → (first : StoredLog) → first.log_index ≡ n
    → All (λ y. by_log_index first y ≡ true) (log_rows hash r i m ls)
unfolding log_rows log_row by_log_index le_i64
log_rows-above hash r i n m [] h k first e = tt
log_rows-above hash r i n m (l ∷ ls) h k first e = (
  ground (arith, e),
  log_rows-above hash r i n (m + 1) ls (omega arith) (omega (arith, k)) first e,
)

log_rows-IsOrdered :
    (hash : Bytes) (r : ReceiptRow) (i n : ℕ) (ls : List LogRow)
    → n + length ls < 2 ^ 63
    → IsOrdered by_log_index (log_rows hash r i n ls)
unfolding IsOrdered log_rows log_row
log_rows-IsOrdered hash r i n [] k = tt
log_rows-IsOrdered hash r i n (l ∷ ls) k = (
  log_rows-above hash r i n (n + 1) ls (omega arith) (omega (arith, k)) _ refl,
  log_rows-IsOrdered hash r i (n + 1) ls (omega (arith, k)),
)

-- At most four topics, as the EVM's logs have.
abbrev pub IsStorable : LogRow → Type 0
IsStorable l = length l.topics ≤ 4

topics_back :
    (hash : Bytes) (r : ReceiptRow) (i n : ℕ) (l : LogRow)
    → IsStorable l
    → row_log (log_row hash r i n l) ≡ record l { log_index = n }
unfolding row_log log_row row_topics push_topic
topics_back hash r i n l h =
    ap (λ (ts : List Bytes). record l { log_index = n; topics = ts }) (back l.topics h)
  where
    back :
        (ts : List Bytes)
        → length ts ≤ 4
        → row_topics (log_row hash r i n (record l { topics = ts })) ≡ ts
    back [] k = refl
    back (a ∷ []) k = refl
    back (a ∷ b ∷ []) k = refl
    back (a ∷ b ∷ c ∷ []) k = refl
    back (a ∷ b ∷ c ∷ d ∷ []) k = refl
    back (a ∷ b ∷ c ∷ d ∷ e ∷ ts) k = absurd (omega arith)

map-log_rows :
    (hash : Bytes) (r : ReceiptRow) (i n : ℕ) (ls : List LogRow)
    → All IsStorable ls
    → map row_log (log_rows hash r i n ls) ≡ numbered n ls
unfolding log_rows
map-log_rows hash r i n [] h = refl
map-log_rows hash r i n (l ∷ ls) (hl, h) =
    ap (λ (row : LogRow). row ∷ map row_log (log_rows hash r i (n + 1) ls))
      (topics_back hash r i n l hl)
    ∙ ap (λ (rows : List LogRow). record l { log_index = n } ∷ rows)
        (map-log_rows hash r i (n + 1) ls h)

tx_logs-write_index :
    (hash : Bytes) (meta : TxMeta) (r : ReceiptRow) (timestamp : ℕ) (db : Db)
    → All IsStorable r.logs
    → (place r timestamp db).log_count + length r.logs < 2 ^ 63
    → tx_logs (write_index hash meta r timestamp db) hash
      ≡ numbered (place r timestamp db).log_count r.logs
unfolding tx_logs write_index
tx_logs-write_index hash meta r timestamp db h k =
    let b = place r timestamp db in
    ap (λ (rows : List StoredLog). map row_log (sort_by by_log_index rows))
      (select-replace_logs hash r b.tx_count b.log_count db.logs)
    ∙ ap (map row_log)
        (sort_by-ordered by_log_index _ (log_rows-IsOrdered hash r b.tx_count b.log_count r.logs k))
    ∙ map-log_rows hash r b.tx_count b.log_count r.logs h

-- A row with its columns is read as a receipt with them.
get_receipt-row :
    (hash : Bytes) (db : Db) (t : TxRow) (st : Bool) (height : ℕ) (block : Bytes) (gas : ℕ)
    → find_tx hash db.txs ≡ some t
    → t.status ≡ some st
    → t.block_height ≡ some height
    → t.block_hash ≡ some block
    → t.gas_used ≡ some gas
    → get_receipt db hash
      ≡ some (record {
        block_height = height;
        block_hash = block;
        tx_index = t.tx_index;
        status = st;
        gas_used = gas;
        contract_address = t.contract_address;
        logs = tx_logs db hash;
      })
unfolding get_receipt
get_receipt-row hash db t st height block gas found status at_height at_block used =
    ground (arith, found, status, at_height, at_block, used)

get_receipt-write_index :
    (hash : Bytes) (meta : TxMeta) (r : ReceiptRow) (timestamp : ℕ) (db : Db)
    → All IsStorable r.logs
    → (place r timestamp db).log_count + length r.logs < 2 ^ 63
    → get_receipt (write_index hash meta r timestamp db) hash
      ≡ some (record r {
        tx_index = some (place r timestamp db).tx_count;
        logs = numbered (place r timestamp db).log_count r.logs;
      })
get_receipt-write_index hash meta r timestamp db h k =
    let c = inserted_columns hash meta r timestamp db (find_tx hash db.txs) in
    get_receipt-row hash (write_index hash meta r timestamp db)
      (indexed_row hash meta r timestamp db) r.status r.block_height r.block_hash r.gas_used
      (find_tx-write_index hash meta r timestamp db) c.3 c.0 c.1 c.4
    ∙ ap
        (λ (i : Option ℕ). some (record r {
          tx_index = i;
          contract_address = (indexed_row hash meta r timestamp db).contract_address;
          logs = tx_logs (write_index hash meta r timestamp db) hash;
        }))
        c.2
    ∙ ap
        (λ (a : Option Bytes). some (record r {
          tx_index = some (place r timestamp db).tx_count;
          contract_address = a;
          logs = tx_logs (write_index hash meta r timestamp db) hash;
        }))
        c.5
    ∙ ap
        (λ (logs : List LogRow).
          some (record r { tx_index = some (place r timestamp db).tx_count; logs = logs }))
        (tx_logs-write_index hash meta r timestamp db h k)

-- Where the indexer writes a receipt, `get_receipt` gives it back, with the next position of its
-- block, and with its logs in their order, numbered on from the logs that the block had; if no log
-- has more than four topics, and the numbers fit an i64.
pub get_receipt-index_tx :
    (hash : Bytes) (meta : TxMeta) (r : ReceiptRow) (timestamp : ℕ) (db : Db)
    → (index_tx hash meta r timestamp db).0 ≡ true
    → All IsStorable r.logs
    → (block_of r timestamp db.blocks).log_count + length r.logs < 2 ^ 63
    → get_receipt (index_tx hash meta r timestamp db).1 hash
      ≡ some (record r {
        tx_index = some (block_of r timestamp db.blocks).tx_count;
        logs = numbered (block_of r timestamp db.blocks).log_count r.logs;
      })
get_receipt-index_tx hash meta r timestamp db wrote h k =
    elim (Bool-cases (is_indexed hash r db.txs)) [
      | inl e ↦ cc (wrote, index_tx-kept hash meta r timestamp db e)
      | inr e ↦
          rw (index_tx-written hash meta r timestamp db e)
            (get_receipt-write_index hash meta r timestamp db h k)
    ]
