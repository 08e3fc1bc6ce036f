-- ===== src/Gateway/Db/Indexes.antt =====
-- The positions of the transactions in their blocks, over every history of the store.
use koinos_evm_engine.Base.{
  ℕ, ◌+◌, ◌<◌, ◌≡◌, refl, ap, Bool-cases, none, some, Option-cases, inl, inr, List, [], ◌∷◌, length,
  All, ◌==◌, ==_iff, if◌then◌else◌, arith,
}
use mathlib.Core.Path.{subst}
use koinos_evm_engine.Base.Words.{Bytes}
use koinos_evm_engine.Gateway.TxMetaStore.{TxMeta}
use koinos_evm_engine.Gateway.Db.{
  TxRow, StoredLog, replace_logs, BlockRow, ReceiptRow, Db, empty_db, find_tx, update_tx, id_column,
  new_row, upsert_tx, settled, set_receipt, is_indexed, find_block, block_of, put_block, counted,
  write_index, index_tx, bump_poll_attempts, set_meta,
}
use koinos_evm_engine.Gateway.Db.Rows.{
  IsPlaced, Apart, IsDistinct, All-map, All-update_tx, update_tx-IsDistinct, insert_tx-IsDistinct,
  All-insert_tx,
}

-- How many transactions were counted at a height.
unfoldable pub count_at : ℕ → List BlockRow → ℕ
count_at height blocks = elim (find_block height blocks) [ none ↦ 0 | some b ↦ b.tx_count ]

-- A place is one that its block has counted.
abbrev pub IsCounted : List BlockRow → TxRow → Type 0
IsCounted blocks t = (height i : ℕ) → IsPlaced t height i → i < count_at height blocks

-- Hashes and places are distinct, and the places lie below the counters of their blocks.
pub record IsIndexed (db : Db) : Type 0 where
  pub rows : IsDistinct db.txs
  pub counts : All (IsCounted db.blocks) db.txs

-- The writes to the store, in any order.
pub data Write : Db → Db → Type 0 where
  upsert : (hash : Bytes) (meta : TxMeta) (db : Db) → Write db (upsert_tx hash meta db)
  settle :
      (hash : Bytes) (r : ReceiptRow) {db next : Db}
      → set_receipt hash r db ≡ some next
      → Write db next
  index :
      (hash : Bytes) (meta : TxMeta) (r : ReceiptRow) (timestamp : ℕ) (db : Db)
      → Write db (index_tx hash meta r timestamp db).1
  bump : (hash : Bytes) (db : Db) → Write db (bump_poll_attempts hash db)
  put_meta : (key value : Bytes) (db : Db) → Write db (set_meta key value db)

pub data Reached : Db → Type 0 where
  opened : Reached empty_db
  next : {db db' : Db} → Reached db → Write db db' → Reached db'

find_block-height :
    (height : ℕ) (blocks : List BlockRow) (b : BlockRow)
    → find_block height blocks ≡ some b
    → b.height ≡ height
unfolding find_block
find_block-height height [] b h = cc
find_block-height height (c ∷ cs) b h = ground (arith, find_block-height height cs b)

block_of_lem :
    (r : ReceiptRow) (timestamp : ℕ) (blocks : List BlockRow)
    → ((block_of r timestamp blocks).height ≡ r.block_height)
      × ((block_of r timestamp blocks).tx_count ≡ count_at r.block_height blocks)
unfolding block_of count_at
block_of_lem r timestamp blocks = elim (Option-cases (find_block r.block_height blocks)) [
  | inl e ↦ rw (e, block_of, count_at) (refl, refl)
  | inr (b, e) ↦ rw (e, block_of, count_at) (find_block-height r.block_height blocks b e, refl)
]

count_at-put_block :
    (height : ℕ) (b : BlockRow) (blocks : List BlockRow)
    → count_at height (put_block b blocks)
      ≡ (if b.height == height then b.tx_count else count_at height blocks)
unfolding count_at put_block find_block
count_at-put_block height b [] = ground arith
count_at-put_block height b (c ∷ cs) = ground (arith, count_at-put_block height b cs)

upsert_tx-IsIndexed :
    (hash : Bytes) (meta : TxMeta) (db : Db) → IsIndexed db → IsIndexed (upsert_tx hash meta db)
unfolding upsert_tx new_row
upsert_tx-IsIndexed hash meta db v = record {
  rows =
      insert_tx-IsDistinct (IsCounted db.blocks) (new_row hash meta)
        (λ t. record t { koinos_tx_id = id_column meta.koinos_tx_id }) (λ t. refl)
        (λ t u _ apart. apart) (λ t _ height i p q. cc q.1) db.txs v.counts v.rows;
  counts =
      All-insert_tx (IsCounted db.blocks) (new_row hash meta)
        (λ t. record t { koinos_tx_id = id_column meta.koinos_tx_id }) db.txs (λ height i q. cc q.1)
        (λ t q. q) v.counts;
}

update_tx-IsIndexed :
    (hash : Bytes) (set : TxRow → TxRow) (logs : List StoredLog) (db : Db)
    → ((t : TxRow) → (set t).eth_hash ≡ t.eth_hash)
    → ((t : TxRow) (height i : ℕ) → IsPlaced (set t) height i → IsPlaced t height i)
    → IsIndexed db
    → IsIndexed (record db { txs = update_tx hash set db.txs; logs = logs })
update_tx-IsIndexed hash set logs db keeps stays v = record {
  rows =
      update_tx-IsDistinct (IsCounted db.blocks) hash set keeps
        (λ t u _ apart height i p q. apart height i (stays t height i p) q) db.txs v.counts v.rows;
  counts = All-update_tx (IsCounted db.blocks) hash set db.txs (
      All-map (IsCounted db.blocks) _
        (λ t c. (λ _ height i p. c height i (stays t height i p), λ _. c)) db.txs v.counts);
}

set_receipt-IsIndexed :
    (hash : Bytes) (r : ReceiptRow) (db out : Db)
    → set_receipt hash r db ≡ some out
    → IsIndexed db
    → IsIndexed out
unfolding set_receipt settled
set_receipt-IsIndexed hash r db out h v = elim (Option-cases (find_tx hash db.txs)) [
  | inl e ↦ absurd (ground (arith, h, e))
  | inr (t, e) ↦ subst IsIndexed (ground (arith, h, e)) (
      update_tx-IsIndexed hash (settled r none) (replace_logs hash r 0 0 db.logs) db (λ u. refl)
        (λ u height i p. cc p.1) v)
]

bump_poll_attempts-IsIndexed :
    (hash : Bytes) (db : Db) → IsIndexed db → IsIndexed (bump_poll_attempts hash db)
unfolding bump_poll_attempts
bump_poll_attempts-IsIndexed hash db v =
    update_tx-IsIndexed hash (λ t. record t { poll_attempts = t.poll_attempts + 1 }) db.logs db
      (λ u. refl) (λ u height i p. p) v

-- A row at the counter of its block is apart from every counted row.
fresh_place :
    (r : ReceiptRow) (t u : TxRow) (timestamp : ℕ) (blocks : List BlockRow)
    → t.block_height ≡ some r.block_height
    → t.tx_index ≡ some (block_of r timestamp blocks).tx_count
    → IsCounted blocks u
    → Apart t u
fresh_place r t u timestamp blocks at_height at_index counted height i p q =
    let same_height : r.block_height ≡ height = cc (at_height, p.0) in
    let same_index : (block_of r timestamp blocks).tx_count ≡ i = cc (at_index, p.1) in
    absurd (
      omega (
        arith,
        counted height i q,
        same_index,
        (block_of_lem r timestamp blocks).1,
        ap (λ (n : ℕ). count_at n blocks) same_height,
      ))

-- With the block counted once more, its counter is one higher, and the others are as before.
count_at-write :
    (height : ℕ) (r : ReceiptRow) (timestamp n : ℕ) (blocks : List BlockRow)
    → count_at height (put_block (counted n (block_of r timestamp blocks)) blocks)
      ≡ (if r.block_height == height then count_at height blocks + 1 else count_at height blocks)
unfolding counted
count_at-write height r timestamp n blocks = elim (Bool-cases (r.block_height == height)) [
  | inl e ↦
      let same : r.block_height ≡ height = (==_iff _ _).0 e in
      ground (
        arith,
        e,
        count_at-put_block height (counted n (block_of r timestamp blocks)) blocks,
        block_of_lem r timestamp blocks,
        ap (λ (k : ℕ). count_at k blocks) same,
      )
  | inr e ↦ ground (
    arith,
    e,
    count_at-put_block height (counted n (block_of r timestamp blocks)) blocks,
    block_of_lem r timestamp blocks,
  )
]

IsCounted-write :
    (t : TxRow) (r : ReceiptRow) (timestamp n : ℕ) (blocks : List BlockRow)
    → IsCounted blocks t
    → IsCounted (put_block (counted n (block_of r timestamp blocks)) blocks) t
IsCounted-write t r timestamp n blocks h height i p =
    ground (arith, h height i p, count_at-write height r timestamp n blocks)

new_place-IsCounted :
    (t : TxRow) (r : ReceiptRow) (timestamp n : ℕ) (blocks : List BlockRow)
    → t.block_height ≡ some r.block_height
    → t.tx_index ≡ some (block_of r timestamp blocks).tx_count
    → IsCounted (put_block (counted n (block_of r timestamp blocks)) blocks) t
new_place-IsCounted t r timestamp n blocks at_height at_index height i p =
    let same : r.block_height ≡ height = cc (at_height, p.0) in
    let same_index : (block_of r timestamp blocks).tx_count ≡ i = cc (at_index, p.1) in
    ground (
      arith,
      same,
      same_index,
      (block_of_lem r timestamp blocks).1,
      ap (λ (k : ℕ). count_at k blocks) same,
      count_at-write height r timestamp n blocks,
    )

write_index-IsIndexed :
    (hash : Bytes) (meta : TxMeta) (r : ReceiptRow) (timestamp : ℕ) (db : Db)
    → IsIndexed db
    → IsIndexed (write_index hash meta r timestamp db)
unfolding write_index settled new_row
write_index-IsIndexed hash meta r timestamp db v =
    let b : BlockRow = block_of r timestamp db.blocks in
    let blocks : List BlockRow = put_block (counted (length r.logs) b) db.blocks in
    let set : TxRow → TxRow =
      λ t. record (settled r (some b.tx_count) t) { koinos_tx_id = id_column meta.koinos_tx_id } in
    let row : TxRow = settled r (some b.tx_count) (new_row hash meta) in
    record {
      rows =
          insert_tx-IsDistinct (IsCounted db.blocks) row set (λ t. refl)
            (λ t u c _. fresh_place r (set t) u timestamp db.blocks refl refl c)
            (λ t c height i p q. fresh_place r row t timestamp db.blocks refl refl c height i q p)
            db.txs v.counts v.rows;
      counts =
          All-insert_tx (IsCounted blocks) row set db.txs
            (new_place-IsCounted row r timestamp (length r.logs) db.blocks refl refl)
            (λ t _. new_place-IsCounted (set t) r timestamp (length r.logs) db.blocks refl refl)
            (All-map (IsCounted db.blocks) (IsCounted blocks)
              (λ t c. IsCounted-write t r timestamp (length r.logs) db.blocks c) db.txs v.counts);
    }

Write-IsIndexed : {db db' : Db} → Write db db' → IsIndexed db → IsIndexed db'
unfolding index_tx set_meta
Write-IsIndexed (upsert hash meta db) v = upsert_tx-IsIndexed hash meta db v
Write-IsIndexed (settle hash r {db} {next = out} h) v = set_receipt-IsIndexed hash r db out h v
Write-IsIndexed (index hash meta r timestamp db) v = elim (Bool-cases (is_indexed hash r db.txs)) [
  | inl e ↦ rw e v
  | inr e ↦ rw e (write_index-IsIndexed hash meta r timestamp db v)
]
Write-IsIndexed (bump hash db) v = bump_poll_attempts-IsIndexed hash db v
Write-IsIndexed (put_meta key value db) v = record { rows = v.rows; counts = v.counts }

-- Whatever is written to the store, in whatever order: no two rows of `txs` have the same hash, no
-- two have the same position in the same block, and each position is one that the row of its block
-- has counted.
pub Reached-IsIndexed : {db : Db} → Reached db → IsIndexed db
unfolding IsDistinct
Reached-IsIndexed opened = record { rows = tt; counts = tt }
Reached-IsIndexed (next r w) = Write-IsIndexed w (Reached-IsIndexed r)
