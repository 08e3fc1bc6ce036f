-- ===== src/Gateway/Db/Repeats.antt =====
-- The indexer's writes, repeated: the same receipt again, and a failed duplicate of a success.
use koinos_evm_engine.Base.{
  ℕ, ◌≡◌, ◌≢◌, refl, sym, ap, ◌∙◌, true, false, Bool-cases, some, inl, inr, bytes_eq, bytes_eq→eq,
  bytes_eq_iff, arith,
}
use mathlib.Core.Path.{subst}
use koinos_evm_engine.Base.Words.{Bytes}
use koinos_evm_engine.Gateway.TxMetaStore.{TxMeta}
use koinos_evm_engine.Gateway.Db.{
  TxRow, ReceiptRow, Db, find_tx, new_row, settled, keeps_index, is_indexed, write_index, index_tx,
}
use koinos_evm_engine.Gateway.Db.Found.{
  place, find_tx-insert_other, indexed_row, find_tx-write_index, inserted_columns,
}

keeps_index-placed :
    (r : ReceiptRow) (t : TxRow) (i : ℕ)
    → t.block_height ≡ some r.block_height
    → t.tx_index ≡ some i
    → keeps_index r t ≡ true
unfolding keeps_index
keeps_index-placed r t i at_height at_index = ground (arith, at_height, at_index)

is_indexed-write_index :
    (hash : Bytes) (meta : TxMeta) (r : ReceiptRow) (timestamp : ℕ) (db : Db)
    → is_indexed hash r (write_index hash meta r timestamp db).txs ≡ true
unfolding is_indexed
is_indexed-write_index hash meta r timestamp db =
    let c = inserted_columns hash meta r timestamp db (find_tx hash db.txs) in
    rw (find_tx-write_index hash meta r timestamp db, is_indexed) (keeps_index-placed r _ _ c.0 c.2)

pub index_tx-kept :
    (hash : Bytes) (meta : TxMeta) (r : ReceiptRow) (timestamp : ℕ) (db : Db)
    → is_indexed hash r db.txs ≡ true
    → index_tx hash meta r timestamp db ≡ (false, db)
unfolding index_tx
index_tx-kept hash meta r timestamp db e = rw e refl

pub index_tx-written :
    (hash : Bytes) (meta : TxMeta) (r : ReceiptRow) (timestamp : ℕ) (db : Db)
    → is_indexed hash r db.txs ≡ false
    → index_tx hash meta r timestamp db ≡ (true, write_index hash meta r timestamp db)
unfolding index_tx
index_tx-written hash meta r timestamp db e = rw e refl

-- To index the same receipt again is to change nothing, whatever came of the first time, and
-- whatever metadata and timestamp come with it now.
pub index_tx-twice :
    (hash : Bytes) (meta meta' : TxMeta) (r : ReceiptRow) (timestamp timestamp' : ℕ) (db : Db)
    → index_tx hash meta' r timestamp' (index_tx hash meta r timestamp db).1
      ≡ (false, (index_tx hash meta r timestamp db).1)
index_tx-twice hash meta meta' r timestamp timestamp' db =
    elim (Bool-cases (is_indexed hash r db.txs)) [
      | inl e ↦
          rw (index_tx-kept hash meta r timestamp db e) (index_tx-kept hash meta' r timestamp' db e)
      | inr e ↦ rw (index_tx-written hash meta r timestamp db e) (
          index_tx-kept hash meta' r timestamp' _ (is_indexed-write_index hash meta r timestamp db))
    ]

-- A transaction that the indexer has seen succeed.
pub record IsSucceeded (hash : Bytes) (db : Db) : Type 0 where
  pub row : TxRow
  pub found : find_tx hash db.txs ≡ some row
  pub height : ℕ
  pub at_height : row.block_height ≡ some height
  pub place : ℕ
  pub at_place : row.tx_index ≡ some place
  pub succeeded : row.status ≡ some true

not_kept-succeeds :
    (hash : Bytes) (r : ReceiptRow) (db : Db)
    → IsSucceeded hash db
    → is_indexed hash r db.txs ≡ false
    → r.status ≡ true
unfolding is_indexed keeps_index
not_kept-succeeds hash r db s e = ground (arith, e, s.found, s.at_height, s.at_place, s.succeeded)

write_index-IsSucceeded_same :
    (hash : Bytes) (meta : TxMeta) (r : ReceiptRow) (timestamp : ℕ) (db : Db)
    → r.status ≡ true
    → IsSucceeded hash (write_index hash meta r timestamp db)
write_index-IsSucceeded_same hash meta r timestamp db good =
    let c = inserted_columns hash meta r timestamp db (find_tx hash db.txs) in
    record {
      row = indexed_row hash meta r timestamp db;
      found = find_tx-write_index hash meta r timestamp db;
      height = r.block_height;
      at_height = c.0;
      place = (place r timestamp db).tx_count;
      at_place = c.2;
      succeeded = c.3 ∙ ap some good;
    }

write_index-IsSucceeded_other :
    (hash other : Bytes) (meta : TxMeta) (r : ReceiptRow) (timestamp : ℕ) (db : Db)
    → other ≢ hash
    → IsSucceeded hash db
    → IsSucceeded hash (write_index other meta r timestamp db)
unfolding write_index settled new_row
write_index-IsSucceeded_other hash other meta r timestamp db ne s = record {
  row = s.row;
  found = find_tx-insert_other hash _ _ db.txs s.row (λ u. refl) ne s.found;
  height = s.height;
  at_height = s.at_height;
  place = s.place;
  at_place = s.at_place;
  succeeded = s.succeeded;
}

write_index-IsSucceeded :
    (hash other : Bytes) (meta : TxMeta) (r : ReceiptRow) (timestamp : ℕ) (db : Db)
    → (other ≡ hash → r.status ≡ true)
    → IsSucceeded hash db
    → IsSucceeded hash (write_index other meta r timestamp db)
write_index-IsSucceeded hash other meta r timestamp db good s =
    elim (Bool-cases (bytes_eq other hash)) [
      | inl e ↦
          let same : other ≡ hash = bytes_eq→eq other hash e in
          subst (λ (h : Bytes). IsSucceeded h (write_index other meta r timestamp db)) same
            (write_index-IsSucceeded_same other meta r timestamp db (good same))
      | inr e ↦
          write_index-IsSucceeded_other hash other meta r timestamp db
            (λ same. cc (e, (bytes_eq_iff other hash).1 same)) s
    ]

-- A transaction that the indexer has seen succeed stays a success, whatever receipts of whatever
-- transactions it indexes from then on: a failed duplicate never takes its place.
pub index_tx-IsSucceeded :
    (hash other : Bytes) (meta : TxMeta) (r : ReceiptRow) (timestamp : ℕ) (db : Db)
    → IsSucceeded hash db
    → IsSucceeded hash (index_tx other meta r timestamp db).1
index_tx-IsSucceeded hash other meta r timestamp db s =
    elim (Bool-cases (is_indexed other r db.txs)) [
      | inl e ↦ rw (index_tx-kept other meta r timestamp db e) s
      | inr e ↦ rw (index_tx-written other meta r timestamp db e) (
          write_index-IsSucceeded hash other meta r timestamp db
            (λ same.
              not_kept-succeeds hash r db s
                (ap (λ (h : Bytes). is_indexed h r db.txs) (sym same) ∙ e))
            s)
    ]
