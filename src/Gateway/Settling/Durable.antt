-- ===== src/Gateway/Settling/Durable.antt =====
-- A receipt that was answered once is in the store, if the writes succeed.
use koinos_evm_engine.Base.{
  ◌≡◌, refl, sym, true, false, Bool-cases, none, some, Option-cases, inl, inr, arith,
}
use mathlib.Core.Path.{subst}
use koinos_evm_engine.Base.Words.{Bytes}
use koinos_evm_engine.Gateway.EthCodec.{Hex}
use koinos_evm_engine.Gateway.TxMetaStore.{TxMeta, TxMetaStore}
use koinos_evm_engine.Gateway.Relay.{Answer}
use koinos_evm_engine.Gateway.Indexer.Cursor.{answered}
use koinos_evm_engine.Gateway.Db.{
  TxRow, ReceiptRow, Db, find_tx, update_tx, new_row, upsert_tx, settled, replace_logs, set_receipt,
}
use koinos_evm_engine.Gateway.Db.Reads.{get_receipt, has_status, is_settled}
use koinos_evm_engine.Gateway.Db.Found.{find_tx-update, find_tx-insert}
use koinos_evm_engine.Gateway.Settling.{
  Chain, Disk, persist, load_meta, stored_receipt, fetch_receipt_from_chain, settle_from_chain,
  handle_get_tx_receipt,
}

is_settled-get_receipt :
    (db : Db) (hash : Bytes) (r : ReceiptRow)
    → get_receipt db hash ≡ some r
    → is_settled db hash ≡ true
unfolding get_receipt is_settled has_status
is_settled-get_receipt db hash r h = ground (arith, h)

find_tx-upsert_tx :
    (hash : Bytes) (meta : TxMeta) (db : Db)
    → (t : TxRow) × (find_tx hash (upsert_tx hash meta db).txs ≡ some t)
unfolding upsert_tx new_row
find_tx-upsert_tx hash meta db = (_, find_tx-insert (new_row hash meta) _ db.txs (λ u. refl))

is_settled-set_receipt :
    (hash : Bytes) (r : ReceiptRow) (db : Db) (t : TxRow)
    → find_tx hash db.txs ≡ some t
    → (out : Db) × (set_receipt hash r db ≡ some out) × (is_settled out hash ≡ true)
unfolding set_receipt is_settled has_status settled
is_settled-set_receipt hash r db t h =
    let behind = find_tx-update hash (settled r none) db.txs t (λ u. refl) h in
    (
      record db {
        txs = update_tx hash (settled r none) db.txs;
        logs = replace_logs hash r 0 0 db.logs;
      },
      rw (h, set_receipt) refl,
      ground (arith, behind),
    )

-- What is in the store behind a call that answers a receipt: the transaction is settled, or a write
-- failed, and then at most its row without the receipt is new.
pub data IsPersisted (disk : Disk) (hash : Bytes) (meta : TxMeta) (db db' : Db) : Type 0 where
  settled_now : is_settled db' hash ≡ true → IsPersisted disk hash meta db db'
  no_row : disk.upserts ≡ false → db' ≡ db → IsPersisted disk hash meta db db'
  no_receipt :
      disk.upserts ≡ true
      → disk.sets ≡ false
      → db' ≡ upsert_tx hash meta db
      → IsPersisted disk hash meta db db'

persist-IsPersisted :
    (disk : Disk) (hash : Bytes) (meta : TxMeta) (r : ReceiptRow) (db : Db)
    → IsPersisted disk hash meta db (persist disk hash meta r db)
unfolding persist
persist-IsPersisted disk hash meta r db = elim (Bool-cases disk.upserts) [
  | inr e ↦ IsPersisted.no_row e (ground (arith, e))
  | inl e ↦ elim (Bool-cases disk.sets) [
    | inr e' ↦ IsPersisted.no_receipt e e' (ground (arith, e, e'))
    | inl e' ↦
        let row = find_tx-upsert_tx hash meta db in
        let done = is_settled-set_receipt hash r (upsert_tx hash meta db) row.0 row.1 in
        IsPersisted.settled_now (ground (arith, e, e', done.1, done.2))
  ]
]

module _ (hex : Hex) (chain : Chain) where
  settle_from_chain-IsPersisted :
      (disk : Disk) (hash : Bytes) (meta : TxMeta) (db : Db) (w : chain.World)
      (found : TxMeta × ReceiptRow)
      → (settle_from_chain hex chain disk hash meta db w).0 ≡ Answer.ok (some found)
      → (found.0 ≡ meta)
        × IsPersisted disk hash meta db (settle_from_chain hex chain disk hash meta db w).1
  unfolding settle_from_chain
  settle_from_chain-IsPersisted disk hash meta db w found h =
      elim (answered (fetch_receipt_from_chain hex chain meta.koinos_tx_id w).0) [
        | inl (none, e) ↦ absurd (ground (arith, h, e))
        | inl (some row, e) ↦ (
          ground (arith, h, e),
          subst (IsPersisted disk hash meta db) (ground (arith, e))
              (persist-IsPersisted disk hash meta row db),
        )
        | inr (inl (text, e)) ↦ absurd (ground (arith, h, e))
        | inr (inr e) ↦ absurd (ground (arith, h, e))
      ]

  -- Where a client is answered a receipt, the transaction is settled in the store behind the call,
  -- or a write failed: where that of the row did, the store is as it was, and where that of the
  -- receipt did, the row that is answered with is all that was written.
  pub handle_get_tx_receipt-IsPersisted :
      (disk : Disk) (store : TxMetaStore) (hash : Bytes) (db : Db) (w : chain.World)
      (found : TxMeta × ReceiptRow)
      → (handle_get_tx_receipt hex chain disk store hash db w).0 ≡ Answer.ok (some found)
      → IsPersisted disk hash found.0 db (handle_get_tx_receipt hex chain disk store hash db w).1
  unfolding handle_get_tx_receipt stored_receipt
  handle_get_tx_receipt-IsPersisted disk store hash db w found h =
      elim (Option-cases (load_meta disk store db hash)) [
        | inl e ↦ absurd (ground (arith, h, e))
        | inr (meta, e) ↦ elim (Option-cases (stored_receipt disk db hash)) [
          | inl e' ↦
              let there =
                settle_from_chain-IsPersisted disk hash meta db w found
                  (ground (arith, h, e, e')) in
              subst
                (λ (m : TxMeta).
                  IsPersisted disk hash m db
                    (handle_get_tx_receipt hex chain disk store hash db w).1)
                (sym there.0)
                (subst (IsPersisted disk hash meta db) (ground (arith, e, e')) there.1)
          | inr (stored, e') ↦
              IsPersisted.settled_now
                (ground (arith, e, e', is_settled-get_receipt db hash stored (ground (arith, e'))))
        ]
      ]
