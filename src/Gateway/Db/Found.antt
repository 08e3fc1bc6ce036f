-- ===== src/Gateway/Db/Found.antt =====
-- The row that is found under a hash behind an update, an insert and a write of the indexer.
use koinos_evm_engine.Base.{
  ℕ, ◌≡◌, ◌≢◌, refl, sym, ap, ◌∙◌, Bool, Bool-cases, Option, none, some, Option-cases, inl, inr,
  List, [], ◌∷◌, ◌++◌, bytes_eq, bytes_eq_refl, bytes_eq→eq, if◌then◌else◌, arith,
}
use koinos_evm_engine.Base.Words.{Bytes}
use koinos_evm_engine.Gateway.TxMetaStore.{TxMeta}
use koinos_evm_engine.Gateway.Db.{
  TxRow, BlockRow, ReceiptRow, Db, find_tx, update_tx, insert_tx, id_column, new_row, settled,
  block_of, write_index,
}

pub find_tx-update :
    (hash : Bytes) (set : TxRow → TxRow) (ts : List TxRow) (t : TxRow)
    → ((u : TxRow) → (set u).eth_hash ≡ u.eth_hash)
    → find_tx hash ts ≡ some t
    → find_tx hash (update_tx hash set ts) ≡ some (set t)
unfolding find_tx update_tx
find_tx-update hash set [] t keeps h = cc
find_tx-update hash set (u ∷ ts) t keeps h = elim (Bool-cases (bytes_eq u.eth_hash hash)) [
  | inl e ↦ ground (arith, h, e, ap (λ (k : Bytes). bytes_eq k hash) (keeps u))
  | inr e ↦ ground (arith, h, e, find_tx-update hash set ts t keeps)
]

find_tx-update_other :
    (hash other : Bytes) (set : TxRow → TxRow) (ts : List TxRow)
    → ((u : TxRow) → (set u).eth_hash ≡ u.eth_hash)
    → other ≢ hash
    → find_tx hash (update_tx other set ts) ≡ find_tx hash ts
unfolding find_tx update_tx
find_tx-update_other hash other set [] keeps ne = refl
find_tx-update_other hash other set (u ∷ ts) keeps ne =
    elim (Bool-cases (bytes_eq u.eth_hash other)) [
      | inl e ↦ elim (Bool-cases (bytes_eq u.eth_hash hash)) [
        | inl e' ↦ absurd (ne (sym (bytes_eq→eq _ _ e) ∙ bytes_eq→eq _ _ e'))
        | inr e' ↦ ground (
          arith,
          e,
          e',
          ap (λ (k : Bytes). bytes_eq k hash) (keeps u),
          find_tx-update_other hash other set ts keeps ne,
        )
      ]
      | inr e ↦ ground (arith, e, find_tx-update_other hash other set ts keeps ne)
    ]

find_tx-snoc :
    (hash : Bytes) (row : TxRow) (ts : List TxRow)
    → find_tx hash ts ≡ none
    → find_tx hash (ts ++ (row ∷ [])) ≡ (if bytes_eq row.eth_hash hash then some row else none)
unfolding find_tx
find_tx-snoc hash row [] h = refl
find_tx-snoc hash row (t ∷ ts) h = ground (arith, h, find_tx-snoc hash row ts)

find_tx-snoc_some :
    (hash : Bytes) (row t : TxRow) (ts : List TxRow)
    → find_tx hash ts ≡ some t
    → find_tx hash (ts ++ (row ∷ [])) ≡ some t
unfolding find_tx
find_tx-snoc_some hash row t [] h = cc
find_tx-snoc_some hash row t (u ∷ ts) h = ground (arith, h, find_tx-snoc_some hash row t ts)

-- The row that an insert leaves under its hash: the new one, or the old one updated.
abbrev pub inserted : TxRow → (TxRow → TxRow) → Option TxRow → TxRow
inserted row set none = row
inserted row set (some t) = set t

pub find_tx-insert :
    (row : TxRow) (set : TxRow → TxRow) (ts : List TxRow)
    → ((u : TxRow) → (set u).eth_hash ≡ u.eth_hash)
    → find_tx row.eth_hash (insert_tx row set ts)
      ≡ some (inserted row set (find_tx row.eth_hash ts))
unfolding insert_tx
find_tx-insert row set ts keeps = elim (Option-cases (find_tx row.eth_hash ts)) [
  | inl e ↦
      rw (e, insert_tx, inserted)
        (find_tx-snoc row.eth_hash row ts e
          ∙ ap (λ (b : Bool). if b then some row else none) (bytes_eq_refl row.eth_hash))
  | inr (t, e) ↦ rw (e, insert_tx, inserted) (find_tx-update row.eth_hash set ts t keeps e)
]

pub find_tx-insert_other :
    (hash : Bytes) (row : TxRow) (set : TxRow → TxRow) (ts : List TxRow) (t : TxRow)
    → ((u : TxRow) → (set u).eth_hash ≡ u.eth_hash)
    → row.eth_hash ≢ hash
    → find_tx hash ts ≡ some t
    → find_tx hash (insert_tx row set ts) ≡ some t
unfolding insert_tx
find_tx-insert_other hash row set ts t keeps ne h = elim (Option-cases (find_tx row.eth_hash ts)) [
  | inl e ↦ rw (e, insert_tx) (find_tx-snoc_some hash row t ts h)
  | inr (u, e) ↦ rw (e, insert_tx) (find_tx-update_other hash row.eth_hash set ts keeps ne ∙ h)
]

-- The position that the indexer gives, and the row of the transaction behind its write.
abbrev pub place : ReceiptRow → ℕ → Db → BlockRow
place r timestamp db = block_of r timestamp db.blocks

abbrev pub indexed_row : Bytes → TxMeta → ReceiptRow → ℕ → Db → TxRow
indexed_row hash meta r timestamp db =
    let i = some (place r timestamp db).tx_count in
    inserted (settled r i (new_row hash meta))
      (λ t. record (settled r i t) { koinos_tx_id = id_column meta.koinos_tx_id })
      (find_tx hash db.txs)

pub find_tx-write_index :
    (hash : Bytes) (meta : TxMeta) (r : ReceiptRow) (timestamp : ℕ) (db : Db)
    → find_tx hash (write_index hash meta r timestamp db).txs
      ≡ some (indexed_row hash meta r timestamp db)
unfolding write_index settled new_row
find_tx-write_index hash meta r timestamp db = find_tx-insert _ _ db.txs (λ u. refl)

pub inserted_columns :
    (hash : Bytes) (meta : TxMeta) (r : ReceiptRow) (timestamp : ℕ) (db : Db) (o : Option TxRow)
    → let i = some (place r timestamp db).tx_count in
      let t =
        inserted
          (settled r i (new_row hash meta))
          (λ t. record (settled r i t) { koinos_tx_id = id_column meta.koinos_tx_id })
          o in
      (t.block_height ≡ some r.block_height)
      × (t.block_hash ≡ some r.block_hash)
      × (t.tx_index ≡ i)
      × (t.status ≡ some r.status)
      × (t.gas_used ≡ some r.gas_used)
      × (t.contract_address ≡ r.contract_address)
unfolding settled new_row
inserted_columns hash meta r timestamp db none = (refl, refl, refl, refl, refl, refl)
inserted_columns hash meta r timestamp db (some t) = (refl, refl, refl, refl, refl, refl)
