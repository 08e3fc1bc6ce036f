-- ===== src/Gateway/Settling.antt =====
-- koinos-evm/rpc/src/rpc.rs: how a receipt gets from the chain into the store, for a client that
-- asks for it and by the poller. The node is a parameter; an answer is taken apart as in Indexer.
-- What others write while a call is awaited is left out.
pub mod Durable
use koinos_evm_engine.Base.{
  ℕ, zero, suc, ◌+◌, Bool, true, false, Option, none, some, ◌>>=?◌, List, [], ◌∷◌, ◌++◌, is_empty,
  if◌then◌else◌,
}
use koinos_evm_engine.Base.Words.{Bytes}
use koinos_evm_engine.Base.Text.{codes}
use koinos_evm_engine.Base.Decimal.{parse_u64}
use koinos_evm_engine.Gateway.EngineProto.{ok, err}
use koinos_evm_engine.Gateway.EthCodec.{Hex}
use koinos_evm_engine.Gateway.TxMetaStore
use koinos_evm_engine.Gateway.TxMetaStore.{TxMeta, TxMetaStore}
use koinos_evm_engine.Gateway.Receipts.{Event, decode_receipt_events}
use koinos_evm_engine.Gateway.Relay
use koinos_evm_engine.Gateway.Relay.{Answer, failed}
use koinos_evm_engine.Gateway.Indexer.{strip_multihash, receipt_row}
use koinos_evm_engine.Gateway.Db.{ReceiptRow, Db, upsert_tx, set_receipt, bump_poll_attempts}
use koinos_evm_engine.Gateway.Db.Reads.{get_tx_meta, get_receipt, pending_txs}

-- A transaction as the node knows it: its receipt's events, and the blocks that contain it, `none`
-- for one that is no text.
pub record Inclusion : Type 0 where
  pub receipt : Option (List Event)
  pub containing_blocks : List (Option Bytes)

-- What is asked of the node: a transaction, and the text of a block's height.
pub record Chain : Type 1 where
  pub World : Type 0
  pub transaction : Bytes → World → Answer Inclusion × World
  pub height_of : Bytes → World → Answer (Option Bytes) × World

-- The first containing block, if there is a receipt too.
unfoldable pub included : Inclusion → Option (List Event × Bytes)
included i = elim i.receipt [
  | none ↦ none
  | some events ↦ elim i.containing_blocks [
    | [] ↦ none
    | none ∷ rest ↦ some (events, [])
    | some b ∷ rest ↦ some (events, b)
  ]
]

-- Which calls of the store succeed in a request: one that does not is an error of SQLite, which is
-- logged, and leaves the store as it was.
pub record Disk : Type 0 where
  pub reads_meta : Bool
  pub reads_receipt : Bool
  pub upserts : Bool
  pub sets : Bool

-- The row of the first time that the receipt is seen; `and_then` ends it at the first error, also
-- that of a missing parent row. What was done before stays.
unfoldable pub persist : Disk → Bytes → TxMeta → ReceiptRow → Db → Db
persist disk hash meta row db =
    if disk.upserts
    then if disk.sets
      then elim (set_receipt hash row (upsert_tx hash meta db)) [
        | none ↦ upsert_tx hash meta db
        | some db' ↦ db'
      ]
      else upsert_tx hash meta db
    else db

-- `load_meta`: the memory, then the store.
unfoldable pub load_meta : Disk → TxMetaStore → Db → Bytes → Option TxMeta
load_meta disk store db hash = elim (TxMetaStore.get store hash) [
  | some m ↦ some m
  | none ↦ if disk.reads_meta then get_tx_meta db hash else none
]

-- The receipt of the store; an error counts as none.
unfoldable pub stored_receipt : Disk → Db → Bytes → Option ReceiptRow
stored_receipt disk db hash = if disk.reads_receipt then get_receipt db hash else none

-- The same for the poller: the query of what is pending, and the two writes to a transaction.
pub record PollDisk : Type 0 where
  pub lists : Bool
  pub sets : Bytes → Bool
  pub bumps : Bytes → Bool

-- The write of a receipt that was polled.
unfoldable pub settle_polled : PollDisk → Bytes → ReceiptRow → Db → Db
settle_polled disk hash row db =
    if disk.sets hash then elim (set_receipt hash row db) [ none ↦ db | some db' ↦ db' ] else db

unfoldable pub bump_polled : PollDisk → Bytes → Db → Db
bump_polled disk hash db = if disk.bumps hash then bump_poll_attempts hash db else db

module _ (hex : Hex) (chain : Chain) where
  unfoldable pub fetch_block_height : Bytes → chain.World → Answer (Option ℕ) × chain.World
  fetch_block_height block_id w =
      let (answer, w') = chain.height_of block_id w in
      elim answer [
        | failed e ↦ (Answer.ok none, w')
        | Answer.panicked ↦ (Answer.panicked, w')
        | Answer.ok text ↦ (Answer.ok (text >>=? parse_u64), w')
      ]

  -- The `hex::decode` of a block's id, without its multihash prefix.
  unfoldable pub block_hash_of : Bytes → Bytes
  block_hash_of block_id = elim (hex.decode (strip_multihash block_id)) [ none ↦ [] | some b ↦ b ]

  unfoldable pub included_receipt :
      List Event → Bytes → chain.World → Answer (Option ReceiptRow) × chain.World
  included_receipt events block_id w =
      let (height, w') = fetch_block_height block_id w in
      elim height [
        | failed e ↦ (failed e, w')
        | Answer.panicked ↦ (Answer.panicked, w')
        | Answer.ok none ↦ (Answer.ok none, w')
        | Answer.ok (some h) ↦ elim (decode_receipt_events events) [
          | err e ↦ (Answer.panicked, w')
          | ok ev ↦ (Answer.ok (some (receipt_row h (block_hash_of block_id) ev)), w')
        ]
      ]

  unfoldable pub fetch_receipt_from_chain :
      Bytes → chain.World → Answer (Option ReceiptRow) × chain.World
  fetch_receipt_from_chain koinos_tx_id w =
      if is_empty koinos_tx_id
      then (Answer.ok none, w)
      else let (answer, w') = chain.transaction (codes "0x1220" ++ hex.encode koinos_tx_id) w in
        elim answer [
          | failed e ↦ (Answer.ok none, w')
          | Answer.panicked ↦ (Answer.panicked, w')
          | Answer.ok i ↦ elim (included i) [
            | none ↦ (Answer.ok none, w')
            | some (events, block_id) ↦ included_receipt events block_id w'
          ]
        ]

  -- The receipt that is answered, with the metadata it is rendered with; `none` is null.
  abbrev pub Found : Type 0
  Found = Option (TxMeta × ReceiptRow)

  -- Behind the store, from the chain.
  unfoldable pub settle_from_chain :
      Disk → Bytes → TxMeta → Db → chain.World → Answer Found × Db × chain.World
  settle_from_chain disk hash meta db w =
      let (fetched, w') = fetch_receipt_from_chain meta.koinos_tx_id w in
      elim fetched [
        | failed e ↦ (failed e, db, w')
        | Answer.panicked ↦ (Answer.panicked, db, w')
        | Answer.ok none ↦ (Answer.ok none, db, w')
        | Answer.ok (some row) ↦ (Answer.ok (some (meta, row)), persist disk hash meta row db, w')
      ]

  unfoldable pub handle_get_tx_receipt :
      Disk → TxMetaStore → Bytes → Db → chain.World → Answer Found × Db × chain.World
  handle_get_tx_receipt disk store hash db w = elim (load_meta disk store db hash) [
    | none ↦ (Answer.ok none, db, w)
    | some meta ↦ elim (stored_receipt disk db hash) [
      | some stored ↦ (Answer.ok (some (meta, stored)), db, w)
      | none ↦ settle_from_chain disk hash meta db w
    ]
  ]

  -- One pending transaction of the poller: it is settled, or the attempt is counted. `none` is a
  -- panic, which ends the task.
  unfoldable pub poll_one : PollDisk → Bytes → Bytes → Db → chain.World → Option Db × chain.World
  poll_one disk hash koinos_tx_id db w =
      let (fetched, w') = fetch_receipt_from_chain koinos_tx_id w in
      elim fetched [
        | Answer.panicked ↦ (none, w')
        | Answer.ok (some row) ↦ (some (settle_polled disk hash row db), w')
        | Answer.ok none ↦ (some (bump_polled disk hash db), w')
        | failed e ↦ (some (bump_polled disk hash db), w')
      ]

  unfoldable pub poll_all :
      PollDisk → List (Bytes × Bytes) → Db → chain.World → Option Db × chain.World
  poll_all disk [] db w = (some db, w)
  poll_all disk ((hash, koinos_tx_id) ∷ rest) db w =
      let (polled, w') = poll_one disk hash koinos_tx_id db w in
      elim polled [ none ↦ (none, w') | some db' ↦ poll_all disk rest db' w' ]

  unfoldable pub poll_pending_receipts : PollDisk → Db → chain.World → Option Db × chain.World
  poll_pending_receipts disk db w =
      if disk.lists then poll_all disk (pending_txs db 25) db w else (some db, w)
