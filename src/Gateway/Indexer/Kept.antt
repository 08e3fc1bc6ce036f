-- ===== src/Gateway/Indexer/Kept.antt =====
-- What is in the store's meta table: entries leave it alone, and a cursor that is stored is read back.
use koinos_evm_engine.Base.{
  ℕ, ◌^◌, ◌<◌, List, ◌++◌, ◌≡◌, refl, sym, ap, ◌∙◌, Bool-cases, inl, inr, Option, none, some,
  ◌>>=?◌, Option-cases, >>=?-eq-some, [], ◌∷◌, append-nil, All, ◌==◌, ==_iff, arith,
}
use mathlib.Core.Path.{subst}
use koinos_evm_engine.Base.Words.{Bytes}
use koinos_evm_engine.Base.Text.{decimal}
use koinos_evm_engine.Base.Decimal.{parse_u64, parse_u64-lt, parse_u64-decimal}
use koinos_evm_engine.Base.Dict.{Dict, lookup, lookup-put_same}
use koinos_evm_engine.Gateway.EthCodec.{Hex}
use koinos_evm_engine.Gateway.EthTx.{Crypto, DecodedTx}
use koinos_evm_engine.Gateway.TxMetaStore.{TxMeta}
use koinos_evm_engine.Gateway.Db.{Db, ReceiptRow, index_tx, is_indexed, write_index, set_meta}
use koinos_evm_engine.Gateway.Db.Reads.{get_meta}
use koinos_evm_engine.Gateway.Indexer.{
  Node, Config, HistoryEntry, seq_of, Indexer, look_up_block, resolve_block, index_entry,
  process_entry, cursor_key, cursor_of, moved, store_cursor,
}
use koinos_evm_engine.Gateway.Indexer.Cursor.{Outcomes, is_final, reached}
use koinos_evm_engine.Gateway.Indexer.Walk.{outcomes_of, state_after, behind_call, Walk}

index_tx-meta :
    (hash : Bytes) (meta : TxMeta) (r : ReceiptRow) (timestamp : ℕ) (db : Db)
    → (index_tx hash meta r timestamp db).1.meta ≡ db.meta
unfolding index_tx write_index
index_tx-meta hash meta r timestamp db = elim (Bool-cases (is_indexed hash r db.txs)) [
  | inl e ↦ rw e refl
  | inr e ↦ rw e refl
]

-- A cursor that the store can hold.
abbrev pub IsU64Option : Option ℕ → Type 0
IsU64Option none = Unit
IsU64Option (some n) = n < 2 ^ 64

pub reached-IsU64Option :
    (lib : ℕ) (cursor : Option ℕ) (outs : Outcomes)
    → IsU64Option cursor
    → All (λ o. o.0 < 2 ^ 64) outs
    → IsU64Option (reached lib cursor outs)
unfolding reached
reached-IsU64Option lib cursor [] h k = h
reached-IsU64Option lib cursor ((seq, o) ∷ outs) h (ho, k) = elim (Bool-cases (is_final lib o)) [
  | inl e ↦ rw e (reached-IsU64Option lib (some seq) outs ho k)
  | inr e ↦ rw e h
]

pub cursor_of-IsU64Option : (db : Db) → IsU64Option (cursor_of db)
unfolding cursor_of
cursor_of-IsU64Option db = elim (Option-cases (cursor_of db)) [
  | inl e ↦ subst IsU64Option (sym e) tt
  | inr (n, e) ↦
      let text = >>=?-eq-some (get_meta db cursor_key) parse_u64 e in
      subst IsU64Option (sym e) (parse_u64-lt text.0 n text.2)
]

seq_of-lt : (entry : HistoryEntry) → seq_of entry < 2 ^ 64
unfolding seq_of
seq_of-lt entry = elim (Option-cases (entry.seq_num >>=? parse_u64)) [
  | inl e ↦ rw (e, seq_of) (omega arith)
  | inr (n, e) ↦
      let text = >>=?-eq-some entry.seq_num parse_u64 e in
      rw (e, seq_of) (parse_u64-lt text.0 n text.2)
]

cursor_of-set_meta :
    (n : ℕ) (db : Db) → n < 2 ^ 64 → cursor_of (set_meta cursor_key (decimal n) db) ≡ some n
unfolding cursor_of get_meta set_meta
cursor_of-set_meta n db h =
    rw (lookup-put_same cursor_key (decimal n) db.meta) (parse_u64-decimal n h)

-- What is stored is read back, where it fits; a cursor that is the same stays.
pub cursor_of-store_cursor :
    (db : Db) (cursor candidate : Option ℕ)
    → cursor_of db ≡ cursor
    → IsU64Option candidate
    → (candidate ≡ none → cursor ≡ none)
    → cursor_of (store_cursor cursor candidate db) ≡ candidate
unfolding store_cursor moved
cursor_of-store_cursor db none none e fits kept = e
cursor_of-store_cursor db (some c) none e fits kept = cc (kept refl)
cursor_of-store_cursor db none (some n) e fits kept = cursor_of-set_meta n db fits
cursor_of-store_cursor db (some c) (some n) e fits kept = elim (Bool-cases (n == c)) [
  | inl same ↦ rw (same, store_cursor, moved) (e ∙ ap some (sym ((==_iff n c).0 same)))
  | inr other ↦ rw (other, store_cursor, moved) (cursor_of-set_meta n db fits)
]

-- Nothing but the cursor is stored with it.
pub store_cursor-tables :
    (cursor candidate : Option ℕ) (db : Db)
    → record (store_cursor cursor candidate db) { meta = db.meta } ≡ db
unfolding set_meta store_cursor
store_cursor-tables cursor candidate db = behind_moved (moved cursor candidate)
  where
    behind_moved :
        (m : Option ℕ)
        → record (elim m [ none ↦ db | some c ↦ set_meta cursor_key (decimal c) db ]) {
          meta = db.meta;
        }
          ≡ db
    behind_moved none = refl
    behind_moved (some c) = refl

pub cursor_of-meta : (db old : Db) → db.meta ≡ old.meta → cursor_of db ≡ cursor_of old
unfolding cursor_of get_meta
cursor_of-meta db old e = ap (λ (m : Dict Bytes). lookup m cursor_key >>=? parse_u64) e

pub reached-none :
    (lib : ℕ) (cursor : Option ℕ) (outs : Outcomes) → reached lib cursor outs ≡ none → cursor ≡ none
unfolding reached
reached-none lib cursor [] h = h
reached-none lib cursor ((seq, o) ∷ outs) h = elim (Bool-cases (is_final lib o)) [
  | inl e ↦ cc (reached-none lib (some seq) outs (ground (arith, e, h)))
  | inr e ↦ ground (arith, e, h)
]

module _ (hex : Hex) (crypto : Crypto) (config : Config) (node : Node) where
  look_up_block-db :
      (block_id : Bytes) (s : Indexer hex crypto config node)
      → (look_up_block hex crypto config node block_id s).1.db ≡ s.db
  unfolding look_up_block
  look_up_block-db block_id s = ground arith

  resolve_block-db :
      (id : Bytes) (s : Indexer hex crypto config node)
      → (resolve_block hex crypto config node id s).1.db ≡ s.db
  unfolding resolve_block
  resolve_block-db id s = grind (arith, look_up_block-db)

  index_entry-meta :
      (e : HistoryEntry) (raw koinos_tx_id : Bytes) (decoded : DecodedTx)
      (s : Indexer hex crypto config node)
      → (index_entry hex crypto config node e raw koinos_tx_id decoded s).1.db.meta ≡ s.db.meta
  unfolding index_entry
  index_entry-meta e raw koinos_tx_id decoded s = grind (arith, resolve_block-db, index_tx-meta)

  process_entry-meta :
      (e : HistoryEntry) (s : Indexer hex crypto config node)
      → (process_entry hex crypto config node e s).1.db.meta ≡ s.db.meta
  unfolding process_entry
  process_entry-meta e s = grind (arith, index_entry-meta)

  state_after-meta :
      (es : List HistoryEntry) (s : Indexer hex crypto config node)
      → (state_after hex crypto config node es s).db.meta ≡ s.db.meta
  unfolding state_after
  state_after-meta [] s = refl
  state_after-meta (e ∷ es) s =
      state_after-meta es (process_entry hex crypto config node e s).1 ∙ process_entry-meta e s

  outcomes_of-append-lt :
      (es : List HistoryEntry) (s : Indexer hex crypto config node) (outs : Outcomes)
      → All (λ o. o.0 < 2 ^ 64) outs
      → All (λ o. o.0 < 2 ^ 64) (outcomes_of hex crypto config node es s ++ outs)
  unfolding outcomes_of
  outcomes_of-append-lt [] s outs h = h
  outcomes_of-append-lt (e ∷ es) s outs h =
      (seq_of-lt e, outcomes_of-append-lt es (process_entry hex crypto config node e s).1 outs h)

  -- A walk leaves the cursor to the cycle, and its sequence numbers are those of a u64.
  pub Walk-meta :
      {next : ℕ} {s s' : Indexer hex crypto config node} {outs : Outcomes}
      → Walk hex crypto config node next s outs s'
      → (s'.db.meta ≡ s.db.meta) × All (λ o. o.0 < 2 ^ 64) outs
  Walk-meta (Walk.at_head next s got) = (refl, tt)
  Walk-meta (Walk.last_page next s e es got short) =
      let t = behind_call hex crypto config node next s in
      (
        state_after-meta (e ∷ es) t,
        subst (All (λ o. o.0 < 2 ^ 64)) (append-nil (outcomes_of hex crypto config node (e ∷ es) t))
            (outcomes_of-append-lt (e ∷ es) t [] tt),
      )
  Walk-meta (Walk.full_page next s e es {outs} got full walk) =
      let t = behind_call hex crypto config node next s in
      let rest = Walk-meta walk in
      (rest.0 ∙ state_after-meta (e ∷ es) t, outcomes_of-append-lt (e ∷ es) t outs rest.1)
