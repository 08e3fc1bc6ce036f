-- ===== src/Runs/History.antt =====
-- Runs of the indexer over a history of two entries.
use koinos_evm_engine.Base.{
  ℕ, zero, suc, ◌+◌, ◌≡◌, ◌≢◌, refl, true, Option, none, some, List, [], ◌∷◌, length, All, arith,
}
use koinos_evm_engine.Base.Text.{codes}
use koinos_evm_engine.Base.Decimal.{parse_u64, digits_onto, digit_value}
use koinos_evm_engine.Gateway.Relay.{Answer, failed}
use koinos_evm_engine.Gateway.EngineProto.{
  next, read_varint, read_varint_loop, next_by_type, next_payload,
}
use koinos_evm_engine.Gateway.EthTx.{
  decode_and_recover, decode_legacy, classify_v, legacy_signing_hash,
  build_legacy_pre155_signing_hash, recover_sender,
}
use koinos_evm_engine.Gateway.EthTx.Rlp.{
  from_list, rlp_header, checked_add, items_loop, rlp_decode_bytes, decode_u64, decode_u256_be,
  decode_address, shift_in, first_items,
}
use koinos_evm_engine.Gateway.Db.{empty_db}
use koinos_evm_engine.Gateway.Indexer.{
  Node, Config, HistoryEntry, Cycle, Indexer, out_of_fuel, pages, first_cycle, store_cursor,
  index_entry, find_raw, EntryOutcome, process_entry, seq_of, raw_tx_of, find_submit, submits,
}
use koinos_evm_engine.Gateway.Indexer.Ends.{Serves, IsWithin, start, pages-end}
use koinos_evm_engine.Runs.Gateway.{demo_raw, demo_crypto}
use koinos_evm_engine.Runs.Store.{demo_hex}
use mathlib.Core.Path.{subst}

-- A transfer of coins, and a relayed transaction whose receipt is missing.
abbrev transfer : HistoryEntry
transfer = record { seq_num = none; transaction = none; events = none }

abbrev relayed : HistoryEntry
relayed = record {
  seq_num = some (codes "1");
  transaction = some (record {
    id = none;
    operations =
        some (record {
          entry_point = some 7;
          contract_id = none;
          args = some (0x0a ∷ length demo_raw ∷ demo_raw);
        })
        ∷ [];
  });
  events = none;
}

-- Two entries from the start, one from the first on, and nothing behind that.
abbrev demo_page : Option ℕ → List HistoryEntry
demo_page none = transfer ∷ relayed ∷ []
demo_page (some zero) = transfer ∷ relayed ∷ []
demo_page (some (suc zero)) = relayed ∷ []
demo_page (some (suc (suc n))) = []

abbrev demo_node : Node
demo_node = record {
  World = ℕ;
  last_irreversible_block = λ w. (Answer.ok (some (codes "9")), w);
  account_history = λ from limit w. (Answer.ok (demo_page from), w + 1);
  containing_block = λ id w. (Answer.ok none, w);
  block_header = λ id w. (Answer.ok none, w);
}

abbrev demo_config : Config
demo_config = record { engine_contract_addr_b58check = []; indexer_page_size = 10 }

abbrev fresh : Indexer demo_hex demo_crypto demo_config demo_node
fresh = record { world = 0; block_cache = []; db = empty_db }

seq_of-relayed : seq_of relayed ≡ 1
unfolding seq_of parse_u64 digits_onto digit_value
seq_of-relayed = refl

seq_of-transfer : seq_of transfer ≡ 0
unfolding seq_of
seq_of-transfer = refl

demo_page-IsWithin : (from : Option ℕ) → All (IsWithin (start from) 2) (demo_page from)
demo_page-IsWithin none = (
  (omega arith, omega (arith, seq_of-transfer)),
  ((omega arith, omega (arith, seq_of-relayed)), tt),
)
demo_page-IsWithin (some zero) = (
  (omega arith, omega (arith, seq_of-transfer)),
  ((omega arith, omega (arith, seq_of-relayed)), tt),
)
demo_page-IsWithin (some (suc zero)) =
    ((omega (arith, seq_of-relayed), omega (arith, seq_of-relayed)), tt)
demo_page-IsWithin (some (suc (suc n))) = tt

demo_node-Serves : Serves demo_node 2
demo_node-Serves from limit w es e =
    subst (All (IsWithin (start from) 2)) (page_of e) (demo_page-IsWithin from)
  where
    page_of : Answer.ok (demo_page from) ≡ Answer.ok es → demo_page from ≡ es
    page_of k = cc k

pages-end_example :
    (pages demo_hex demo_crypto demo_config demo_node 3 9 (first_cycle none) fresh).0 ≢ out_of_fuel
pages-end_example =
    pages-end demo_hex demo_crypto demo_config demo_node 2 (omega arith) 3 9 (first_cycle none)
      fresh demo_node-Serves (omega arith) (omega arith)

-- The cycle over both entries, behind which the cursor stands at the first.
abbrev behind : Cycle
behind = record { next_seq = 2; cursor_candidate = some 0; cursor_frozen = true }

abbrev failing : Answer EntryOutcome
failing = failed (codes "history entry missing receipt")

-- The relayed entry decodes, and fails for its receipt.
relayed-fails :
    process_entry demo_hex demo_crypto demo_config demo_node relayed (record fresh { world = 1 })
    ≡ (failing, record fresh { world = 1 })
unfolding process_entry index_entry raw_tx_of find_submit submits find_raw next read_varint
    read_varint_loop next_by_type next_payload decode_and_recover decode_legacy classify_v
    legacy_signing_hash build_legacy_pre155_signing_hash recover_sender from_list rlp_header
    checked_add items_loop rlp_decode_bytes decode_u64 decode_u256_be decode_address shift_in
    first_items
relayed-fails = refl

abbrev stored_end : Indexer demo_hex demo_crypto demo_config demo_node
stored_end = record { world = 1; block_cache = []; db = store_cursor none (some 0) empty_db }
