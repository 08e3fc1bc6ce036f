-- ===== src/Gateway/Subscriptions/Agree.antt =====
-- The messages of a tick of the logs tail are those for the rows that eth_getLogs would find.
use koinos_evm_engine.Base.{ℕ, ◌+◌, ◌-◌, ◌^◌, ◌%◌, ◌≡◌, true, none, List, [], ◌∷◌, ◌++◌, map, take}
use koinos_evm_engine.Base.Words.{Bytes}
use koinos_evm_engine.Base.Sort.{select, sort_by}
use koinos_evm_engine.Base.Dict.{Dict}
use koinos_evm_engine.Gateway.Receipts.{LogRow}
use koinos_evm_engine.Gateway.Logs.{AddressTopicFilter, log_filter}
use koinos_evm_engine.Gateway.Db.{ReceiptRow, StoredLog, Db, log_row}
use koinos_evm_engine.Gateway.Db.Query.{LogQueryRow, in_blocks, selects, by_place, query_row}
use koinos_evm_engine.Gateway.Subscriptions.{SubKind, new_heads, logs_of, tail_filter, Message}

-- A row of `logs` as the store writes it.
pub data IsWritten : StoredLog → Type 0 where
  written :
      (hash : Bytes) (r : ReceiptRow) (i n : ℕ) (log : LogRow) → IsWritten (log_row hash r i n log)

-- The first height that a tick asks for.
abbrev pub tail_from : ℕ → ℕ
tail_from last_logs_height = (last_logs_height + 1) % 2 ^ 64

-- The rows of a tick: the first thousand behind the last height.
abbrev pub tick_rows : Db → ℕ → List StoredLog
tick_rows db last_logs_height =
    take 1000
      (sort_by by_place (select (selects (tail_filter (tail_from last_logs_height))) db.logs))

-- A row that a tick finds: written by the store, in the range of the tick.
abbrev IsFound : ℕ → StoredLog → Type 0
IsFound from l = IsWritten l × (in_blocks (tail_filter from) l ≡ true)

module _ (Json : Type 0) (render : LogQueryRow → Json) where
  -- What a filter of a subscription asks for among the rows of a tick, by the store's WHERE clause.
  abbrev pub asked_rows : Bytes → AddressTopicFilter → ℕ → List StoredLog → List (Message Json)
  asked_rows sub_id f from ls =
      map (λ (l : StoredLog). (sub_id, render (query_row l)))
        (select (selects (log_filter f from (2 ^ 63 - 1) none)) ls)

  -- The same for every subscription in turn; one to new heads asks for no row.
  unfoldable pub asked_by : Dict SubKind → ℕ → List StoredLog → List (Message Json)
  asked_by [] from ls = []
  asked_by ((sub_id, new_heads) ∷ subs) from ls = asked_by subs from ls
  asked_by ((sub_id, logs_of f) ∷ subs) from ls =
      asked_rows sub_id f from ls ++ asked_by subs from ls
