-- ===== src/Gateway/Indexer/Stored.antt =====
-- What a cycle leaves: the walk through the history, and the cursor in the store.
use koinos_evm_engine.Base.{ℕ, ◌+◌, ◌%◌, ◌^◌, ◌≡◌, Option, none, some, ◌>>=?◌}
use koinos_evm_engine.Base.Words.{Bytes}
use koinos_evm_engine.Base.Decimal.{parse_u64}
use koinos_evm_engine.Gateway.EthCodec.{Hex}
use koinos_evm_engine.Gateway.EthTx.{Crypto}
use koinos_evm_engine.Gateway.Relay.{Answer}
use koinos_evm_engine.Gateway.Db.{Db}
use koinos_evm_engine.Gateway.Indexer.{Node, Config, Indexer, cursor_of}
use koinos_evm_engine.Gateway.Indexer.Cursor.{Outcomes, reached}
use koinos_evm_engine.Gateway.Indexer.Walk.{Walk}

-- The sequence number that a cycle starts from.
abbrev pub behind : Option ℕ → ℕ
behind none = 0
behind (some n) = (n + 1) % 2 ^ 64

module _ (hex : Hex) (crypto : Crypto) (config : Config) (node : Node) where
  -- What a cycle that caught up leaves: the node gave a last irreversible block; the walk through
  -- the history from behind the cursor, or from its start, had these outcomes; the state is that
  -- behind the walk but for the cursor in the store, which is that of the last entry before the
  -- first one that is not final.
  pub record Concluded (s s' : Indexer hex crypto config node) : Type 0 where
    pub given : Option Bytes
    pub answer : (node.last_irreversible_block s.world).0 ≡ Answer.ok given
    pub lib : ℕ
    pub parsed : (given >>=? parse_u64) ≡ some lib
    pub outs : Outcomes
    pub last : Indexer hex crypto config node
    pub walk :
        Walk hex crypto config node
          (behind (cursor_of s.db))
          (record s { world = (node.last_irreversible_block s.world).1 })
          outs
          last
    pub state : s' ≡ record last { db = s'.db }
    pub tables : record s'.db { meta = last.db.meta } ≡ last.db
    pub cursor : cursor_of s'.db ≡ reached lib (cursor_of s.db) outs
