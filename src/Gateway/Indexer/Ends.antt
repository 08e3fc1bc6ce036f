-- ===== src/Gateway/Indexer/Ends.antt =====
-- A cycle ends: the pages move forward through the history.
use koinos_evm_engine.Base.{
  ℕ, zero, suc, ◌+◌, ◌%◌, ◌^◌, ◌<◌, ◌≤◌, ◌≡◌, ◌≢◌, ◌⊎◌, refl, inl, inr, Option, none, some,
  Option-cases, List, [], ◌∷◌, All, ltb, if◌then◌else◌, arith,
}
use mathlib.Core.Path.{subst}
use koinos_evm_engine.Gateway.EthCodec.{Hex}
use koinos_evm_engine.Gateway.EthTx.{Crypto}
use koinos_evm_engine.Gateway.Relay.{Answer}
use koinos_evm_engine.Gateway.Indexer.{
  Node, Config, HistoryEntry, Cycle, advance, seq_of, Indexer, process_entry, process_page,
  out_of_fuel, pages,
}
use koinos_evm_engine.Gateway.Indexer.Cursor.{answered, advance-next_seq}

-- Where a page starts.
abbrev pub start : Option ℕ → ℕ
start none = 0
start (some n) = n

abbrev pub IsWithin : ℕ → ℕ → HistoryEntry → Type 0
IsWithin from size e = (from ≤ seq_of e) × (seq_of e < size)

-- The node's history has `size` entries: a page holds entries from its start on.
abbrev pub Serves : Node → ℕ → Type 0
Serves node size =
    (from : Option ℕ) (limit : ℕ) (w : node.World) (es : List HistoryEntry)
    → (node.account_history from limit w).0 ≡ Answer.ok es
    → All (IsWithin (start from) size) es

module _ (hex : Hex) (crypto : Crypto) (config : Config) (node : Node) (size : ℕ)
    (small : size < 2 ^ 64) where
  -- Behind a page the next one starts further on, inside the history or at its end.
  process_page-next_seq :
      (lib from : ℕ) (es : List HistoryEntry) (c c' : Cycle) (s s' : Indexer hex crypto config node)
      → All (IsWithin from size) es
      → (es ≢ []) ⊎ ((from < c.next_seq) × (c.next_seq ≤ size))
      → process_page hex crypto config node lib es c s ≡ (some c', s')
      → (from < c'.next_seq) × (c'.next_seq ≤ size)
  unfolding process_page
  process_page-next_seq lib from [] c c' s s' w (inl ne) h = absurd (ne refl)
  process_page-next_seq lib from [] c c' s s' w (inr p) h = ground (arith, h, p)
  process_page-next_seq lib from (e ∷ es) c c' s s' (we, w) p h =
      let seq = seq_of e in
      let d₀ : Cycle = record c { next_seq = (seq + 1) % 2 ^ 64 } in
      elim (Option-cases (advance lib seq (process_entry hex crypto config node e s).0 d₀)) [
        | inl bad ↦ absurd (ground (arith, h, bad))
        | inr (d, good) ↦
            let kept =
              advance-next_seq lib seq (process_entry hex crypto config node e s).0 d₀ d good in
            process_page-next_seq lib from es d c' (process_entry hex crypto config node e s).1 s' w
              (inr (omega (arith, kept, we, small), omega (arith, kept, we, small)))
              (ground (arith, h, good))
      ]

  abbrev asked : Cycle → Option ℕ
  asked c = if ltb 0 c.next_seq then some c.next_seq else none

  start-asked : (c : Cycle) → start (asked c) ≡ c.next_seq
  start-asked c = ground arith

  -- If history remains for no more pages than there is fuel, a page and the pages behind it end.
  one_page-ends :
      (fuel lib : ℕ) (c : Cycle) (s : Indexer hex crypto config node) (es : List HistoryEntry)
      → (node.account_history (asked c) config.indexer_page_size s.world).0 ≡ Answer.ok es
      → All (IsWithin c.next_seq size) es
      → ((d : Cycle) (t : Indexer hex crypto config node)
          → c.next_seq < d.next_seq
          → d.next_seq ≤ size
          → (pages hex crypto config node fuel lib d t).0 ≢ out_of_fuel)
      → (pages hex crypto config node (suc fuel) lib c s).0 ≢ out_of_fuel
  unfolding pages
  one_page-ends fuel lib c s [] got w more e = ground (arith, e, got)
  one_page-ends fuel lib c s (x ∷ xs) got w more e =
      let t : Indexer hex crypto config node = record s {
        world = (node.account_history (asked c) config.indexer_page_size s.world).1;
      } in
      elim (Option-cases (process_page hex crypto config node lib (x ∷ xs) c t).0) [
        | inl bad ↦ ground (arith, e, got, bad)
        | inr (d, good) ↦
            let t' = (process_page hex crypto config node lib (x ∷ xs) c t).1 in
            let next =
              process_page-next_seq lib c.next_seq (x ∷ xs) c d t t' w (inl (λ k. cc k))
                (cc good) in
            ground (arith, e, got, good, more d t' next.0 next.1)
      ]

  -- Where the node serves a history of `size` entries, each page from where it is asked on, a cycle
  -- over the pages comes to an end: a round for each entry that is left, and one more, are enough.
  pub pages-end :
      (fuel lib : ℕ) (c : Cycle) (s : Indexer hex crypto config node)
      → Serves node size
      → 0 < fuel
      → size < fuel + c.next_seq
      → (pages hex crypto config node fuel lib c s).0 ≢ out_of_fuel
  unfolding pages
  pages-end zero lib c s serves some_fuel h e = omega arith
  pages-end (suc fuel) lib c s serves some_fuel h e =
      elim (answered (node.account_history (asked c) config.indexer_page_size s.world).0) [
        | inl (es, got) ↦
            one_page-ends fuel lib c s es got
              (subst (λ (k : ℕ). All (IsWithin k size) es) (start-asked c)
                (serves (asked c) config.indexer_page_size s.world es got))
              (λ d t further inside.
                pages-end fuel lib d t serves (omega (arith, h, further, inside))
                  (omega (arith, h, further)))
              e
        | inr (inl (text, bad)) ↦ ground (arith, e, bad)
        | inr (inr bad) ↦ ground (arith, e, bad)
      ]
