-- ===== src/Gateway/Indexer/Walk.antt =====
-- The walk of a cycle: the pages of the node's history, and the outcomes of their entries.
use koinos_evm_engine.Base.{
  ℕ, zero, suc, ◌+◌, ◌%◌, ◌^◌, ◌<◌, ◌≤◌, ◌≡◌, sym, ap, ◌∙◌, Bool-cases, inl, inr, none, some,
  Option-cases, List, [], ◌∷◌, ◌++◌, append_assoc, length, ltb, if◌then◌else◌, arith,
}
use mathlib.Core.Path.{subst}
use koinos_evm_engine.Gateway.EthCodec.{Hex}
use koinos_evm_engine.Gateway.EthTx.{Crypto}
use koinos_evm_engine.Gateway.Relay.{Answer}
use koinos_evm_engine.Gateway.Indexer.{
  Node, Config, HistoryEntry, Cycle, advance, seq_of, Indexer, process_entry, process_page,
  caught_up, pages,
}
use koinos_evm_engine.Gateway.Indexer.Cursor.{
  Outcomes, follow, follow-advance, advance-next_seq, answered,
}

-- The sequence number behind the last of the entries.
unfoldable pub next_after : ℕ → List HistoryEntry → ℕ
next_after next [] = next
next_after next (e ∷ es) = next_after ((seq_of e + 1) % 2 ^ 64) es

module _ (hex : Hex) (crypto : Crypto) (config : Config) (node : Node) where
  -- The outcomes of entries that are processed in turn, with their sequence numbers.
  unfoldable pub outcomes_of : List HistoryEntry → Indexer hex crypto config node → Outcomes
  outcomes_of [] s = []
  outcomes_of (e ∷ es) s =
      let (o, s') = process_entry hex crypto config node e s in (seq_of e, o) ∷ outcomes_of es s'

  -- What they leave.
  unfoldable pub state_after :
      List HistoryEntry → Indexer hex crypto config node → Indexer hex crypto config node
  state_after [] s = s
  state_after (e ∷ es) s = state_after es (process_entry hex crypto config node e s).1

  -- What the node answers for the page from a sequence number on, and the state behind that call.
  abbrev pub fetched : ℕ → Indexer hex crypto config node → Answer (List HistoryEntry) × node.World
  fetched next s =
      node.account_history (if ltb 0 next then some next else none) config.indexer_page_size s.world

  abbrev pub behind_call : ℕ → Indexer hex crypto config node → Indexer hex crypto config node
  behind_call next s = record s { world = (fetched next s).1 }

  -- The pages of the node's history from a sequence number on, each entry of them processed once and
  -- in order, up to an empty page or one that is not full; each page is asked for behind the last.
  pub data Walk
      : ℕ
        → Indexer hex crypto config node
        → Outcomes
        → Indexer hex crypto config node
        → Type 0 where
    at_head :
        (next : ℕ) (s : Indexer hex crypto config node)
        → (fetched next s).0 ≡ Answer.ok []
        → Walk next s [] (behind_call next s)
    last_page :
        (next : ℕ) (s : Indexer hex crypto config node) (e : HistoryEntry) (es : List HistoryEntry)
        → (fetched next s).0 ≡ Answer.ok (e ∷ es)
        → length (e ∷ es) < config.indexer_page_size
        → Walk next s
            (outcomes_of (e ∷ es) (behind_call next s))
            (state_after (e ∷ es) (behind_call next s))
    full_page :
        (next : ℕ) (s : Indexer hex crypto config node) (e : HistoryEntry) (es : List HistoryEntry)
        {outs : Outcomes} {last : Indexer hex crypto config node}
        → (fetched next s).0 ≡ Answer.ok (e ∷ es)
        → config.indexer_page_size ≤ length (e ∷ es)
        → Walk (next_after next (e ∷ es)) (state_after (e ∷ es) (behind_call next s)) outs last
        → Walk next s (outcomes_of (e ∷ es) (behind_call next s) ++ outs) last

  -- What the rounds over the pages leave: a walk, and where its outcomes put the cursor.
  pub record Ran (lib : ℕ) (c c' : Cycle) (s s' : Indexer hex crypto config node) : Type 0 where
    pub outs : Outcomes
    pub follows : (rest : Outcomes) → follow lib c' rest ≡ follow lib c (outs ++ rest)
    pub walk : Walk c.next_seq s outs s'

  -- What the loop over a page leaves.
  record OnPage (lib : ℕ) (es : List HistoryEntry) (c c' : Cycle)
      (s s' : Indexer hex crypto config node) : Type 0 where
    after : state_after es s ≡ s'
    next : next_after c.next_seq es ≡ c'.next_seq
    follows : (rest : Outcomes) → follow lib c' rest ≡ follow lib c (outcomes_of es s ++ rest)

  process_page-OnPage :
      (lib : ℕ) (es : List HistoryEntry) (c c' : Cycle) (s s' : Indexer hex crypto config node)
      → process_page hex crypto config node lib es c s ≡ (some c', s')
      → OnPage lib es c c' s s'
  unfolding process_page follow outcomes_of state_after next_after
  process_page-OnPage lib [] c c' s s' h =
      let same : c ≡ c' = cc h in
      record {
        after = cc h;
        next = ap (λ (d : Cycle). d.next_seq) same;
        follows = λ rest. ap (λ (d : Cycle). follow lib d rest) (sym same);
      }
  process_page-OnPage lib (e ∷ es) c c' s s' h =
      let c₁ : Cycle = record c { next_seq = (seq_of e + 1) % 2 ^ 64 } in
      let (o, t) = process_entry hex crypto config node e s in
      elim (Option-cases (advance lib (seq_of e) o c₁)) [
        | inl bad ↦ absurd (ground (arith, h, bad))
        | inr (d, good) ↦
            let rest = process_page-OnPage lib es d c' t s' (ground (arith, h, good)) in
            record {
              after = rest.after;
              next =
                  ap (λ (n : ℕ). next_after n es)
                    (sym (advance-next_seq lib (seq_of e) o c₁ d good))
                  ∙ rest.next;
              follows = λ r.
                  rest.follows r
                  ∙ follow-advance lib (seq_of e) o c₁ d (outcomes_of es t ++ r) good;
            }
      ]

  -- A page that is the last one, and one with rounds behind it.
  short-Ran :
      (lib : ℕ) (e : HistoryEntry) (es : List HistoryEntry) (c c' : Cycle)
      (s s' : Indexer hex crypto config node)
      → (fetched c.next_seq s).0 ≡ Answer.ok (e ∷ es)
      → length (e ∷ es) < config.indexer_page_size
      → OnPage lib (e ∷ es) c c' (behind_call c.next_seq s) s'
      → Ran lib c c' s s'
  short-Ran lib e es c c' s s' got short page = record {
    outs = outcomes_of (e ∷ es) (behind_call c.next_seq s);
    follows = page.follows;
    walk =
        subst (Walk c.next_seq s (outcomes_of (e ∷ es) (behind_call c.next_seq s))) page.after
          (Walk.last_page c.next_seq s e es got short);
  }

  full-Ran :
      (lib : ℕ) (e : HistoryEntry) (es : List HistoryEntry) (c d c' : Cycle)
      (s t s' : Indexer hex crypto config node)
      → (fetched c.next_seq s).0 ≡ Answer.ok (e ∷ es)
      → config.indexer_page_size ≤ length (e ∷ es)
      → OnPage lib (e ∷ es) c d (behind_call c.next_seq s) t
      → Ran lib d c' t s'
      → Ran lib c c' s s'
  full-Ran lib e es c d c' s t s' got full page more =
      let here = outcomes_of (e ∷ es) (behind_call c.next_seq s) in
      record {
        outs = here ++ more.outs;
        follows = λ rest.
            more.follows rest
            ∙ page.follows (more.outs ++ rest)
            ∙ ap (follow lib c) (sym (append_assoc here more.outs rest));
        walk = Walk.full_page c.next_seq s e es got full (
            subst
              (λ (u : Indexer hex crypto config node).
                Walk (next_after c.next_seq (e ∷ es)) u more.outs s')
              (sym page.after)
              (subst (λ (n : ℕ). Walk n t more.outs s') (sym page.next) more.walk));
      }

  one_page :
      (fuel lib : ℕ) (es : List HistoryEntry) (c c' : Cycle) (s s' : Indexer hex crypto config node)
      → (fetched c.next_seq s).0 ≡ Answer.ok es
      → ((d : Cycle) (t : Indexer hex crypto config node)
          → pages hex crypto config node fuel lib d t ≡ (caught_up c', s')
          → Ran lib d c' t s')
      → pages hex crypto config node (suc fuel) lib c s ≡ (caught_up c', s')
      → Ran lib c c' s s'
  unfolding pages
  one_page fuel lib [] c c' s s' got more h =
      let same : c ≡ c' = ground (arith, h, got) in
      let end : behind_call c.next_seq s ≡ s' = ground (arith, h, got) in
      record {
        outs = [];
        follows = λ rest. ap (λ (d : Cycle). follow lib d rest) (sym same);
        walk = subst (Walk c.next_seq s []) end (Walk.at_head c.next_seq s got);
      }
  one_page fuel lib (e ∷ es) c c' s s' got more h =
      let t = behind_call c.next_seq s in
      elim (Option-cases (process_page hex crypto config node lib (e ∷ es) c t).0) [
        | inl bad ↦ absurd (ground (arith, h, got, bad))
        | inr (d, good) ↦
            let t' = (process_page hex crypto config node lib (e ∷ es) c t).1 in
            let page = process_page-OnPage lib (e ∷ es) c d t t' (cc good) in
            elim (Bool-cases (ltb (length (e ∷ es)) config.indexer_page_size)) [
              | inl short ↦
                  let d_same : d ≡ c' = ground (arith, h, got, good, short) in
                  let t_same : t' ≡ s' = ground (arith, h, got, good, short) in
                  short-Ran lib e es c c' s s' got (ground (arith, short)) (
                    subst (λ (u : Indexer hex crypto config node). OnPage lib (e ∷ es) c c' t u)
                      t_same (subst (λ (d' : Cycle). OnPage lib (e ∷ es) c d' t t') d_same page))
              | inr full ↦
                  full-Ran lib e es c d c' s t' s' got (ground (arith, full)) page
                    (more d t' (ground (arith, h, got, good, full)))
            ]
      ]

  pub pages-Ran :
      (fuel lib : ℕ) (c c' : Cycle) (s s' : Indexer hex crypto config node)
      → pages hex crypto config node fuel lib c s ≡ (caught_up c', s')
      → Ran lib c c' s s'
  unfolding pages
  pages-Ran zero lib c c' s s' h = cc h
  pages-Ran (suc fuel) lib c c' s s' h = elim (answered (fetched c.next_seq s).0) [
    | inl (es, got) ↦ one_page fuel lib es c c' s s' got (λ d t k. pages-Ran fuel lib d c' t s' k) h
    | inr (inl (e, bad)) ↦ absurd (ground (arith, h, bad))
    | inr (inr bad) ↦ absurd (ground (arith, h, bad))
  ]
