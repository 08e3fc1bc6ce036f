-- ===== src/Gateway/Relay/Nonces.antt =====
-- The operator's nonce between the submissions, how many of them a task makes, and the sender's
-- transaction count behind one.
use koinos_evm_engine.Base.{
  ℕ, zero, suc, ◌+◌, ◌-◌, ◌^◌, ◌<◌, ◌≤◌, ◌≡◌, inl, inr, refl, sym, ap, ◌∙◌, true, Option, none,
  some, leb, if◌then◌else◌, arith,
}
use koinos_evm_engine.Base.Words.{Bytes}
use koinos_evm_engine.Base.Dict.{lookup}
use koinos_evm_engine.Gateway.PendingNonceStore.{Entry, get_unexpired, advance}
use koinos_evm_engine.Gateway.PendingNonceStore.Bounds.{advanced, get_unexpired-advance}
use koinos_evm_engine.Gateway.EthTx.{DecodedTx}
use koinos_evm_engine.Gateway.KoinosTx.{Signer, RelayedTx, build_relayed_tx}
use koinos_evm_engine.Gateway.Relay.{
  ok, Node, Config, Clock, Gateway, saturating_add, settle, ep_submit_raw_tx,
}
use koinos_evm_engine.Gateway.Relay.Submit.{
  fetch_operator_nonce, handle_get_tx_count, reconcile_cached, reconcile_operator_nonce,
  submit_once, submit_loop, first_nonce, submit_reserved_tx,
}
use koinos_evm_engine.Gateway.Relay.Settled.{Answer-cases, submit_reserved_tx-ok}

module _ (node : Node) where
  reconcile_cached-lower :
      (clock : Clock) (quiet chain_next cached n : ℕ) (g : Gateway)
      → g.operator_nonce ≡ some cached
      → (reconcile_cached node clock quiet chain_next cached g).operator_nonce ≡ some n
      → n < cached
      → (g.inflight_submits ≡ 0) × (quiet ≤ clock.unix_secs - g.last_submit_ok) × (n ≡ chain_next)
  unfolding reconcile_cached
  reconcile_cached-lower clock quiet chain_next cached n g before after below =
      ground (arith, before, after, below)

  -- A reconciliation that lowers the cached nonce finds no submission in flight and the quiet
  -- period over since the last success, and takes the node's next nonce.
  pub reconcile_operator_nonce-lower :
      (clock : Clock) (quiet cached n : ℕ) (g : Gateway) (w : node.World)
      → g.operator_nonce ≡ some cached
      → (reconcile_operator_nonce node clock quiet g w).0.operator_nonce ≡ some n
      → n < cached
      → (g.inflight_submits ≡ 0)
        × (quiet ≤ clock.unix_secs - g.last_submit_ok)
        × ((fetch_operator_nonce node w).0 ≡ ok n)
  unfolding reconcile_operator_nonce
  reconcile_operator_nonce-lower clock quiet cached n g w before after below =
      elim (Answer-cases (fetch_operator_nonce node w).0) [
        | inl (next, f) ↦
            let (idle, quiet_now, same) =
              reconcile_cached-lower clock quiet next cached n g before
                (ground (arith, before, after, f)) below in
            (idle, quiet_now, f ∙ ap ok (sym same))
        | inr (inl (e, f)) ↦ absurd (ground (arith, before, after, below, f))
        | inr (inr f) ↦ absurd (ground (arith, before, after, below, f))
      ]

  module _ (count : node.World → ℕ)
      (reads : (w : node.World) → count (node.get_account_nonce w).1 ≡ count w)
      (sends : (r : RelayedTx) (w : node.World)
        → count (node.submit_transaction r w).1 ≡ count w + 1) where
    fetch-count : (w : node.World) → count (fetch_operator_nonce node w).1 ≡ count w
    unfolding fetch_operator_nonce
    fetch-count w = elim (Answer-cases (node.get_account_nonce w).0) [
      | inl (b, e) ↦ ground (arith, reads w, e)
      | inr (inl (x, e)) ↦ ground (arith, reads w, e)
      | inr (inr e) ↦ ground (arith, reads w, e)
    ]

    module _ (config : Config) (signer : Signer) where
      once-count :
          (nonce : ℕ) (raw : Bytes) (w : node.World)
          → count (submit_once node config signer nonce raw w).1 ≡ count w + 1
      unfolding submit_once
      once-count nonce raw w =
          let sent =
            build_relayed_tx signer config.koinos_chain_id_bytes config.rc_limit_mana
              config.operator_addr_full nonce config.engine_contract_addr_full ep_submit_raw_tx
              raw in
          elim (Answer-cases (node.submit_transaction sent w).0) [
            | inl (b, e) ↦ ground (arith, sends sent w, e)
            | inr (inl (x, e)) ↦ ground (arith, sends sent w, e)
            | inr (inr e) ↦ ground (arith, sends sent w, e)
          ]

      loop-count :
          (left nonce : ℕ) (raw : Bytes) (w : node.World)
          → count (submit_loop node config signer left nonce raw w).2 ≤ count w + (left + 1)
      unfolding submit_loop
      loop-count zero nonce raw w =
          elim (Answer-cases (submit_once node config signer nonce raw w).0) [
            | inl (r, e) ↦ ground (arith, once-count nonce raw w, e)
            | inr (inl (x, e)) ↦ ground (arith, once-count nonce raw w, e)
            | inr (inr e) ↦ ground (arith, once-count nonce raw w, e)
          ]
      loop-count (suc left) nonce raw w =
          let w₁ = (submit_once node config signer nonce raw w).1 in
          let fetched = fetch_operator_nonce node w₁ in
          let once = once-count nonce raw w in
          let read = fetch-count w₁ in
          elim (Answer-cases (submit_once node config signer nonce raw w).0) [
            | inl (r, e) ↦ ground (arith, once, e)
            | inr (inr e) ↦ ground (arith, once, e)
            | inr (inl (x, e)) ↦ elim (Answer-cases fetched.0) [
              | inl (m, f) ↦ ground (arith, once, read, e, f, loop-count left m raw fetched.1)
              | inr (inl (y, f)) ↦ ground (arith, once, read, e, f)
              | inr (inr f) ↦ ground (arith, once, read, e, f)
            ]
          ]

      first-count :
          (cache : Option ℕ) (w : node.World) → count (first_nonce node cache w).1 ≡ count w
      unfolding first_nonce
      first-count none w = fetch-count w
      first-count (some n) w = refl

      -- A submit task sends at most two transactions to the node, however the node answers, if
      -- `count` counts the submissions that a node has seen.
      pub submit_reserved_tx-twice :
          (clock : Clock) (hash : Bytes) (decoded : DecodedTx) (raw : Bytes) (g : Gateway)
          (w : node.World)
          → count (submit_reserved_tx node config signer clock hash decoded raw g w).2 ≤ count w + 2
      unfolding submit_reserved_tx
      submit_reserved_tx-twice clock hash decoded raw g w =
          let first = first_nonce node g.operator_nonce w in
          let start = first-count g.operator_nonce w in
          elim (Answer-cases first.0) [
            | inl (n, e) ↦ ground (arith, start, e, loop-count 1 n raw first.1)
            | inr (inl (x, e)) ↦ ground (arith, start, e)
            | inr (inr e) ↦ ground (arith, start, e)
          ]

  tx_count_of :
      (clock : Clock) (on_chain p : ℕ) (addr : Bytes) (g : Gateway)
      → get_unexpired clock.instant g.pending_nonce addr ≡ some p
      → p ≤ (handle_get_tx_count node clock on_chain true addr g).0
  unfolding handle_get_tx_count
  tx_count_of clock on_chain p addr g e = ground (arith, e)

  advanced-ge : (e : Option Entry) (next : ℕ) → next ≤ advanced e next
  advanced-ge none next = omega arith
  advanced-ge (some (cur, t)) next = ground arith

  settle-pending :
      (clock : Clock) (hash : Bytes) (d : DecodedTx) (relayed : RelayedTx) (g : Gateway)
      → (settle clock hash d relayed g).pending_nonce
        ≡ advance clock.instant d.from (saturating_add d.nonce 1) g.pending_nonce
  unfolding settle
  settle-pending clock hash d relayed g = refl

  next_nonce : (n : ℕ) → n + 1 < 2 ^ 64 → saturating_add n 1 ≡ n + 1
  unfolding saturating_add
  next_nonce n h = ground (arith, h)

  module _ (config : Config) (signer : Signer) (clock later : Clock) (hash : Bytes) (d : DecodedTx)
      (raw : Bytes) (g g' : Gateway) (w w' : node.World) where
    -- Once the submit task has given a hash, the sender's "pending" transaction count is beyond the
    -- nonce of the transaction, whatever the chain says, while its entry lives.
    pub tx_count-submit_reserved_tx :
        (result : Bytes) (on_chain : ℕ)
        → submit_reserved_tx node config signer clock hash d raw g w ≡ (ok result, g', w')
        → d.nonce + 1 < 2 ^ 64
        → later.instant - clock.instant < g.pending_nonce.ttl
        → d.nonce < (handle_get_tx_count node later on_chain true d.from g').0
    tx_count-submit_reserved_tx result on_chain h small alive =
        let (same, nonce, relayed, w₁, once, state, next) =
          submit_reserved_tx-ok node config signer clock hash d raw g g' w w' result h in
        let before = record g { operator_nonce = some nonce } in
        let entry = lookup g.pending_nonce.entries d.from in
        let store : g'.pending_nonce
            ≡ advance clock.instant d.from (saturating_add d.nonce 1) g.pending_nonce =
          ap (λ (s : Gateway). s.pending_nonce) state
          ∙ settle-pending clock hash d relayed before in
        let found : get_unexpired later.instant g'.pending_nonce d.from
            ≡ some (advanced entry (saturating_add d.nonce 1)) =
          ap (λ s. get_unexpired later.instant s d.from) store
          ∙ get_unexpired-advance clock.instant later.instant d.from (saturating_add d.nonce 1)
              g.pending_nonce
          ∙ lives _ alive in
        omega (
          arith,
          tx_count_of later on_chain (advanced entry (saturating_add d.nonce 1)) d.from g' found,
          advanced-ge entry (saturating_add d.nonce 1),
          next_nonce d.nonce small,
        )
      where
        lives :
            {v : Option ℕ} (age : ℕ)
            → age < g.pending_nonce.ttl
            → (if leb g.pending_nonce.ttl age then none else v) ≡ v
        lives age h = ground (arith, h)
