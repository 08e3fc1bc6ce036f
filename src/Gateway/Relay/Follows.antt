-- ===== src/Gateway/Relay/Follows.antt =====
-- What each part of the relay leaves of the stores' caps and of the count in flight.
use koinos_evm_engine.Base.{
  ℕ, ◌-◌, ◌≡◌, inl, inr, refl, ◌∙◌, Bool, true, false, ◌&&◌, Bool-cases, Option, none, some, ltb,
  leb, ◌==◌,
}
use koinos_evm_engine.Base.Words.{Bytes}
use koinos_evm_engine.Gateway.TxMetaStore.Bounds as TxMetaBounds
use koinos_evm_engine.Gateway.PendingNonceStore
use koinos_evm_engine.Gateway.PendingNonceStore.Bounds as PendingBounds
use koinos_evm_engine.Gateway.EthTx.{DecodedTx}
use koinos_evm_engine.Gateway.KoinosTx.{Signer, RelayedTx}
use koinos_evm_engine.Gateway.Relay.{
  Answer, ok, failed, panicked, Node, Config, Clock, Gateway, saturating_add, forget, settle,
}
use koinos_evm_engine.Gateway.Relay.Submit.{
  fetch_operator_nonce, handle_get_tx_count, reconcile_cached, reconcile_operator_nonce,
  submit_loop, first_nonce, conclude, submit_reserved_tx,
}

-- Both stores are within their caps.
pub record IsSound (g : Gateway) : Type 0 where
  pub tx_meta : TxMetaBounds.IsStore g.tx_meta
  pub pending_nonce : PendingBounds.IsStore g.pending_nonce

-- A later state is sound where the earlier one was, with the same number in flight.
pub record Follows (g g' : Gateway) : Type 0 where
  pub sound : IsSound g → IsSound g'
  pub inflight : g'.inflight_submits ≡ g.inflight_submits

settle-Follows :
    (clock : Clock) (hash : Bytes) (d : DecodedTx) (relayed : RelayedTx) (g : Gateway)
    → Follows g (settle clock hash d relayed g)
unfolding settle
settle-Follows clock hash d relayed g = record {
  sound = λ h. record {
    tx_meta = TxMetaBounds.set_koinos_tx_id-IsStore hash _ g.tx_meta h.tx_meta;
    pending_nonce =
        PendingBounds.advance-IsStore clock.instant d.from (saturating_add d.nonce 1)
          g.pending_nonce h.pending_nonce;
  };
  inflight = refl;
}

forget-Follows : (hash : Bytes) (g : Gateway) → Follows g (forget hash g)
unfolding forget
forget-Follows hash g = record {
  sound = λ h. record {
    tx_meta = TxMetaBounds.remove-IsStore hash g.tx_meta h.tx_meta;
    pending_nonce = h.pending_nonce;
  };
  inflight = refl;
}

same-Follows : (g : Gateway) (c : Option ℕ) → Follows g (record g { operator_nonce = c })
same-Follows g c = record {
  sound = λ h. record { tx_meta = h.tx_meta; pending_nonce = h.pending_nonce };
  inflight = refl;
}

then-Follows : {a b c : Gateway} → Follows a b → Follows b c → Follows a c
then-Follows h k = record { sound = λ s. k.sound (h.sound s); inflight = k.inflight ∙ h.inflight }

conclude-Follows :
    (clock : Clock) (hash : Bytes) (d : DecodedTx) (answer : Answer RelayedTx) (g : Gateway)
    → Follows g (conclude clock hash d answer g).1
unfolding conclude
conclude-Follows clock hash d (ok relayed) g = settle-Follows clock hash d relayed g
conclude-Follows clock hash d (failed e) g = forget-Follows hash g
conclude-Follows clock hash d panicked g = same-Follows g g.operator_nonce

module _ (node : Node) (config : Config) (signer : Signer) where
  pub submit_reserved_tx-Follows :
      (clock : Clock) (hash : Bytes) (d : DecodedTx) (raw : Bytes) (g : Gateway) (w : node.World)
      → Follows g (submit_reserved_tx node config signer clock hash d raw g w).1
  unfolding submit_reserved_tx
  submit_reserved_tx-Follows clock hash d raw g w = go (first_nonce node g.operator_nonce w) refl
    where
      looped :
          (loop : Answer RelayedTx × Option ℕ × node.World)
          → Follows g (conclude clock hash d loop.0 (record g { operator_nonce = loop.1 })).1
      looped (answer, cache, w₂) =
          then-Follows (same-Follows g cache)
            (conclude-Follows clock hash d answer (record g { operator_nonce = cache }))

      go :
          (first : Answer ℕ × node.World)
          → first_nonce node g.operator_nonce w ≡ first
          → Follows g (submit_reserved_tx node config signer clock hash d raw g w).1
      go (ok n, w₁) e =
          rw (submit_reserved_tx, e)
            (looped
              (submit_loop node config signer 1 n raw (first_nonce node g.operator_nonce w).1))
      go (failed x, w₁) e = rw (submit_reserved_tx, e) (forget-Follows hash g)
      go (panicked, w₁) e = rw (submit_reserved_tx, e) (same-Follows g g.operator_nonce)

  pub handle_get_tx_count-Follows :
      (clock : Clock) (on_chain : ℕ) (pending : Bool) (addr : Bytes) (g : Gateway)
      → Follows g (handle_get_tx_count node clock on_chain pending addr g).1
  unfolding handle_get_tx_count
  handle_get_tx_count-Follows clock on_chain false addr g = same-Follows g g.operator_nonce
  handle_get_tx_count-Follows clock on_chain true addr g =
      go (PendingNonceStore.get_unexpired clock.instant g.pending_nonce addr) refl
    where
      dropped :
          Follows g (record g { pending_nonce = PendingNonceStore.remove addr g.pending_nonce })
      dropped = record {
        sound = λ h. record {
          tx_meta = h.tx_meta;
          pending_nonce = PendingBounds.remove-IsStore addr g.pending_nonce h.pending_nonce;
        };
        inflight = refl;
      }

      go :
          (o : Option ℕ)
          → PendingNonceStore.get_unexpired clock.instant g.pending_nonce addr ≡ o
          → Follows g (handle_get_tx_count node clock on_chain true addr g).1
      go none e = rw (handle_get_tx_count, e) (same-Follows g g.operator_nonce)
      go (some p) e = elim (Bool-cases (ltb on_chain p)) [
        | inl ahead ↦ rw (handle_get_tx_count, e, ahead) (same-Follows g g.operator_nonce)
        | inr behind ↦ rw (handle_get_tx_count, e, behind) dropped
      ]

  reconcile_cached-Follows :
      (clock : Clock) (quiet next cached : ℕ) (g : Gateway)
      → Follows g (reconcile_cached node clock quiet next cached g)
  unfolding reconcile_cached
  reconcile_cached-Follows clock quiet next cached g = elim (Bool-cases (ltb cached next)) [
    | inl ahead ↦ rw (reconcile_cached, ahead) (same-Follows g (some next))
    | inr not_ahead ↦ elim (Bool-cases (ltb next cached)) [
      | inr level ↦ rw (reconcile_cached, not_ahead, level) (same-Follows g g.operator_nonce)
      | inl behind ↦
          elim (Bool-cases
            (g.inflight_submits == 0 && leb quiet (clock.unix_secs - g.last_submit_ok))) [
              | inl idle ↦
                  rw (reconcile_cached, not_ahead, behind, idle) (same-Follows g (some next))
              | inr busy ↦
                  rw (reconcile_cached, not_ahead, behind, busy) (same-Follows g g.operator_nonce)
            ]
    ]
  ]

  pub reconcile_operator_nonce-Follows :
      (clock : Clock) (quiet : ℕ) (g : Gateway) (w : node.World)
      → Follows g (reconcile_operator_nonce node clock quiet g w).0
  unfolding reconcile_operator_nonce
  reconcile_operator_nonce-Follows clock quiet g w = go (fetch_operator_nonce node w) refl
    where
      cached :
          (o : Option ℕ) (next : ℕ)
          → Follows g (elim o [ none ↦ g | some c ↦ reconcile_cached node clock quiet next c g ])
      cached none next = same-Follows g g.operator_nonce
      cached (some c) next = reconcile_cached-Follows clock quiet next c g

      go :
          (f : Answer ℕ × node.World)
          → fetch_operator_nonce node w ≡ f
          → Follows g (reconcile_operator_nonce node clock quiet g w).0
      go (ok next, w') e = rw (reconcile_operator_nonce, e) (cached g.operator_nonce next)
      go (failed x, w') e = rw (reconcile_operator_nonce, e) (same-Follows g g.operator_nonce)
      go (panicked, w') e = rw (reconcile_operator_nonce, e) (same-Follows g g.operator_nonce)
