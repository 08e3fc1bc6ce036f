-- ===== src/Gateway/Relay/Settled.antt =====
-- How a submit task ends: what it leaves of the operator's nonce, the placeholder and the sender's
-- pending nonce.
use koinos_evm_engine.Base.{
  ℕ, zero, suc, ◌+◌, ◌%◌, ◌^◌, ◌≡◌, ◌⊎◌, inl, inr, refl, sym, ap, ◌∙◌, false, Option, some, arith,
}
use koinos_evm_engine.Base.Words.{Bytes}
use koinos_evm_engine.Base.Dict.{lookup-remove_same}
use koinos_evm_engine.Gateway.TxMetaStore
use koinos_evm_engine.Gateway.TxMetaStore.{contains}
use koinos_evm_engine.Gateway.EthTx.{DecodedTx}
use koinos_evm_engine.Gateway.KoinosTx.{Signer, RelayedTx}
use koinos_evm_engine.Gateway.Relay.{
  Answer, ok, failed, panicked, Node, Config, Clock, Gateway, advanced_nonce, forget, settle,
}
use koinos_evm_engine.Gateway.Relay.Submit.{
  fetch_operator_nonce, submit_once, submit_loop, first_nonce, conclude, submit_reserved_tx,
}

pub Answer-cases {ℓ} :
    {A : Type ℓ} (a : Answer A)
    → ((v : A) × (a ≡ ok v)) ⊎ (((e : Bytes) × (a ≡ failed e)) ⊎ (a ≡ panicked))
Answer-cases (ok v) = inl (v, refl)
Answer-cases (failed e) = inr (inl (e, refl))
Answer-cases panicked = inr (inr refl)

module _ (node : Node) (config : Config) (signer : Signer) where
  -- The nonce at which the loop ended well: a submission there was accepted, and it is cached.
  abbrev pub Accepted : (raw : Bytes) → RelayedTx → Option ℕ → node.World → Type 0
  Accepted raw relayed cache w' =
      (nonce : ℕ) × (w : node.World) × (submit_once node config signer nonce raw w
        ≡ (ok relayed, w'))
      × (cache ≡ some nonce)

  submit_loop-ok :
      (left nonce : ℕ) (raw : Bytes) (w w' : node.World) (relayed : RelayedTx) (cache : Option ℕ)
      → submit_loop node config signer left nonce raw w ≡ (ok relayed, cache, w')
      → Accepted raw relayed cache w'
  unfolding submit_loop
  submit_loop-ok zero nonce raw w w' relayed cache h =
      elim (Answer-cases (submit_once node config signer nonce raw w).0) [
        | inl (r, e) ↦ (nonce, w, ground (arith, h, e), ground (arith, h, e))
        | inr (inl (x, e)) ↦ absurd (ground (arith, h, e))
        | inr (inr e) ↦ absurd (ground (arith, h, e))
      ]
  submit_loop-ok (suc left) nonce raw w w' relayed cache h =
      let after = (submit_once node config signer nonce raw w).1 in
      let fetched = fetch_operator_nonce node after in
      elim (Answer-cases (submit_once node config signer nonce raw w).0) [
        | inl (r, e) ↦ (nonce, w, ground (arith, h, e), ground (arith, h, e))
        | inr (inr e) ↦ absurd (ground (arith, h, e))
        | inr (inl (x, e)) ↦ elim (Answer-cases fetched.0) [
          | inl (m, f) ↦
              submit_loop-ok left m raw fetched.1 w' relayed cache (ground (arith, h, e, f))
          | inr (inl (y, f)) ↦ absurd (ground (arith, h, e, f))
          | inr (inr f) ↦ absurd (ground (arith, h, e, f))
        ]
      ]

  settle-operator_nonce :
      (clock : Clock) (hash : Bytes) (decoded : DecodedTx) (relayed : RelayedTx) (g : Gateway)
      (nonce : ℕ)
      → (settle clock hash decoded relayed
          (record g { operator_nonce = some nonce })).operator_nonce
        ≡ some ((nonce + 1) % 2 ^ 64)
  unfolding settle advanced_nonce
  settle-operator_nonce clock hash decoded relayed g nonce = refl

  module _ (clock : Clock) (hash : Bytes) (decoded : DecodedTx) (raw : Bytes) (g g' : Gateway)
      (w w' : node.World) where
    -- A run to its end goes through the loop, from a nonce that is cached or fetched.
    Looped : Answer Bytes → Type 0
    Looped result =
        (nonce : ℕ) × (w₁ : node.World) × (answer : Answer RelayedTx) × (cache : Option ℕ)
        × (submit_loop node config signer 1 nonce raw w₁ ≡ (answer, cache, w'))
        × (conclude clock hash decoded answer (record g { operator_nonce = cache }) ≡ (result, g'))

    submit_reserved_tx-cases :
        (result : Answer Bytes)
        → submit_reserved_tx node config signer clock hash decoded raw g w ≡ (result, g', w')
        → ((e : Bytes) × (result ≡ failed e) × (g' ≡ forget hash g))
          ⊎ (((result ≡ panicked) × (g' ≡ g)) ⊎ Looped result)
    unfolding submit_reserved_tx Looped
    submit_reserved_tx-cases result h =
        let first = first_nonce node g.operator_nonce w in
        elim (Answer-cases first.0) [
          | inr (inl (e, f)) ↦ inl (e, ground (arith, h, f), ground (arith, h, f))
          | inr (inr f) ↦ inr (inl (ground (arith, h, f), ground (arith, h, f)))
          | inl (nonce, f) ↦
              let loop = submit_loop node config signer 1 nonce raw first.1 in
              inr (inr (nonce, first.1, loop.0, loop.1, ground (arith, h, f), ground (arith, h, f)))
        ]

    Looped-ok :
        (result : Bytes)
        → Looped (ok result)
        → (result ≡ hash)
          × (nonce : ℕ) × (relayed : RelayedTx) × (w₁ : node.World) × (submit_once node config
                signer nonce raw w₁
              ≡ (ok relayed, w'))
          × (g' ≡ settle clock hash decoded relayed (record g { operator_nonce = some nonce }))
    unfolding Looped conclude
    Looped-ok result (nonce, w₁, ok relayed, cache, loop, end) =
        let (n, w₂, once, cached) = submit_loop-ok 1 nonce raw w₁ w' relayed cache loop in
        (
          ground (arith, end),
          n,
          relayed,
          w₂,
          once,
          sym (ap (λ p. p.1) end)
              ∙ ap
                  (λ (c : Option ℕ).
                    settle clock hash decoded relayed (record g { operator_nonce = c }))
                  cached,
        )
    Looped-ok result (nonce, w₁, failed e, cache, loop, end) = absurd (ground (arith, end))
    Looped-ok result (nonce, w₁, panicked, cache, loop, end) = absurd (ground (arith, end))

    -- Where the submit task gives a hash, it is that of the transaction; the node accepted a
    -- submission at some operator nonce, the state is settled from there, and the cached nonce is the
    -- next one.
    pub submit_reserved_tx-ok :
        (result : Bytes)
        → submit_reserved_tx node config signer clock hash decoded raw g w ≡ (ok result, g', w')
        → (result ≡ hash)
          × (nonce : ℕ) × (relayed : RelayedTx) × (w₁ : node.World) × (submit_once node config
                signer nonce raw w₁
              ≡ (ok relayed, w'))
          × (g' ≡ settle clock hash decoded relayed (record g { operator_nonce = some nonce }))
          × (g'.operator_nonce ≡ some ((nonce + 1) % 2 ^ 64))
    submit_reserved_tx-ok result h = elim (submit_reserved_tx-cases (ok result) h) [
      | inl (e, f, _) ↦ cc
      | inr (inl (f, _)) ↦ cc
      | inr (inr looped) ↦
          let (same, nonce, relayed, w₁, once, state) = Looped-ok result looped in
          (
            same,
            nonce,
            relayed,
            w₁,
            once,
            state,
            ap (λ (s : Gateway). s.operator_nonce) state
                ∙ settle-operator_nonce clock hash decoded relayed g nonce,
          )
    ]

    Forgot : Type 0
    Forgot =
        (contains g'.tx_meta hash ≡ false)
        × (g'.pending_nonce ≡ g.pending_nonce)
        × (g'.upserts ≡ g.upserts)
        × (g'.last_submit_ok ≡ g.last_submit_ok)
        × (g'.inflight_submits ≡ g.inflight_submits)

    forgot : (c : Option ℕ) → g' ≡ forget hash (record g { operator_nonce = c }) → Forgot
    unfolding Forgot forget contains TxMetaStore.remove
    forgot c e =
        rw e
          (rw (contains, lookup-remove_same hash g.tx_meta.entries) (refl, refl, refl, refl, refl))

    looped_failed : (e : Bytes) → Looped (failed e) → Forgot
    unfolding Looped conclude
    looped_failed e (nonce, w₁, ok relayed, cache, loop, end) = absurd (ground (arith, end))
    looped_failed e (nonce, w₁, panicked, cache, loop, end) = absurd (ground (arith, end))
    looped_failed e (nonce, w₁, failed e', cache, loop, end) =
        forgot cache (sym (ap (λ p. p.1) end))

    -- Where it gives an error, the placeholder is gone, so that the transaction can be sent again,
    -- and the pending nonces, the rows, the time of the last success and the count in flight are as
    -- before.
    pub submit_reserved_tx-failed :
        (e : Bytes)
        → submit_reserved_tx node config signer clock hash decoded raw g w ≡ (failed e, g', w')
        → (contains g'.tx_meta hash ≡ false)
          × (g'.pending_nonce ≡ g.pending_nonce)
          × (g'.upserts ≡ g.upserts)
          × (g'.last_submit_ok ≡ g.last_submit_ok)
          × (g'.inflight_submits ≡ g.inflight_submits)
    unfolding Forgot
    submit_reserved_tx-failed e h = elim (submit_reserved_tx-cases (failed e) h) [
      | inl (e', f, state) ↦ forgot g.operator_nonce state
      | inr (inl (f, _)) ↦ cc
      | inr (inr looped) ↦ looped_failed e looped
    ]
