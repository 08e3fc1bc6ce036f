-- ===== src/Engine/Trace/Gates.antt =====
-- A submitted transaction writes nothing before it has passed every gate.
use koinos_evm_engine.Base.{
  ℕ, ◌≡◌, refl, Bool-cases, ◌⊎◌, inl, inr, Option, none, some, [], is_empty, ◌==◌, ==_iff,
}
use koinos_evm_engine.Base.Words.{Bytes}
use koinos_evm_engine.Engine.Proto.{fields}
use koinos_evm_engine.Engine.Koinos.{Host, Outcome, returned, exited, go_on, last_bytes}
use koinos_evm_engine.Engine.Database.{Primitives, AccountInfo, DbResult, basic}
use koinos_evm_engine.Engine.Tx.{TxResult, Rlp, ParsedTx}
use koinos_evm_engine.Engine.Tx.Sender.{parse_raw_tx}
use koinos_evm_engine.Engine.Evm.{engine_chain_id, Revm, emit_evm_result_event}
use koinos_evm_engine.Engine.Submit.{
  reject_submit, reject_logged, submit_with_nonce, submit_parsed, submit_result,
  handle_submit_raw_tx,
}
use koinos_evm_engine.Engine.Trace.{no_writes, no_writes-AllowsReads, Reaches, Only}
use koinos_evm_engine.Engine.Trace.Calls.{Reaches-trans, bind-Only, pure-Only, log-Only, event-Only}
use koinos_evm_engine.Engine.Trace.Components.{parse_raw_tx-Only, basic-Only}

module _ (rlp : Rlp) (p : Primitives) (host : Host) (revm : Revm host.World) where
  -- What the gates ask of a raw transaction in a world: it parses, it is for this chain, and its
  -- nonce is the next one of the account that signed it (0 where there is no account).
  pub record IsAccepted (raw : Bytes) (w : host.World) : Type 0 where
    pub tx : ParsedTx
    pub parsed_at : host.World
    pub found : Option AccountInfo
    pub read_at : host.World
    pub parses : parse_raw_tx rlp p host raw w ≡ (returned (TxResult.ok tx), parsed_at)
    pub chain : elim tx.chain_id [ none ↦ engine_chain_id | some c ↦ c ] ≡ engine_chain_id
    pub reads : basic p host tx.sender parsed_at ≡ (returned (DbResult.ok found), read_at)
    pub next_nonce : tx.nonce ≡ elim found [ none ↦ 0 | some info ↦ info.nonce ]

  reject_submit-Only :
      (message : Bytes) → Only host no_writes (reject_submit rlp p host revm message)
  unfolding reject_submit emit_evm_result_event
  reject_submit-Only message =
      bind-Only host no_writes _ _ (event-Only host no_writes no_writes-AllowsReads refl _ _ _)
        (λ u. pure-Only host no_writes _)

  reject_logged-Only :
      (message : Bytes) → Only host no_writes (reject_logged rlp p host revm message)
  unfolding reject_logged
  reject_logged-Only message =
      bind-Only host no_writes _ _ (log-Only host no_writes no_writes-AllowsReads _)
        (λ u. reject_submit-Only _)

  abbrev next_of : Option AccountInfo → ℕ
  next_of found = elim found [ none ↦ 0 | some info ↦ info.nonce ]

  nonce_gate :
      (tx : ParsedTx) (found : Option AccountInfo)
      → (tx.nonce ≡ next_of found)
        ⊎ Only host no_writes (submit_with_nonce rlp p host revm tx (DbResult.ok found))
  unfolding submit_with_nonce
  nonce_gate tx found = elim (Bool-cases (tx.nonce == next_of found)) [
    | inl e ↦ inl ((==_iff tx.nonce (next_of found)).0 e)
    | inr e ↦ inr (rw e (reject_logged-Only _))
  ]

  read_gate :
      (tx : ParsedTx) (w : host.World) (r : Outcome (DbResult (Option AccountInfo)) × host.World)
      → Reaches host no_writes w r.1
      → ((found : Option AccountInfo) × (w' : host.World) × (r ≡ (returned (DbResult.ok found), w'))
          × (tx.nonce ≡ next_of found))
        ⊎ Reaches host no_writes w (go_on r (submit_with_nonce rlp p host revm tx)).1
  unfolding submit_with_nonce
  read_gate tx w (exited args, w') h = inr h
  read_gate tx w (returned (DbResult.err e), w') h =
      inr (Reaches-trans host no_writes h ((reject_submit-Only _).reaches w'))
  read_gate tx w (returned (DbResult.ok found), w') h = elim (nonce_gate tx found) [
    | inl e ↦ inl (found, w', refl, e)
    | inr k ↦ inr (Reaches-trans host no_writes h (k.reaches w'))
  ]

  abbrev chain_of : ParsedTx → ℕ
  chain_of tx = elim tx.chain_id [ none ↦ engine_chain_id | some c ↦ c ]

  -- The account is read, and the nonce is its next one.
  abbrev ReadsNext : ParsedTx → host.World → Type 0
  ReadsNext tx w =
      (found : Option AccountInfo) × (w' : host.World) × (basic p host tx.sender w
        ≡ (returned (DbResult.ok found), w'))
      × (tx.nonce ≡ next_of found)

  chain_gate :
      (tx : ParsedTx) (w : host.World)
      → ((chain_of tx ≡ engine_chain_id) × ReadsNext tx w)
        ⊎ Reaches host no_writes w (submit_parsed rlp p host revm tx w).1
  unfolding submit_parsed
  chain_gate tx w = elim (Bool-cases (chain_of tx == engine_chain_id)) [
    | inr e ↦ inr (rw e ((reject_logged-Only _).reaches w))
    | inl e ↦
        elim (read_gate tx w (basic p host tx.sender w)
          ((basic-Only host no_writes no_writes-AllowsReads p tx.sender).reaches w)) [
            | inl k ↦ inl ((==_iff (chain_of tx) engine_chain_id).0 e, k)
            | inr k ↦ inr (rw e k)
          ]
  ]

  parse_gate :
      (w : host.World) (r : Outcome (TxResult ParsedTx) × host.World)
      → Reaches host no_writes w r.1
      → ((tx : ParsedTx) × (w' : host.World) × (r ≡ (returned (TxResult.ok tx), w'))
          × (chain_of tx ≡ engine_chain_id)
          × ReadsNext tx w')
        ⊎ Reaches host no_writes w (go_on r (submit_result rlp p host revm)).1
  unfolding submit_result
  parse_gate w (exited args, w') h = inr h
  parse_gate w (returned (TxResult.err e), w') h =
      inr (Reaches-trans host no_writes h ((reject_logged-Only _).reaches w'))
  parse_gate w (returned (TxResult.ok tx), w') h = elim (chain_gate tx w') [
    | inl (e, k) ↦ inl (tx, w', refl, e, k)
    | inr k ↦ inr (Reaches-trans host no_writes h k)
  ]

  -- Whatever is submitted, in whatever world: either the transaction passes every gate (it is
  -- there and parses, its chain id is the engine's, and its nonce is the next one of its signer),
  -- or the handler changes no object: it makes no `put_object` and no `remove_object`.
  pub handle_submit_raw_tx-gates :
      (args : Bytes) (w : host.World)
      → IsAccepted (last_bytes 1 [] (fields args)) w
        ⊎ Reaches host no_writes w (handle_submit_raw_tx rlp p host revm args w).1
  unfolding handle_submit_raw_tx
  handle_submit_raw_tx-gates args w = elim (Bool-cases (is_empty raw)) [
    | inl e ↦ inr (rw e ((reject_submit-Only _).reaches w))
    | inr e ↦
        elim (parse_gate w (parse_raw_tx rlp p host raw w)
          ((parse_raw_tx-Only host no_writes no_writes-AllowsReads rlp p raw).reaches w)) [
            | inl (tx, w1, parses, chain, (found, w2, reads, next)) ↦ inl (record {
              tx = tx;
              parsed_at = w1;
              found = found;
              read_at = w2;
              parses = parses;
              chain = chain;
              reads = reads;
              next_nonce = next;
            })
            | inr k ↦ inr (rw e k)
          ]
  ]
    where
      raw : Bytes
      raw = last_bytes 1 [] (fields args)
