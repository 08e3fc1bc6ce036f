-- ===== src/Gateway/Relay/Steps.antt =====
-- The relay as a transition system: requests, submit tasks and reconciliations in any order.
use koinos_evm_engine.Base.{
  ℕ, ◌%◌, ◌^◌, ◌≡◌, refl, sym, ◌∙◌, Bool, none, List, [], ◌∷◌, ◌++◌, length, length-append, arith,
}
use koinos_evm_engine.Base.Words.{Bytes}
use koinos_evm_engine.Gateway.TxMetaStore
use koinos_evm_engine.Gateway.TxMetaStore.Bounds as TxMetaBounds
use koinos_evm_engine.Gateway.PendingNonceStore
use koinos_evm_engine.Gateway.PendingNonceStore.Bounds as PendingBounds
use koinos_evm_engine.Gateway.EthTx.{Crypto, DecodedTx}
use koinos_evm_engine.Gateway.KoinosTx.{Signer}
use koinos_evm_engine.Gateway.Relay.{
  Node, Config, Clock, Gateway, Admission, bad_params, underpriced, already_known, reserved,
  acquire, release, placeholder, admit,
}
use koinos_evm_engine.Gateway.Relay.Submit.{
  handle_get_tx_count, reconcile_operator_nonce, submit_task,
}
use koinos_evm_engine.Gateway.Relay.Dedupe.{admit-reserved, admit-kept}
use koinos_evm_engine.Gateway.Relay.Follows.{
  IsSound, Follows, submit_reserved_tx-Follows, handle_get_tx_count-Follows,
  reconcile_operator_nonce-Follows,
}
use mathlib.Core.Path.{subst}

-- A transaction that is being relayed: its hash, what was decoded of it, its bytes.
abbrev pub Task : Type 0
Task = Bytes × DecodedTx × Bytes

-- The gateway, the submit tasks that have not ended, and the node.
pub record System (node : Node) : Type 0 where
  pub gateway : Gateway
  pub tasks : List Task
  pub world : node.World

-- A reservation starts a task.
abbrev pub started : Bytes → Admission → List Task → List Task
started raw bad_params tasks = tasks
started raw underpriced tasks = tasks
started raw (already_known hash) tasks = tasks
started raw (reserved hash d) tasks = (hash, d, raw) ∷ tasks

module _ (node : Node) (crypto : Crypto) (config : Config) (signer : Signer) where
  unfoldable pub receive : Clock → (Bytes → Bool) → Bytes → System node → System node
  receive clock is_settled raw s =
      let (admission, g) = admit crypto config clock is_settled raw s.gateway in
      record s { gateway = g; tasks = started raw admission s.tasks }

  -- A request is received; a task among the others runs to its end; the nonce is reconciled; a
  -- transaction count is asked for.
  pub data Step : System node → System node → Type 0 where
    received :
        {s : System node} (clock : Clock) (is_settled : Bytes → Bool) (raw : Bytes)
        → Step s (receive clock is_settled raw s)
    finished :
        {g : Gateway} {w : node.World} (clock : Clock) (before after : List Task) (hash : Bytes)
        (d : DecodedTx) (raw : Bytes)
        → Step
            (record { gateway = g; tasks = before ++ ((hash, d, raw) ∷ after); world = w })
            (record {
              gateway = (submit_task node config signer clock hash d raw g w).1;
              tasks = before ++ after;
              world = (submit_task node config signer clock hash d raw g w).2;
            })
    reconciled :
        {s : System node} (clock : Clock) (quiet : ℕ)
        → Step s (record s {
          gateway = (reconcile_operator_nonce node clock quiet s.gateway s.world).0;
          world = (reconcile_operator_nonce node clock quiet s.gateway s.world).1;
        })
    counted :
        {s : System node} (clock : Clock) (on_chain : ℕ) (pending : Bool) (addr : Bytes)
        → Step s (record s {
          gateway = (handle_get_tx_count node clock on_chain pending addr s.gateway).1;
        })

  -- Both stores are within their caps, and the submissions in flight are the tasks.
  pub record IsRunning (s : System node) : Type 0 where
    pub sound : IsSound s.gateway
    pub inflight : s.gateway.inflight_submits ≡ length s.tasks % 2 ^ 64

  follow :
      (s : System node) (g : Gateway) (w : node.World)
      → Follows s.gateway g
      → IsRunning s
      → IsRunning (record { gateway = g; tasks = s.tasks; world = w })
  follow s g w f h = record { sound = f.sound h.sound; inflight = f.inflight ∙ h.inflight }

  kept :
      (s : System node) (g : Gateway)
      → IsRunning s
      → g ≡ s.gateway
      → IsRunning (record { gateway = g; tasks = s.tasks; world = s.world })
  kept s g h e =
      subst (λ (x : Gateway). IsRunning (record { gateway = x; tasks = s.tasks; world = s.world }))
        (sym e) h

  received_of :
      (clock : Clock) (is_settled : Bytes → Bool) (raw : Bytes) (s : System node)
      (p : Admission × Gateway)
      → admit crypto config clock is_settled raw s.gateway ≡ p
      → IsRunning s
      → IsRunning (record { gateway = p.1; tasks = started raw p.0 s.tasks; world = s.world })
  unfolding acquire
  received_of clock is_settled raw s (reserved hash d, g) e h =
      let (full, read, met, named, state) =
        admit-reserved crypto config is_settled raw clock s.gateway g hash d e in
      let inserted =
        TxMetaBounds.insert-IsStore clock.instant (crypto.keccak256 raw) (placeholder raw d)
          s.gateway.tx_meta h.sound.tx_meta in
      subst
        (λ (x : Gateway).
          IsRunning (record { gateway = x; tasks = (hash, d, raw) ∷ s.tasks; world = s.world }))
        (sym state)
        (record {
          sound = record { tx_meta = inserted; pending_nonce = h.sound.pending_nonce };
          inflight = omega (arith, h.inflight);
        })
  received_of clock is_settled raw s (bad_params, g) e h =
      kept s g h (admit-kept crypto config is_settled raw clock s.gateway g bad_params refl e)
  received_of clock is_settled raw s (underpriced, g) e h =
      kept s g h (admit-kept crypto config is_settled raw clock s.gateway g underpriced refl e)
  received_of clock is_settled raw s (already_known hash, g) e h =
      kept s g h
        (admit-kept crypto config is_settled raw clock s.gateway g (already_known hash) refl e)

  receive-IsRunning :
      (clock : Clock) (is_settled : Bytes → Bool) (raw : Bytes) (s : System node)
      → IsRunning s
      → IsRunning (receive clock is_settled raw s)
  unfolding receive
  receive-IsRunning clock is_settled raw s h =
      received_of clock is_settled raw s (admit crypto config clock is_settled raw s.gateway) refl h

  finish-IsRunning :
      (clock : Clock) (before after : List Task) (hash : Bytes) (d : DecodedTx) (raw : Bytes)
      (g : Gateway) (w : node.World)
      → IsRunning (record { gateway = g; tasks = before ++ ((hash, d, raw) ∷ after); world = w })
      → IsRunning (record {
        gateway = (submit_task node config signer clock hash d raw g w).1;
        tasks = before ++ after;
        world = (submit_task node config signer clock hash d raw g w).2;
      })
  unfolding submit_task release
  finish-IsRunning clock before after hash d raw g w h =
      let f = submit_reserved_tx-Follows node config signer clock hash d raw g w in
      record {
        sound = record {
          tx_meta = (f.sound h.sound).tx_meta;
          pending_nonce = (f.sound h.sound).pending_nonce;
        };
        inflight = omega (
          arith,
          f.inflight,
          h.inflight,
          length-append before after,
          length-append before ((hash, d, raw) ∷ after),
        );
      }

  -- Every step keeps both stores within their caps and the count of submissions in flight that of
  -- the tasks.
  pub Step-IsRunning : (s s' : System node) → Step s s' → IsRunning s → IsRunning s'
  Step-IsRunning s s' (received clock is_settled raw) h = receive-IsRunning clock is_settled raw s h
  Step-IsRunning s s' (finished {g} {w} clock before after hash d raw) h =
      finish-IsRunning clock before after hash d raw g w h
  Step-IsRunning s s' (reconciled clock quiet) h =
      follow s _ _
        (reconcile_operator_nonce-Follows node config signer clock quiet s.gateway s.world) h
  Step-IsRunning s s' (counted clock on_chain pending addr) h =
      follow s _ _
        (handle_get_tx_count-Follows node config signer clock on_chain pending addr s.gateway) h

  -- The gateway at its start, with stores of these caps and lifetimes.
  abbrev pub initial : ℕ → ℕ → ℕ → ℕ → node.World → System node
  initial meta_cap meta_ttl nonce_cap nonce_ttl w = record {
    gateway = record {
      operator_nonce = none;
      tx_meta = TxMetaStore.new meta_cap meta_ttl;
      pending_nonce = PendingNonceStore.new nonce_cap nonce_ttl;
      inflight_submits = 0;
      last_submit_ok = 0;
      upserts = [];
    };
    tasks = [];
    world = w;
  }

  pub data Reached : System node → Type 0 where
    begun :
        (meta_cap meta_ttl nonce_cap nonce_ttl : ℕ) (w : node.World)
        → Reached (initial meta_cap meta_ttl nonce_cap nonce_ttl w)
    stepped : {s s' : System node} → Reached s → Step s s' → Reached s'

  -- In whatever order requests, submit tasks, reconciliations and counts follow each other: both
  -- stores are within their caps, and the count of submissions in flight is that of the tasks that
  -- have not ended, modulo 2^64.
  pub Reached-IsRunning : (s : System node) → Reached s → IsRunning s
  Reached-IsRunning s (begun meta_cap meta_ttl nonce_cap nonce_ttl w) = record {
    sound = record {
      tx_meta = TxMetaBounds.new-IsStore meta_cap meta_ttl;
      pending_nonce = PendingBounds.new-IsStore nonce_cap nonce_ttl;
    };
    inflight = omega arith;
  }
  Reached-IsRunning s (stepped {s = before} r step) =
      Step-IsRunning before s step (Reached-IsRunning before r)
