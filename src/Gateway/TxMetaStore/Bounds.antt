-- ===== src/Gateway/TxMetaStore/Bounds.antt =====
-- The store of relayed transactions stays within its cap.
use koinos_evm_engine.Base.{
  ℕ, ◌-◌, ◌≤◌, ◌≡◌, refl, sym, ap, true, false, some, List, [], ◌∷◌, ◌++◌, length, leb, ==_refl,
  ltb, Bool-cases, Option-cases, inl, inr, bytes_eq_refl, arith,
}
use koinos_evm_engine.Base.Words.{Bytes}
use koinos_evm_engine.Base.Dict
use koinos_evm_engine.Base.Dict.{
  Dict, lookup, put, IsMap, lookup-remove_same, lookup-remove_other, lookup-put_same,
  lookup-put_other, lookup-remove-some, lookup-put-some, length-remove-le, length-put_present,
  put-IsMap, remove-IsMap,
}
use koinos_evm_engine.Gateway.TxMetaStore.{
  TxMeta, Entry, Queued, TxMetaStore, new, matches, evict_expired, evict_over, evict, insert,
  set_koinos_tx_id, remove,
}
use mathlib.Core.List.Memᴰ
use mathlib.Core.List.{Memᴰ}

-- Every entry of the map is queued with the time of its insertion.
abbrev pub IsCovered : Dict Entry → List Queued → Type 0
IsCovered m order =
    (hash : Bytes) (meta : TxMeta) (t : ℕ) → lookup m hash ≡ some (meta, t) → Memᴰ (hash, t) order

-- A store within its cap, which is at least 1, all of its entries queued.
pub record IsStore (s : TxMetaStore) : Type 0 where
  pub is_map : IsMap s.entries
  pub covered : IsCovered s.entries s.order
  pub within : length s.entries ≤ s.cap
  pub positive : 1 ≤ s.cap

covered_end : (m : Dict Entry) → IsCovered m [] → length m ≡ 0
unfolding lookup
covered_end [] c = refl
covered_end ((hash, (meta, t)) ∷ m) c =
    absurd (Memᴰ.not-nil (c hash meta t (rw (bytes_eq_refl hash) refl)))

IsCovered-removed :
    (m : Dict Entry) (hash : Bytes) (t : ℕ) (rest : List Queued)
    → IsCovered m ((hash, t) ∷ rest)
    → IsCovered (Dict.remove hash m) rest
IsCovered-removed m hash t rest c h meta u e =
    let (other, before) = lookup-remove-some hash h (meta, u) m e in
    elim (Memᴰ.cases_cons (c h meta u before)) [
      | inl same ↦ absurd (other (sym (ap (λ q. q.0) same)))
      | inr behind ↦ behind
    ]

pub matches_eq :
    (m : Dict Entry) (hash : Bytes) (meta : TxMeta) (t : ℕ)
    → lookup m hash ≡ some (meta, t)
    → matches m (hash, t) ≡ true
unfolding matches
matches_eq m hash meta t e = rw (matches, e) (==_refl t)

IsCovered-stale :
    (m : Dict Entry) (q : Queued) (rest : List Queued)
    → matches m q ≡ false
    → IsCovered m (q ∷ rest)
    → IsCovered m rest
IsCovered-stale m q rest stale c h meta u e = elim (Memᴰ.cases_cons (c h meta u e)) [
  | inl same ↦ cc (ap (matches m) same, matches_eq m h meta u e, stale)
  | inr behind ↦ behind
]

-- A map and a queue that the loops of `evict` may be at.
pub record IsQueued (s : Dict Entry × List Queued) : Type 0 where
  pub is_map : IsMap s.0
  pub covered : IsCovered s.0 s.1

pub drop_front :
    (m : Dict Entry) (hash : Bytes) (t : ℕ) (rest : List Queued)
    → IsQueued (m, (hash, t) ∷ rest)
    → IsQueued (Dict.remove hash m, rest)
drop_front m hash t rest h = record {
  is_map = remove-IsMap hash m h.is_map;
  covered = IsCovered-removed m hash t rest h.covered;
}

pub drop_stale :
    (m : Dict Entry) (q : Queued) (rest : List Queued)
    → matches m q ≡ false
    → IsQueued (m, q ∷ rest)
    → IsQueued (m, rest)
drop_stale m q rest stale h = record {
  is_map = h.is_map;
  covered = IsCovered-stale m q rest stale h.covered;
}

pub evict_expired-IsQueued :
    (ttl now : ℕ) (m : Dict Entry) (order : List Queued)
    → IsQueued (m, order)
    → IsQueued (evict_expired ttl now m order)
unfolding evict_expired
evict_expired-IsQueued ttl now m [] h = h
evict_expired-IsQueued ttl now m ((hash, t) ∷ rest) h = elim (Bool-cases (matches m (hash, t))) [
  | inr stale ↦
      rw stale (evict_expired-IsQueued ttl now m rest (drop_stale m (hash, t) rest stale h))
  | inl current ↦ elim (Bool-cases (leb ttl (now - t))) [
    | inl old ↦
        rw (current, old)
          (evict_expired-IsQueued ttl now (Dict.remove hash m) rest (drop_front m hash t rest h))
    | inr fresh ↦ rw (current, fresh) h
  ]
]

evict_over-IsQueued :
    (cap : ℕ) (m : Dict Entry) (order : List Queued)
    → IsQueued (m, order)
    → IsQueued (evict_over cap m order) × (length (evict_over cap m order).0 ≤ cap)
unfolding evict_over
evict_over-IsQueued cap m [] h = (h, omega (arith, covered_end m h.covered))
evict_over-IsQueued cap m ((hash, t) ∷ rest) h = elim (Bool-cases (ltb cap (length m))) [
  | inr within ↦ rw within (h, ground (arith, within))
  | inl over ↦ elim (Bool-cases (matches m (hash, t))) [
    | inl current ↦
        rw (over, current)
          (evict_over-IsQueued cap (Dict.remove hash m) rest (drop_front m hash t rest h))
    | inr stale ↦
        rw (over, stale) (evict_over-IsQueued cap m rest (drop_stale m (hash, t) rest stale h))
  ]
]

pub queued_eq : {h j : Bytes} {t u : ℕ} → h ≡ j → t ≡ u → ◌≡◌ {A = Queued} (j, u) (h, t)
queued_eq e f = cc

pub IsCovered-new :
    (now : ℕ) (hash : Bytes) (meta : TxMeta) (m : Dict Entry) (order : List Queued)
    → IsCovered m order
    → IsCovered (put hash (meta, now) m) (order ++ ((hash, now) ∷ []))
IsCovered-new now hash meta m order c h meta' t e =
    elim (lookup-put-some hash h (meta, now) (meta', t) m e) [
      | inl (same, entry) ↦
          Memᴰ.append_right order (Memᴰ.head (queued_eq same (ap (λ e. e.1) entry)))
      | inr (other, old) ↦ Memᴰ.append_left ((hash, now) ∷ []) (c h meta' t old)
    ]

pub new-IsStore : (cap ttl : ℕ) → IsStore (new cap ttl)
unfolding new lookup IsMap
new-IsStore cap ttl = record {
  is_map = tt;
  covered = λ h meta t e. cc;
  within = omega arith;
  positive = ground arith;
}

-- An insertion keeps the store within its cap, whatever the clock says.
pub insert-IsStore :
    (now : ℕ) (hash : Bytes) (meta : TxMeta) (s : TxMetaStore)
    → IsStore s
    → IsStore (insert now hash meta s)
unfolding insert evict
insert-IsStore now hash meta s h =
    let start : IsQueued (put hash (meta, now) s.entries, s.order ++ ((hash, now) ∷ [])) = record {
      is_map = put-IsMap hash (meta, now) s.entries h.is_map;
      covered = IsCovered-new now hash meta s.entries s.order h.covered;
    } in
    let (queued, within) =
      evict_over-IsQueued s.cap _ _ (evict_expired-IsQueued s.ttl now _ _ start) in
    record {
      is_map = queued.is_map;
      covered = queued.covered;
      within = within;
      positive = h.positive;
    }

pub remove-IsStore : (hash : Bytes) (s : TxMetaStore) → IsStore s → IsStore (remove hash s)
unfolding remove
remove-IsStore hash s h = record {
  is_map = remove-IsMap hash s.entries h.is_map;
  covered = λ j meta t e. h.covered j meta t (lookup-remove-some hash j (meta, t) s.entries e).1;
  within = omega (arith, h.within, length-remove-le hash s.entries);
  positive = h.positive;
}

-- New metadata in an entry leaves its time.
IsCovered-patched :
    (hash : Bytes) (meta meta' : TxMeta) (t : ℕ) (m : Dict Entry) (order : List Queued)
    → lookup m hash ≡ some (meta, t)
    → IsCovered m order
    → IsCovered (put hash (meta', t) m) order
IsCovered-patched hash meta meta' t m order present c h meta'' u e =
    elim (lookup-put-some hash h (meta', t) (meta'', u) m e) [
      | inl (same, entry) ↦ Memᴰ.cast (queued_eq same (ap (λ e. e.1) entry)) (c hash meta t present)
      | inr (other, old) ↦ c h meta'' u old
    ]

pub set_koinos_tx_id-IsStore :
    (hash id : Bytes) (s : TxMetaStore) → IsStore s → IsStore (set_koinos_tx_id hash id s)
unfolding set_koinos_tx_id
set_koinos_tx_id-IsStore hash id s h = elim (Option-cases (lookup s.entries hash)) [
  | inl absent ↦ rw (set_koinos_tx_id, absent) h
  | inr ((meta, t), present) ↦
      rw (set_koinos_tx_id, present)
        (record {
          is_map = put-IsMap hash (record meta { koinos_tx_id = id }, t) s.entries h.is_map;
          covered =
              IsCovered-patched hash meta (record meta { koinos_tx_id = id }) t s.entries s.order
                present h.covered;
          within = omega (
            arith,
            h.within,
            length-put_present hash (record meta { koinos_tx_id = id }, t) (meta, t) s.entries
                present,
          );
          positive = h.positive;
        })
]
