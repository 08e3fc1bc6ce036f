-- ===== src/Gateway/TxMetaStore/Keeps.antt =====
-- What an insertion into the store keeps.
use koinos_evm_engine.Base.{
  ℕ, ◌-◌, ◌≤◌, ◌<◌, ◌≡◌, ◌≢◌, refl, sym, ap, ◌∙◌, true, false, Option, none, some, List, [], ◌∷◌,
  ◌++◌, length, leb, ltb, Bool-cases, inl, inr, arith,
}
use koinos_evm_engine.Base.Words.{Bytes}
use koinos_evm_engine.Base.Dict
use koinos_evm_engine.Base.Dict.{
  Dict, lookup, put, IsMap, lookup-head, lookup-tail, lookup-remove_same, lookup-remove_other,
  lookup-put_same, lookup-put_other, lookup-remove-some, lookup-put-some, length-remove-le,
  length-put-le, put-IsMap, remove-IsMap,
}
use koinos_evm_engine.Gateway.TxMetaStore.{
  TxMeta, Entry, Queued, TxMetaStore, matches, evict_expired, evict_over, evict, insert, get, new,
}
use koinos_evm_engine.Gateway.TxMetaStore.Bounds.{
  IsCovered, IsStore, IsQueued, IsCovered-new, evict_expired-IsQueued, drop_front, drop_stale,
  queued_eq, matches_eq,
}
use mathlib.Core.Path.{subst}
use mathlib.Core.List.Memᴰ
use mathlib.Core.List.{Memᴰ}

-- A queued entry that is the map's has its time.
matches_time :
    (m : Dict Entry) (hash : Bytes) (meta : TxMeta) (t u : ℕ)
    → lookup m hash ≡ some (meta, t)
    → matches m (hash, u) ≡ true
    → t ≡ u
unfolding matches
matches_time m hash meta t u e h = ground (arith, e, h)

module _ (hash : Bytes) (meta : TxMeta) (now : ℕ) where
  abbrev newest : Queued
  newest = (hash, now)

  -- The new entry is in the map, and last in the queue.
  record Kept (s : Dict Entry × List Queued) : Type 0 where
    front : List Queued
    queue : s.1 ≡ front ++ (newest ∷ [])
    unseen : Memᴰ newest front → ⊥
    present : lookup s.0 hash ≡ some (meta, now)

  -- An entry in front of the new one that the map holds is of another hash.
  other_hash :
      (m : Dict Entry) (q : Queued) (front : List Queued)
      → (Memᴰ newest (q ∷ front) → ⊥)
      → lookup m hash ≡ some (meta, now)
      → matches m q ≡ true
      → q.0 ≢ hash
  other_hash m (h, t) front unseen present current same =
      unseen (Memᴰ.head (queued_eq same (sym (matches_time m hash meta now t present at_hash))))
    where
      at_hash : matches m (hash, t) ≡ true
      at_hash = ap (λ (k : Bytes). matches m (k, t)) (sym same) ∙ current

  keep_removed :
      (m : Dict Entry) (q : Queued) (front : List Queued)
      → (Memᴰ newest (q ∷ front) → ⊥)
      → lookup m hash ≡ some (meta, now)
      → matches m q ≡ true
      → lookup (Dict.remove (q.0) m) hash ≡ some (meta, now)
  keep_removed m q front unseen present current =
      lookup-remove_other (q.0) hash m (other_hash m q front unseen present current) ∙ present

  expired-Kept :
      (ttl : ℕ) (m : Dict Entry) (front : List Queued)
      → 0 < ttl
      → (Memᴰ newest front → ⊥)
      → lookup m hash ≡ some (meta, now)
      → Kept (evict_expired ttl now m (front ++ (newest ∷ [])))
  unfolding evict_expired
  expired-Kept ttl m [] pos unseen present =
      rw (matches_eq m hash meta now present, not_yet)
        (record { front = []; queue = refl; unseen = unseen; present = present })
    where
      not_yet : leb ttl (now - now) ≡ false
      not_yet = ground arith
  expired-Kept ttl m ((h, t) ∷ front) pos unseen present = elim (Bool-cases (matches m (h, t))) [
    | inr stale ↦ rw stale (expired-Kept ttl m front pos (λ i. unseen (Memᴰ.tail i)) present)
    | inl current ↦ elim (Bool-cases (leb ttl (now - t))) [
      | inl old ↦
          rw (current, old)
            (expired-Kept ttl (Dict.remove h m) front pos (λ i. unseen (Memᴰ.tail i))
              (keep_removed m (h, t) front unseen present current))
      | inr fresh ↦
          rw (current, fresh)
            (record { front = (h, t) ∷ front; queue = refl; unseen = unseen; present = present })
    ]
  ]

  only_newest :
      (m : Dict Entry) (h : Bytes) (e : Entry)
      → IsCovered m (newest ∷ [])
      → lookup m h ≡ some e
      → h ≡ hash
  only_newest m h (meta', t) c found = elim (Memᴰ.cases_cons (c h meta' t found)) [
    | inl same ↦ ap (λ q. q.0) same
    | inr behind ↦ absurd (Memᴰ.not-nil behind)
  ]

  -- With nothing else in the queue there is nothing else in the map.
  alone : (m : Dict Entry) → IsMap m → IsCovered m (newest ∷ []) → length m ≤ 1
  unfolding IsMap
  alone [] h c = omega arith
  alone (x ∷ []) h c = omega arith
  alone ((h, e) ∷ ((j, e') ∷ m)) (new, rest) c =
      let first : h ≡ hash = only_newest _ h e c (lookup-head h h e _ refl) in
      let second : h ≢ j = λ same. cc (lookup-head j h e' m (sym same), new) in
      absurd (
        second (
          first
          ∙ sym (only_newest _ j e' c (lookup-tail h j e _ second ∙ lookup-head j j e' m refl))))

  over-Kept :
      (cap : ℕ) (m : Dict Entry) (front : List Queued)
      → 1 ≤ cap
      → IsQueued (m, front ++ (newest ∷ []))
      → (Memᴰ newest front → ⊥)
      → lookup m hash ≡ some (meta, now)
      → lookup (evict_over cap m (front ++ (newest ∷ []))).0 hash ≡ some (meta, now)
  unfolding evict_over
  over-Kept cap m [] pos queued unseen present = rw room present
    where
      room : ltb cap (length m) ≡ false
      room = ground (arith, alone m queued.is_map queued.covered)
  over-Kept cap m ((h, t) ∷ front) pos queued unseen present =
      elim (Bool-cases (ltb cap (length m))) [
        | inr within ↦ rw within present
        | inl over ↦ elim (Bool-cases (matches m (h, t))) [
          | inl current ↦
              rw (over, current)
                (over-Kept cap (Dict.remove h m) front pos
                  (drop_front m h t (front ++ (newest ∷ [])) queued) (λ i. unseen (Memᴰ.tail i))
                  (keep_removed m (h, t) front unseen present current))
          | inr stale ↦
              rw (over, stale)
                (over-Kept cap m front pos
                  (drop_stale m (h, t) (front ++ (newest ∷ [])) stale queued)
                  (λ i. unseen (Memᴰ.tail i)) present)
        ]
      ]

  over-of-Kept :
      (cap : ℕ) (s : Dict Entry × List Queued)
      → 1 ≤ cap
      → IsQueued s
      → Kept s
      → lookup (evict_over cap s.0 s.1).0 hash ≡ some (meta, now)
  over-of-Kept cap (m, order) pos queued kept =
      ap (λ (q : List Queued). lookup (evict_over cap m q).0 hash) kept.queue
      ∙ over-Kept cap m kept.front pos
          (subst (λ (q : List Queued). IsQueued (m, q)) kept.queue queued) kept.unseen kept.present

  -- A transaction that was just inserted into a store within its cap is found, if entries live for
  -- some time and it is not queued already with the same time.
  pub get-insert :
      (s : TxMetaStore)
      → IsStore s
      → 0 < s.ttl
      → (Memᴰ newest s.order → ⊥)
      → get (insert now hash meta s) hash ≡ some meta
  unfolding insert evict get
  get-insert s h pos unseen =
      ap (λ (e : Option Entry). elim e [ none ↦ none | some (found, t) ↦ some found ])
        (over-of-Kept s.cap _ h.positive
          (evict_expired-IsQueued s.ttl now _ _ (record {
            is_map = put-IsMap hash (meta, now) s.entries h.is_map;
            covered = IsCovered-new now hash meta s.entries s.order h.covered;
          }))
          (expired-Kept s.ttl (put hash (meta, now) s.entries) s.order pos unseen
            (lookup-put_same hash (meta, now) s.entries)))
