-- ===== src/Gateway/PendingNonceStore/Bounds.antt =====
-- The store of pending nonces: its size, and what an advance records.
use koinos_evm_engine.Base.{
  ℕ, zero, suc, ◌-◌, ◌≤◌, ◌<◌, ◌≡◌, ◌≢◌, refl, Bool, true, false, Option, none, some, [], ◌∷◌,
  length, leb, ltb, if◌then◌else◌, Bool-cases, Option-cases, inl, inr, bytes_eq_refl, arith,
}
use koinos_evm_engine.Base.Words.{Bytes}
use koinos_evm_engine.Base.Dict.{
  Dict, lookup, put, retain, IsMap, lookup-put_same, length-remove-le, length-remove_present,
  length-put-le, length-put_present, put-IsMap, remove-IsMap, retain-IsMap, length-retain-le,
}
use koinos_evm_engine.Gateway.PendingNonceStore.{
  Entry, PendingNonceStore, new, get_unexpired, oldest, drop_oldest, evict, advance, remove,
}

pub record IsStore (s : PendingNonceStore) : Type 0 where
  pub is_map : IsMap s.entries
  pub within : length s.entries ≤ s.cap
  pub positive : 1 ≤ s.cap

oldest-none : (d : Dict Entry) → oldest d ≡ none → length d ≡ 0
unfolding oldest
oldest-none [] h = refl
oldest-none ((addr, (nonce, t)) ∷ d) h = elim (Option-cases (oldest d)) [
  | inl none_left ↦ ground (arith, none_left, h)
  | inr ((other, u), found) ↦ ground (arith, found, h)
]

-- The oldest entry is one of the map.
oldest_present :
    (d : Dict Entry) (addr : Bytes) (t : ℕ) → oldest d ≡ some (addr, t) → lookup d addr ≢ none
unfolding oldest lookup
oldest_present [] addr t h = cc
oldest_present ((first, (nonce, u)) ∷ d) addr t h = elim (Option-cases (oldest d)) [
  | inl none_left ↦ ground (arith, none_left, h, bytes_eq_refl addr)
  | inr ((other, v), found) ↦
      ground (arith, found, h, bytes_eq_refl addr, oldest_present d other v found)
]

drop_oldest-IsMap : (d : Dict Entry) → IsMap d → IsMap (drop_oldest d)
unfolding drop_oldest
drop_oldest-IsMap d h = elim (Option-cases (oldest d)) [
  | inl none_left ↦ rw (drop_oldest, none_left) h
  | inr ((addr, t), found) ↦ rw (drop_oldest, found) (remove-IsMap addr d h)
]

length-drop_oldest : (d : Dict Entry) (n : ℕ) → length d ≤ suc n → length (drop_oldest d) ≤ n
unfolding drop_oldest
length-drop_oldest d n h = elim (Option-cases (oldest d)) [
  | inl none_left ↦ rw (drop_oldest, none_left) (omega (arith, oldest-none d none_left))
  | inr ((addr, t), found) ↦
      rw (drop_oldest, found)
        (elim (Option-cases (lookup d addr)) [
          | inl absent ↦ absurd (oldest_present d addr t found absent)
          | inr (v, present) ↦ omega (arith, h, length-remove_present addr v d present)
        ])
]

-- An eviction makes room for one more entry.
evict_room :
    (cap : ℕ) (fresh : Dict Entry)
    → 1 ≤ cap
    → length fresh ≤ cap
    → length (if leb cap (length fresh) then drop_oldest fresh else fresh) < cap
evict_room zero fresh pos h = absurd (omega (arith, pos))
evict_room (suc n) fresh pos h = elim (Bool-cases (leb (suc n) (length fresh))) [
  | inl full ↦ rw full (omega (arith, length-drop_oldest fresh n h))
  | inr room ↦ rw room (ground (arith, room))
]

if_IsMap : (b : Bool) (d : Dict Entry) → IsMap d → IsMap (if b then drop_oldest d else d)
if_IsMap true d h = drop_oldest-IsMap d h
if_IsMap false d h = h

evict-IsStore :
    (now : ℕ) (s : PendingNonceStore)
    → IsStore s
    → IsMap (evict now s).entries × (length (evict now s).entries < s.cap)
unfolding evict
evict-IsStore now s h =
    let fresh = retain (λ e. ltb (now - e.1) s.ttl) s.entries in
    (
      if_IsMap (leb s.cap (length fresh)) fresh (retain-IsMap _ s.entries h.is_map),
      evict_room s.cap fresh h.positive
          (omega (arith, h.within, length-retain-le (λ e. ltb (now - e.1) s.ttl) s.entries)),
    )

evict-cap : (now : ℕ) (s : PendingNonceStore) → (evict now s).cap ≡ s.cap
unfolding evict
evict-cap now s = refl

put-IsStore :
    (addr : Bytes) (e : Entry) (s : PendingNonceStore)
    → IsMap s.entries
    → length s.entries < s.cap
    → IsStore (record s { entries = put addr e s.entries })
put-IsStore addr e s h room = record {
  is_map = put-IsMap addr e s.entries h;
  within = omega (arith, room, length-put-le addr e s.entries);
  positive = omega (arith, room);
}

-- An advance keeps the store within its cap, also for a new sender in a full store.
pub advance-IsStore :
    (now : ℕ) (addr : Bytes) (next : ℕ) (s : PendingNonceStore)
    → IsStore s
    → IsStore (advance now addr next s)
unfolding advance
advance-IsStore now addr next s h = elim (Option-cases (lookup s.entries addr)) [
  | inr ((cur, t), present) ↦
      rw (advance, present)
        (record {
          is_map = put-IsMap addr _ s.entries h.is_map;
          within = omega (
            arith,
            h.within,
            length-put_present addr (if ltb cur next then next else cur, now) (cur, t) s.entries
                present,
          );
          positive = h.positive;
        })
  | inl absent ↦ elim (Bool-cases (leb s.cap (length s.entries))) [
    | inl full ↦
        let (is_map, room) = evict-IsStore now s h in
        rw (advance, absent, full)
          (put-IsStore addr (next, now) (evict now s) is_map (omega (arith, room, evict-cap now s)))
    | inr room ↦
        rw (advance, absent, room) (put-IsStore addr (next, now) s h.is_map (ground (arith, room)))
  ]
]

pub new-IsStore : (cap ttl : ℕ) → IsStore (new cap ttl)
unfolding new IsMap
new-IsStore cap ttl = record { is_map = tt; within = omega arith; positive = ground arith }

pub remove-IsStore : (addr : Bytes) (s : PendingNonceStore) → IsStore s → IsStore (remove addr s)
unfolding remove
remove-IsStore addr s h = record {
  is_map = remove-IsMap addr s.entries h.is_map;
  within = omega (arith, h.within, length-remove-le addr s.entries);
  positive = h.positive;
}

-- The nonce that an advance to `next` leaves for a sender with that entry.
abbrev pub advanced : Option Entry → ℕ → ℕ
advanced none next = next
advanced (some (cur, t)) next = if ltb cur next then next else cur

lookup-advance :
    (now : ℕ) (addr : Bytes) (next : ℕ) (s : PendingNonceStore)
    → lookup (advance now addr next s).entries addr
      ≡ some (advanced (lookup s.entries addr) next, now)
unfolding advance
lookup-advance now addr next s = elim (Option-cases (lookup s.entries addr)) [
  | inr ((cur, t), present) ↦ rw (advance, present) (lookup-put_same addr _ s.entries)
  | inl absent ↦ rw (advance, absent) (lookup-put_same addr (next, now) _)
]

ttl-advance :
    (now : ℕ) (addr : Bytes) (next : ℕ) (s : PendingNonceStore)
    → (advance now addr next s).ttl ≡ s.ttl
unfolding advance evict
ttl-advance now addr next s = elim (Option-cases (lookup s.entries addr)) [
  | inr ((cur, t), present) ↦ rw (advance, present) refl
  | inl absent ↦ elim (Bool-cases (leb s.cap (length s.entries))) [
    | inl full ↦ rw (advance, absent, full) refl
    | inr room ↦ rw (advance, absent, room) refl
  ]
]

-- After an advance to `next` the sender's pending nonce is the larger of `next` and the nonce of its
-- entry, even of an entry that had expired, until the time to live has passed since the advance.
pub get_unexpired-advance :
    (now later : ℕ) (addr : Bytes) (next : ℕ) (s : PendingNonceStore)
    → get_unexpired later (advance now addr next s) addr
      ≡ (if leb s.ttl (later - now) then none else some (advanced (lookup s.entries addr) next))
unfolding get_unexpired
get_unexpired-advance now later addr next s =
    rw (get_unexpired, lookup-advance now addr next s, ttl-advance now addr next s) refl
