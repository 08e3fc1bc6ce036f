-- ===== src/Gateway/Db/Rows.antt =====
-- The rows of `txs` under an update and an insert: their hashes stay apart, and so do the
-- positions of the indexed ones.
use koinos_evm_engine.Base.{
  ℕ, ◌≡◌, ◌≢◌, sym, ap, ◌∙◌, false, Bool-cases, none, some, Option-cases, inl, inr, List, [], ◌∷◌,
  ◌++◌, All, bytes_eq, bytes_eq_refl, bytes_eq→eq, arith,
}
use koinos_evm_engine.Base.Words.{Bytes}
use koinos_evm_engine.Gateway.Db.{TxRow, find_tx, update_tx, insert_tx}

-- A row that is indexed at a place of a block.
abbrev pub IsPlaced : TxRow → ℕ → ℕ → Type 0
IsPlaced t height i = (t.block_height ≡ some height) × (t.tx_index ≡ some i)

abbrev pub Apart : TxRow → TxRow → Type 0
Apart t u = (height i : ℕ) → IsPlaced t height i → IsPlaced u height i → ⊥

-- Two rows have different hashes, and different places.
pub record Distinct (t u : TxRow) : Type 0 where
  pub hashes : t.eth_hash ≢ u.eth_hash
  pub places : Apart t u

unfoldable pub IsDistinct : List TxRow → Type 0
IsDistinct [] = Unit
IsDistinct (t ∷ ts) = All (Distinct t) ts × IsDistinct ts

pub All-map {ℓ κ μ} :
    {A : Type ℓ} (P : A → Type κ) (Q : A → Type μ) (f : (a : A) → P a → Q a) (xs : List A)
    → All P xs
    → All Q xs
All-map P Q f [] h = tt
All-map P Q f (x ∷ xs) (hx, h) = (f x hx, All-map P Q f xs h)

pub All-zip {ℓ κ μ} :
    {A : Type ℓ} (P : A → Type κ) (Q : A → Type μ) (xs : List A)
    → All P xs
    → All Q xs
    → All (λ x. P x × Q x) xs
All-zip P Q [] h k = tt
All-zip P Q (x ∷ xs) (hx, h) (kx, k) = ((hx, kx), All-zip P Q xs h k)

pub All-snoc {ℓ κ} :
    {A : Type ℓ} (P : A → Type κ) (xs : List A) (y : A) → All P xs → P y → All P (xs ++ (y ∷ []))
All-snoc P [] y h hy = (hy, tt)
All-snoc P (x ∷ xs) y (hx, h) hy = (hx, All-snoc P xs y h hy)

pub All-update_tx {κ} :
    (Q : TxRow → Type κ) (hash : Bytes) (set : TxRow → TxRow) (ts : List TxRow)
    → All (λ t. (t.eth_hash ≡ hash → Q (set t)) × (t.eth_hash ≢ hash → Q t)) ts
    → All Q (update_tx hash set ts)
unfolding update_tx
All-update_tx Q hash set [] h = tt
All-update_tx Q hash set (t ∷ ts) (ht, h) = elim (Bool-cases (bytes_eq t.eth_hash hash)) [
  | inl e ↦ rw e (ht.0 (bytes_eq→eq _ _ e), All-update_tx Q hash set ts h)
  | inr e ↦ rw e (ht.1 (λ same. absurd_eq same e), All-update_tx Q hash set ts h)
]
  where
    absurd_eq : t.eth_hash ≡ hash → bytes_eq t.eth_hash hash ≡ false → ⊥
    absurd_eq same e = cc (ap (bytes_eq t.eth_hash) same, e, bytes_eq_refl t.eth_hash)

Distinct-sym : {t u : TxRow} → Distinct t u → Distinct u t
Distinct-sym d = record {
  hashes = λ e. d.hashes (sym e);
  places = λ height i p q. d.places height i q p;
}

-- An update that keeps the hash, and puts a row apart from the others.
module _ {κ} (P : TxRow → Type κ) (hash : Bytes) (set : TxRow → TxRow)
    (keeps : (t : TxRow) → (set t).eth_hash ≡ t.eth_hash)
    (moves : (t u : TxRow) → P u → Apart t u → Apart (set t) u) where
  set-Distinct : (t u : TxRow) → P u → Distinct t u → Distinct (set t) u
  set-Distinct t u pu d = record {
    hashes = λ e. d.hashes (sym (keeps t) ∙ e);
    places = moves t u pu d.places;
  }

  pub update_tx-IsDistinct :
      (ts : List TxRow) → All P ts → IsDistinct ts → IsDistinct (update_tx hash set ts)
  unfolding update_tx IsDistinct
  update_tx-IsDistinct [] hp h = tt
  update_tx-IsDistinct (t ∷ ts) (pt, hp) (ht, h) = elim (Bool-cases (bytes_eq t.eth_hash hash)) [
    | inl e ↦ rw e (
      All-update_tx (Distinct (set t)) hash set ts (
          All-map (λ u. P u × Distinct t u) _
            (λ u k. (
              λ same. absurd (k.1.hashes (bytes_eq→eq _ _ e ∙ sym same)),
              λ other. set-Distinct t u k.0 k.1,
            ))
            ts (All-zip P (Distinct t) ts hp ht)),
      update_tx-IsDistinct ts hp h,
    )
    | inr e ↦ rw e (
      All-update_tx (Distinct t) hash set ts (
          All-map (Distinct t) _
            (λ u d. (λ same. Distinct-sym (set-Distinct u t pt (Distinct-sym d)), λ other. d)) ts
            ht),
      update_tx-IsDistinct ts hp h,
    )
  ]

pub find_tx-absent :
    (hash : Bytes) (ts : List TxRow) → find_tx hash ts ≡ none → All (λ t. t.eth_hash ≢ hash) ts
unfolding find_tx
find_tx-absent hash [] h = tt
find_tx-absent hash (t ∷ ts) h = elim (Bool-cases (bytes_eq t.eth_hash hash)) [
  | inl e ↦ absurd (ground (arith, e, h))
  | inr e ↦ (
    λ same. cc (ap (bytes_eq t.eth_hash) same, e, bytes_eq_refl t.eth_hash),
    find_tx-absent hash ts (ground (arith, e, h)),
  )
]

IsDistinct-snoc :
    (ts : List TxRow) (u : TxRow)
    → IsDistinct ts
    → All (λ t. Distinct t u) ts
    → IsDistinct (ts ++ (u ∷ []))
unfolding IsDistinct
IsDistinct-snoc [] u h k = (tt, tt)
IsDistinct-snoc (t ∷ ts) u (ht, h) (kt, k) =
    (All-snoc (Distinct t) ts u ht kt, IsDistinct-snoc ts u h k)

-- `INSERT … ON CONFLICT`: the row is apart from all others, and its update too.
pub insert_tx-IsDistinct {κ} :
    (P : TxRow → Type κ) (row : TxRow) (set : TxRow → TxRow)
    → ((t : TxRow) → (set t).eth_hash ≡ t.eth_hash)
    → ((t u : TxRow) → P u → Apart t u → Apart (set t) u)
    → ((t : TxRow) → P t → Apart t row)
    → (ts : List TxRow) → All P ts
    → IsDistinct ts
    → IsDistinct (insert_tx row set ts)
unfolding insert_tx
insert_tx-IsDistinct P row set keeps moves fresh ts hp h =
    elim (Option-cases (find_tx row.eth_hash ts)) [
      | inl e ↦
          rw (e, insert_tx)
            (IsDistinct-snoc ts row h (
              All-map (λ t. P t × (t.eth_hash ≢ row.eth_hash)) _
                (λ t k. record { hashes = k.1; places = fresh t k.0 }) ts
                (All-zip P _ ts hp (find_tx-absent row.eth_hash ts e))))
      | inr (t, e) ↦ rw (e, insert_tx) (update_tx-IsDistinct P row.eth_hash set keeps moves ts hp h)
    ]

pub All-insert_tx {κ} :
    (Q : TxRow → Type κ) (row : TxRow) (set : TxRow → TxRow) (ts : List TxRow)
    → Q row
    → ((t : TxRow) → Q t → Q (set t))
    → All Q ts
    → All Q (insert_tx row set ts)
unfolding insert_tx
All-insert_tx Q row set ts hr hs h = elim (Option-cases (find_tx row.eth_hash ts)) [
  | inl e ↦ rw (e, insert_tx) (All-snoc Q ts row h hr)
  | inr (t, e) ↦
      rw (e, insert_tx)
        (All-update_tx Q row.eth_hash set ts (All-map Q _ (λ u q. (λ _. hs u q, λ _. q)) ts h))
]
