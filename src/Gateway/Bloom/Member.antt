-- ===== src/Gateway/Bloom/Member.antt =====
-- The bloom filter has no false negatives.
use koinos_evm_engine.Base.{
  ℕ, zero, suc, ◌-◌, ◌/◌, ◌%◌, ◌^◌, ◌<◌, ◌≤◌, ◌≡◌, refl, sym, ap, ◌∙◌, bit_or, inl, inr, List, [],
  ◌∷◌, length, get_or, arith,
}
use koinos_evm_engine.Base.Words.{Bytes}
use koinos_evm_engine.Base.Bits.{bit_or_lowest}
use koinos_evm_engine.Gateway.Bloom.{
  bloom_bytes, Bloom, default, or_at, set_bit, position, union, accrue, accrue_all, log_bloom,
  receipt_bloom,
}
use mathlib.Core.List.Memᴰ
use mathlib.Core.List.{Memᴰ}
use mathlib.Core.Path.{subst}
use native.Mathlib.Nat.{pow-suc, div-div-eq-div-mul}
use Prim.Native.Nat.{max}

-- Bit `k` of a byte is set.
abbrev Bit : ℕ → ℕ → Type 0
Bit b k = b / 2 ^ k % 2 ≡ 1

half_or :
    (a b : ℕ) → (bit_or a b / 2 ≡ bit_or (a / 2) (b / 2)) × (bit_or a b % 2 ≡ max (a % 2) (b % 2))
half_or a b = (omega (arith, bit_or_lowest a b), omega (arith, bit_or_lowest a b))

half_pow : (b k : ℕ) → b / 2 ^ suc k ≡ b / 2 / 2 ^ k
half_pow b k =
    ap (λ (m : ℕ). b / m) (omega (arith, pow-suc 2 k)) ∙ sym (div-div-eq-div-mul b 2 (2 ^ k))

or_left : (k a b : ℕ) → Bit a k → Bit (bit_or a b) k
or_left zero a b h = omega (arith, h, (half_or a b).1)
or_left (suc k) a b h =
    ap (λ (n : ℕ). n % 2) (half_pow (bit_or a b) k ∙ ap (λ (n : ℕ). n / 2 ^ k) (half_or a b).0)
    ∙ or_left k (a / 2) (b / 2) (ap (λ (n : ℕ). n % 2) (sym (half_pow a k)) ∙ h)

or_right : (k a b : ℕ) → Bit b k → Bit (bit_or a b) k
or_right zero a b h = omega (arith, h, (half_or a b).1)
or_right (suc k) a b h =
    ap (λ (n : ℕ). n % 2) (half_pow (bit_or a b) k ∙ ap (λ (n : ℕ). n / 2 ^ k) (half_or a b).0)
    ∙ or_right k (a / 2) (b / 2) (ap (λ (n : ℕ). n % 2) (sym (half_pow b k)) ∙ h)

own-Bit : (k : ℕ) → Bit (2 ^ k) k
own-Bit zero = refl
own-Bit (suc k) =
    ap (λ (n : ℕ). n % 2)
      (half_pow (2 ^ suc k) k ∙ ap (λ (n : ℕ). n / 2 ^ k) (omega (arith, pow-suc 2 k)))
    ∙ own-Bit k

or_at_keeps :
    (i mask j k : ℕ) (bs : Bytes) → Bit (get_or bs j 0) k → Bit (get_or (or_at i mask bs) j 0) k
unfolding or_at
or_at_keeps i mask j k [] h = h
or_at_keeps zero mask zero k (b ∷ bs) h = or_left k b mask h
or_at_keeps zero mask (suc j) k (b ∷ bs) h = h
or_at_keeps (suc i) mask zero k (b ∷ bs) h = h
or_at_keeps (suc i) mask (suc j) k (b ∷ bs) h = or_at_keeps i mask j k bs h

or_at_sets : (i k : ℕ) (bs : Bytes) → i < length bs → Bit (get_or (or_at i (2 ^ k) bs) i 0) k
unfolding or_at
or_at_sets i k [] h = absurd (omega (arith, h))
or_at_sets zero k (b ∷ bs) h = or_right k b (2 ^ k) (own-Bit k)
or_at_sets (suc i) k (b ∷ bs) h = or_at_sets i k bs (omega (arith, h))

length-or_at : (i mask : ℕ) (bs : Bytes) → length (or_at i mask bs) ≡ length bs
unfolding or_at
length-or_at i mask [] = refl
length-or_at zero mask (b ∷ bs) = refl
length-or_at (suc i) mask (b ∷ bs) = omega (arith, length-or_at i mask bs)

-- The bit of a position.
abbrev pub HasBit : Bloom → ℕ → Type 0
HasBit bloom idx = Bit (get_or bloom (bloom_bytes - 1 - idx / 8) 0) (idx % 8)

-- Every bit of one filter is in the other, which has the same size.
pub record Grows (b b' : Bloom) : Type 0 where
  pub keeps : (idx : ℕ) → HasBit b idx → HasBit b' idx
  pub size : length b' ≡ length b

Grows-trans : {a b c : Bloom} → Grows a b → Grows b c → Grows a c
Grows-trans h k = record { keeps = λ idx x. k.keeps idx (h.keeps idx x); size = k.size ∙ h.size }

set_bit-Grows : (idx : ℕ) (b : Bloom) → Grows b (set_bit idx b)
unfolding set_bit
set_bit-Grows idx b = record {
  keeps = λ j h.
      or_at_keeps (bloom_bytes - 1 - idx / 8) (2 ^ (idx % 8)) (bloom_bytes - 1 - j / 8) (j % 8) b h;
  size = length-or_at (bloom_bytes - 1 - idx / 8) (2 ^ (idx % 8)) b;
}

set_bit-HasBit : (idx : ℕ) (b : Bloom) → length b ≡ bloom_bytes → HasBit (set_bit idx b) idx
unfolding set_bit
set_bit-HasBit idx b h = or_at_sets (bloom_bytes - 1 - idx / 8) (idx % 8) b (omega (arith, h))

-- A bit of either byte string is in the union.
union_left : (as' bs : Bytes) (j k : ℕ) → Bit (get_or as' j 0) k → Bit (get_or (union as' bs) j 0) k
unfolding union
union_left [] bs j k h = h
union_left (a ∷ as') [] j k h = h
union_left (a ∷ as') (b ∷ bs) zero k h = or_left k a b h
union_left (a ∷ as') (b ∷ bs) (suc j) k h = union_left as' bs j k h

union_right :
    (as' bs : Bytes) (j k : ℕ)
    → length bs ≤ length as'
    → Bit (get_or bs j 0) k
    → Bit (get_or (union as' bs) j 0) k
unfolding union
union_right [] [] j k le h = h
union_right [] (b ∷ bs) j k le h = absurd (omega (arith, le))
union_right (a ∷ as') [] j k le h = absurd (no_bit k h)
  where
    no_bit : (k : ℕ) → Bit 0 k → ⊥
    no_bit k e = ground (arith, e)
union_right (a ∷ as') (b ∷ bs) zero k le h = or_right k a b h
union_right (a ∷ as') (b ∷ bs) (suc j) k le h = union_right as' bs j k (omega (arith, le)) h

length-union : (as' bs : Bytes) → length (union as' bs) ≡ length as'
unfolding union
length-union [] bs = refl
length-union (a ∷ as') [] = refl
length-union (a ∷ as') (b ∷ bs) = omega (arith, length-union as' bs)

union-Grows_left : (b c : Bloom) → Grows b (union b c)
union-Grows_left b c = record {
  keeps = λ idx h. union_left b c (bloom_bytes - 1 - idx / 8) (idx % 8) h;
  size = length-union b c;
}

union-Grows_right : (b c : Bloom) → length c ≡ length b → Grows c (union b c)
union-Grows_right b c e = record {
  keeps = λ idx h. union_right b c (bloom_bytes - 1 - idx / 8) (idx % 8) (omega (arith, e)) h;
  size = length-union b c ∙ sym e;
}

default_size : length default ≡ bloom_bytes
default_size = refl

module _ (keccak256 : Bytes → Bytes) where
  -- The three bits of an element are set: the filter may hold it.
  pub record MayHold (bloom : Bloom) (element : Bytes) : Type 0 where
    pub bit0 : HasBit bloom (position (keccak256 element) 0)
    pub bit1 : HasBit bloom (position (keccak256 element) 1)
    pub bit2 : HasBit bloom (position (keccak256 element) 2)

  held : {b b' : Bloom} {e : Bytes} → Grows b b' → MayHold b e → MayHold b' e
  held g h = record { bit0 = g.keeps _ h.bit0; bit1 = g.keeps _ h.bit1; bit2 = g.keeps _ h.bit2 }

  accrue-Grows : (e : Bytes) (b : Bloom) → Grows b (accrue keccak256 e b)
  unfolding accrue
  accrue-Grows e b =
      Grows-trans (set_bit-Grows _ b) (Grows-trans (set_bit-Grows _ _) (set_bit-Grows _ _))

  accrue-MayHold :
      (e : Bytes) (b : Bloom) → length b ≡ bloom_bytes → MayHold (accrue keccak256 e b) e
  unfolding accrue
  accrue-MayHold e b h =
      let h₁ = set_bit-Grows (position (keccak256 e) 0) b in
      let h₂ = set_bit-Grows (position (keccak256 e) 1) (set_bit (position (keccak256 e) 0) b) in
      let h₃ =
        set_bit-Grows (position (keccak256 e) 2)
          (set_bit (position (keccak256 e) 1) (set_bit (position (keccak256 e) 0) b)) in
      record {
        bit0 = h₃.keeps _ (h₂.keeps _ (set_bit-HasBit _ b h));
        bit1 = h₃.keeps _ (set_bit-HasBit _ _ (h₁.size ∙ h));
        bit2 = set_bit-HasBit _ _ (h₂.size ∙ h₁.size ∙ h);
      }

  accrue_all-Grows : (topics : List Bytes) (b : Bloom) → Grows b (accrue_all keccak256 topics b)
  unfolding accrue_all
  accrue_all-Grows [] b = record { keeps = λ idx h. h; size = refl }
  accrue_all-Grows (t ∷ topics) b =
      Grows-trans (accrue-Grows t b) (accrue_all-Grows topics (accrue keccak256 t b))

  accrue_all-MayHold :
      (topics : List Bytes) (b : Bloom) (e : Bytes)
      → length b ≡ bloom_bytes
      → Memᴰ e topics
      → MayHold (accrue_all keccak256 topics b) e
  unfolding accrue_all
  accrue_all-MayHold [] b e h m = absurd (Memᴰ.not-nil m)
  accrue_all-MayHold (t ∷ topics) b e h m = elim (Memᴰ.cases_cons m) [
    | inl same ↦
        held (accrue_all-Grows topics (accrue keccak256 t b)) (
          subst (λ (x : Bytes). MayHold (accrue keccak256 t b) x) (sym same) (accrue-MayHold t b h))
    | inr behind ↦
        accrue_all-MayHold topics (accrue keccak256 t b) e ((accrue-Grows t b).size ∙ h) behind
  ]

  length-log_bloom :
      (address : Bytes) (topics : List Bytes)
      → length (log_bloom keccak256 address topics) ≡ bloom_bytes
  unfolding log_bloom
  length-log_bloom address topics =
      (accrue_all-Grows topics (accrue keccak256 address default)).size
      ∙ (accrue-Grows address default).size
      ∙ default_size

  log_bloom-MayHold :
      (address : Bytes) (topics : List Bytes) (e : Bytes)
      → Memᴰ e (address ∷ topics)
      → MayHold (log_bloom keccak256 address topics) e
  unfolding log_bloom accrue_all
  log_bloom-MayHold address topics e m =
      accrue_all-MayHold (address ∷ topics) default e default_size m

  receipt_bloom-Grows :
      (logs : List (Bytes × List Bytes)) (b : Bloom) → Grows b (receipt_bloom keccak256 logs b)
  unfolding receipt_bloom
  receipt_bloom-Grows [] b = record { keeps = λ idx h. h; size = refl }
  receipt_bloom-Grows ((address, topics) ∷ logs) b =
      Grows-trans (union-Grows_left b (log_bloom keccak256 address topics))
        (receipt_bloom-Grows logs _)

  -- The filter of a receipt has no false negative: for every log, the three bits of its address and
  -- of each of its topics are set.
  pub receipt_bloom-MayHold :
      (logs : List (Bytes × List Bytes)) (b : Bloom) (address : Bytes) (topics : List Bytes)
      (e : Bytes)
      → length b ≡ bloom_bytes
      → Memᴰ (address, topics) logs
      → Memᴰ e (address ∷ topics)
      → MayHold (receipt_bloom keccak256 logs b) e
  unfolding receipt_bloom
  receipt_bloom-MayHold [] b address topics e h m k = absurd (Memᴰ.not-nil m)
  receipt_bloom-MayHold ((a, ts) ∷ logs) b address topics e h m k =
      let one = log_bloom keccak256 a ts in
      elim (Memᴰ.cases_cons m) [
        | inl same ↦ held (receipt_bloom-Grows logs (union b one)) (
            held (union-Grows_right b one (length-log_bloom a ts ∙ sym h)) (
              subst (λ (l : Bytes × List Bytes). MayHold (log_bloom keccak256 l.0 l.1) e) same
                (log_bloom-MayHold address topics e k)))
        | inr behind ↦
            receipt_bloom-MayHold logs (union b one) address topics e
              ((union-Grows_left b one).size ∙ h) behind k
      ]
