-- ===== src/Gateway/EthTx/Rlp/Items.antt =====
-- A list that the gateway wraps is taken apart into its items.
use koinos_evm_engine.Base.{
  ℕ, zero, suc, ◌+◌, ◌-◌, ◌*◌, ◌^◌, ◌<◌, ◌≤◌, ◌≡◌, refl, sym, ap, ◌∙◌, bit_or, Bool, true, some,
  Option-cases, Bool-cases, inl, inr, List, [], ◌∷◌, ◌++◌, take, drop, length, length-append,
  take_all, take-append_length, drop-append_length, drop-drop, length-drop, take-append_eq,
  drop-append_eq, All, leb, ◌==◌, arith,
}
use koinos_evm_engine.Base.Words.{
  Bytes, IsBytes, be_onto, be_value, to_be, length-to_be, to_be-IsBytes, be_value-to_be,
  shift_in_byte,
}
use koinos_evm_engine.Gateway.EthTx.Rlp.{
  read_length, rlp_header, checked_add, items_loop, from_list, strip_zeros, total, concat,
  list_header, wrap_rlp_list,
}

-- A byte string that is one item: its header accounts for all of its bytes.
pub record IsItem (x : Bytes) : Type 0 where
  pub is_list : Bool
  pub size : ℕ
  pub start : ℕ
  pub header : rlp_header x ≡ some (is_list, size, start)
  pub all : start + size ≡ length x
  pub nonempty : 1 ≤ length x

take-append_short : (n : ℕ) (xs ys : Bytes) → n ≤ length xs → take n (xs ++ ys) ≡ take n xs
take-append_short zero xs ys h = refl
take-append_short (suc n) [] ys h = absurd (omega (arith, h))
take-append_short (suc n) (x ∷ xs) ys h = ap (◌∷◌ x) (take-append_short n xs ys (omega (arith, h)))

-- The header of an item does not depend on what follows.
rlp_header-append :
    (x ys : Bytes) (l : Bool) (n s : ℕ)
    → rlp_header x ≡ some (l, n, s)
    → rlp_header (x ++ ys) ≡ some (l, n, s)
unfolding rlp_header
rlp_header-append [] ys l n s h = cc
rlp_header-append (b ∷ rest) ys l n s h = ground (
  arith,
  length-append rest ys,
  take-append_short (b - 0xb7) rest ys,
  take-append_short (b - 0xf7) rest ys,
)

items_loop_end :
    (fuel : ℕ) (payload : Bytes) (pos : ℕ)
    → length payload ≤ pos
    → items_loop fuel payload pos ≡ some []
unfolding items_loop
items_loop_end zero payload pos h = refl
items_loop_end (suc fuel) payload pos h = ground arith

items_loop_step :
    (fuel : ℕ) (payload : Bytes) (pos k n s : ℕ) (l : Bool) (rest : List Bytes)
    → rlp_header (drop pos payload) ≡ some (l, n, s)
    → s + n ≡ k
    → 1 ≤ k
    → pos + k ≤ length payload
    → length payload < 2 ^ 64
    → items_loop fuel payload (pos + k) ≡ some rest
    → items_loop (suc fuel) payload pos ≡ some (take k (drop pos payload) ∷ rest)
unfolding items_loop checked_add
items_loop_step fuel payload pos k n s l rest header sum pos_k inside small more =
    ground (arith, sum, inside, more)

items_loop-concat :
    (fuel : ℕ) (payload : Bytes) (pos : ℕ) (items : List Bytes)
    → All IsItem items
    → drop pos payload ≡ concat items
    → length payload < 2 ^ 64
    → length (concat items) ≤ fuel
    → items_loop fuel payload pos ≡ some items
unfolding concat
items_loop-concat fuel payload pos [] h e small hf =
    items_loop_end fuel payload pos (omega (arith, ap length e, length-drop pos payload))
items_loop-concat zero payload pos (x ∷ items) (hx, h) e small hf =
    absurd (omega (arith, hx.nonempty, length-append x (concat items)))
items_loop-concat (suc fuel) payload pos (x ∷ items) (hx, h) e small hf =
    items_loop_step fuel payload pos (length x) hx.size hx.start hx.is_list items
      (ap rlp_header e ∙ rlp_header-append x (concat items) hx.is_list hx.size hx.start hx.header)
      hx.all hx.nonempty
      (omega
        (arith, ap length e, length-drop pos payload, length-append x (concat items), hx.nonempty))
      small
      (items_loop-concat fuel payload (pos + length x) items h
        (sym (drop-drop pos (length x) payload)
          ∙ ap (drop (length x)) e
          ∙ drop-append_length x (concat items))
        small (omega (arith, hx.nonempty, length-append x (concat items))))
    ∙ ap (λ (y : Bytes). some (y ∷ items))
        (ap (take (length x)) e ∙ take-append_length x (concat items))

be_onto_ge : (acc : ℕ) (bs : Bytes) → acc ≤ be_onto acc bs
unfolding be_onto
be_onto_ge acc [] = omega arith
be_onto_ge acc (b ∷ bs) = omega (arith, be_onto_ge (acc * 256 + b) bs)

-- The bytes of a length are read as the number they stand for.
pub read_length_eq :
    (acc : ℕ) (bs : Bytes)
    → IsBytes bs
    → be_onto acc bs < 2 ^ 64
    → read_length acc bs ≡ be_onto acc bs
unfolding read_length be_onto
read_length_eq acc [] h small = refl
read_length_eq acc (b ∷ bs) (hb, h) small =
    ap (λ (n : ℕ). read_length n bs)
      (ap (λ (n : ℕ). bit_or n b) (omega (arith, be_onto_ge (acc * 256 + b) bs))
        ∙ shift_in_byte acc b hb)
    ∙ read_length_eq (acc * 256 + b) bs h small

be_onto-strip_zeros : (bs : Bytes) → be_onto 0 (strip_zeros bs) ≡ be_onto 0 bs
unfolding be_onto strip_zeros
be_onto-strip_zeros [] = refl
be_onto-strip_zeros (b ∷ bs) = elim (Bool-cases (b == 0)) [
  | inl z ↦ rw z (be_onto-strip_zeros bs ∙ ap (λ (n : ℕ). be_onto n bs) (ground (arith, z)))
  | inr nz ↦ rw nz refl
]

pub strip_zeros-IsBytes : (bs : Bytes) → IsBytes bs → IsBytes (strip_zeros bs)
unfolding strip_zeros
strip_zeros-IsBytes [] h = tt
strip_zeros-IsBytes (b ∷ bs) (hb, h) = elim (Bool-cases (b == 0)) [
  | inl z ↦ rw z (strip_zeros-IsBytes bs h)
  | inr nz ↦ rw nz (hb, h)
]

length-strip_zeros-le : (bs : Bytes) → length (strip_zeros bs) ≤ length bs
unfolding strip_zeros
length-strip_zeros-le [] = omega arith
length-strip_zeros-le (b ∷ bs) = ground (arith, length-strip_zeros-le bs)

-- The bytes of a number that is not 0, its leading zeros left out.
pub be_onto-strip_to_be : (n : ℕ) → n < 2 ^ 64 → be_onto 0 (strip_zeros (to_be 8 n)) ≡ n
unfolding be_value
be_onto-strip_to_be n h = be_onto-strip_zeros (to_be 8 n) ∙ be_value-to_be 8 n h

pub strip_to_be_size :
    (n : ℕ)
    → n < 2 ^ 64
    → 1 ≤ n
    → (1 ≤ length (strip_zeros (to_be 8 n))) × (length (strip_zeros (to_be 8 n)) ≤ 8)
unfolding be_onto
strip_to_be_size n h pos = (
  go (strip_zeros (to_be 8 n)) (be_onto-strip_to_be n h),
  omega (arith, length-strip_zeros-le (to_be 8 n), length-to_be 8 n),
)
  where
    go : (bs : Bytes) → be_onto 0 bs ≡ n → 1 ≤ length bs
    go [] e = absurd (omega (arith, e))
    go (b ∷ bs) e = omega arith

length-concat : (items : List Bytes) → length (concat items) ≡ total items
unfolding concat total
length-concat [] = refl
length-concat (x ∷ items) = omega (arith, length-append x (concat items), length-concat items)

short_header :
    (n : ℕ) (payload : Bytes) → n ≤ 55 → rlp_header ((0xc0 + n) ∷ payload) ≡ some (true, n, 1)
unfolding rlp_header
short_header n payload h = ground arith

long_header :
    (k : ℕ) (lb payload : Bytes)
    → length lb ≡ k
    → 1 ≤ k
    → k ≤ 8
    → rlp_header ((0xf7 + k) ∷ (lb ++ payload)) ≡ some (true, read_length 0 lb, 1 + k)
unfolding rlp_header
long_header k lb payload e low high = ground (
  arith,
  length-append lb payload,
  take-append_eq (0xf7 + k - 0xf7) lb payload (omega (arith, e)),
)

-- The header of a list with its payload behind it.
header_of_list :
    (n : ℕ) (payload : Bytes)
    → n < 2 ^ 63
    → (s : ℕ) × (rlp_header (list_header n ++ payload) ≡ some (true, n, s))
      × (length (list_header n) ≡ s)
      × (s ≤ 9)
unfolding list_header
header_of_list n payload small = elim (Bool-cases (leb n 55)) [
  | inl short ↦ rw short (1, short_header n payload (ground (arith, short)), refl, omega arith)
  | inr long ↦
      let lb : Bytes = strip_zeros (to_be 8 n) in
      let sizes = strip_to_be_size n (omega arith) (ground (arith, long)) in
      rw long (
        1 + length lb,
        long_header (length lb) lb payload refl sizes.0 sizes.1
            ∙ ap (λ (m : ℕ). some (true, m, 1 + length lb)) (length_read n (omega arith)),
        omega arith,
        omega (arith, sizes.1),
      )
]
  where
    length_read : (n : ℕ) → n < 2 ^ 64 → read_length 0 (strip_zeros (to_be 8 n)) ≡ n
    length_read n h =
        read_length_eq 0 (strip_zeros (to_be 8 n))
          (strip_zeros-IsBytes (to_be 8 n) (to_be-IsBytes 8 n))
          (omega (arith, be_onto-strip_to_be n h))
        ∙ be_onto-strip_to_be n h

-- The items behind a list's header, given where the payload starts.
from_list_of :
    (head payload : Bytes) (n s : ℕ) (items : List Bytes)
    → rlp_header (head ++ payload) ≡ some (true, n, s)
    → length head ≡ s
    → length payload ≡ n
    → s + n < 2 ^ 64
    → items_loop (length payload) payload 0 ≡ some items
    → from_list (head ++ payload) ≡ some items
unfolding from_list checked_add
from_list_of head payload n s items header hs hn small loop = ground (
  arith,
  header,
  length-append head payload,
  drop-append_eq s head payload hs,
  take_all n payload hn,
  loop,
)

-- A list that `wrap_rlp_list` makes of items is taken apart by `from_list` into the same items, if
-- each of them is one RLP item and the list is shorter than 2^63 bytes.
pub from_list-wrap_rlp_list :
    (items : List Bytes)
    → All IsItem items
    → total items < 2 ^ 63
    → from_list (wrap_rlp_list items) ≡ some items
unfolding wrap_rlp_list
from_list-wrap_rlp_list items h small =
    let (s, header, size, short) = header_of_list (total items) (concat items) small in
    from_list_of (list_header (total items)) (concat items) (total items) s items header size
      (length-concat items) (omega (arith, short))
      (items_loop-concat (length (concat items)) (concat items) 0 items h refl
        (omega (arith, length-concat items)) (omega arith))

header_moves : (x : Bytes) (l : Bool) (n s : ℕ) → rlp_header x ≡ some (l, n, s) → 1 ≤ s + n
unfolding rlp_header
header_moves [] l n s h = cc
header_moves (b ∷ rest) l n s h = ground (arith, h)

-- With rounds for the bytes that are left, the number of rounds makes no difference.
items_loop_enough :
    (f g : ℕ) (payload : Bytes) (pos : ℕ)
    → length payload ≤ pos + f
    → length payload ≤ pos + g
    → items_loop f payload pos ≡ items_loop g payload pos
unfolding items_loop checked_add
items_loop_enough zero g payload pos hf hg = sym (items_loop_end g payload pos (omega (arith, hf)))
items_loop_enough (suc f) zero payload pos hf hg =
    items_loop_end (suc f) payload pos (omega (arith, hg))
items_loop_enough (suc f) (suc g) payload pos hf hg =
    elim (Option-cases (rlp_header (drop pos payload))) [
      | inl fails ↦ ground (arith, fails)
      | inr ((l, n, s), header) ↦
          let moved = header_moves (drop pos payload) l n s header in
          let next =
            items_loop_enough f g payload (pos + (s + n)) (omega (arith, hf, moved))
              (omega (arith, hg, moved)) in
          ground (arith, header, next)
    ]

-- The loop of `from_list` ends: a round for each byte of the payload is enough, and with more of
-- them it reads the same items.
pub items_loop-enough :
    (more : ℕ) (payload : Bytes)
    → items_loop (length payload + more) payload 0 ≡ items_loop (length payload) payload 0
items_loop-enough more payload =
    items_loop_enough (length payload + more) (length payload) payload 0 (omega arith) (omega arith)
