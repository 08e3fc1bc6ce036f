-- ===== src/Gateway/Indexer/Cursor.antt =====
-- The cursor of a cycle is that of the longest run of entries that are settled for good.
use koinos_evm_engine.Base.{
  ℕ, ◌≡◌, ◌⊎◌, refl, sym, ap, ◌∙◌, Bool, true, false, inl, inr, Option, some, List, [], ◌∷◌, leb,
  if◌then◌else◌, arith,
}
use koinos_evm_engine.Base.Words.{Bytes}
use koinos_evm_engine.Gateway.Relay.{Answer, failed}
use koinos_evm_engine.Gateway.Indexer.{
  EntryOutcome, indexed, already_indexed, not_evm, Cycle, advance_to, advance,
}

-- How a call can end.
pub answered {ℓ} :
    {A : Type ℓ} (a : Answer A)
    → ((v : A) × (a ≡ Answer.ok v)) ⊎ (((e : Bytes) × (a ≡ failed e)) ⊎ (a ≡ Answer.panicked))
answered (Answer.ok v) = inl (v, refl)
answered (failed e) = inr (inl (e, refl))
answered Answer.panicked = inr (inr refl)

-- An entry that no later cycle has to see: it holds no transaction of the engine, or one that is in
-- the store for a block that is irreversible.
unfoldable pub is_final : ℕ → Answer EntryOutcome → Bool
is_final lib (Answer.ok (indexed h)) = leb h lib
is_final lib (Answer.ok (already_indexed h)) = leb h lib
is_final lib (Answer.ok not_evm) = true
is_final lib (failed e) = false
is_final lib Answer.panicked = false

-- The entries with their outcomes, in the order of the cycle.
abbrev pub Outcomes : Type 0
Outcomes = List (ℕ × Answer EntryOutcome)

-- The sequence number of the last entry before the first that is not final.
unfoldable pub reached : ℕ → Option ℕ → Outcomes → Option ℕ
reached lib cursor [] = cursor
reached lib cursor ((seq, o) ∷ outs) =
    let rest = reached lib (some seq) outs in if is_final lib o then rest else cursor

-- Where a cycle stands: a frozen cursor stays.
unfoldable pub follow : ℕ → Cycle → Outcomes → Option ℕ
follow lib c outs =
    if c.cursor_frozen then c.cursor_candidate else reached lib c.cursor_candidate outs

pub follow-nil : (lib : ℕ) (c : Cycle) → follow lib c [] ≡ c.cursor_candidate
unfolding follow reached
follow-nil lib c = ground arith

follow-advance_to :
    (lib seq h : ℕ) (c : Cycle) (o : Answer EntryOutcome) (outs : Outcomes)
    → is_final lib o ≡ leb h lib
    → follow lib (advance_to lib seq h c) outs ≡ follow lib c ((seq, o) ∷ outs)
unfolding follow reached advance_to
follow-advance_to lib seq h c o outs e = ground (arith, e)

pub follow-advance :
    (lib seq : ℕ) (o : Answer EntryOutcome) (c c' : Cycle) (outs : Outcomes)
    → advance lib seq o c ≡ some c'
    → follow lib c' outs ≡ follow lib c ((seq, o) ∷ outs)
unfolding advance is_final
follow-advance lib seq (Answer.ok (indexed h)) c c' outs e =
    ap (λ (d : Cycle). follow lib d outs) (sym (cc e)) ∙ follow-advance_to lib seq h c _ outs refl
follow-advance lib seq (Answer.ok (already_indexed h)) c c' outs e =
    ap (λ (d : Cycle). follow lib d outs) (sym (cc e)) ∙ follow-advance_to lib seq h c _ outs refl
follow-advance lib seq (Answer.ok not_evm) c c' outs e = unfold follow reached in ground (arith, e)
follow-advance lib seq (failed t) c c' outs e = unfold follow reached in ground (arith, e)
follow-advance lib seq Answer.panicked c c' outs e = cc e

-- The entry's sequence number is the caller's.
pub advance-next_seq :
    (lib seq : ℕ) (o : Answer EntryOutcome) (c d : Cycle)
    → advance lib seq o c ≡ some d
    → d.next_seq ≡ c.next_seq
unfolding advance advance_to
advance-next_seq lib seq (Answer.ok (indexed h)) c d e = ground (arith, e)
advance-next_seq lib seq (Answer.ok (already_indexed h)) c d e = ground (arith, e)
advance-next_seq lib seq (Answer.ok not_evm) c d e = ground (arith, e)
advance-next_seq lib seq (failed t) c d e = ground (arith, e)
advance-next_seq lib seq Answer.panicked c d e = cc e
