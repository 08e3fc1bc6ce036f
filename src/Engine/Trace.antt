-- ===== src/Engine/Trace.antt =====
-- What a run of the contract does to the chain: the system calls between two worlds of the host, by
-- their ids. A world is reached from another by a step for each `invoke_system_call`.
pub mod Calls
pub mod Components
pub mod Views
pub mod Gates
use koinos_evm_engine.Base.{ℕ, ◌≡◌, refl, Bool, true, false, not, ◌||◌, ◌==◌}
use koinos_evm_engine.Base.Words.{Bytes}
use koinos_evm_engine.Engine.Koinos.{
  sc_get_head_info, sc_put_object, sc_remove_object, sc_get_object, sc_log, sc_event, sc_hash,
  sc_recover_public_key, sc_exit, sc_get_contract_id, Host, Sys,
}

-- The calls that change the objects, and those that are seen from outside.
abbrev pub writes : ℕ → Bool
writes id = id == sc_put_object || id == sc_remove_object

abbrev pub is_visible : ℕ → Bool
is_visible id = writes id || id == sc_event

abbrev pub no_writes : ℕ → Bool
no_writes id = not (writes id)

abbrev pub is_quiet : ℕ → Bool
is_quiet id = not (is_visible id)

-- The calls that a read makes are allowed.
pub record AllowsReads (allows : ℕ → Bool) : Type 0 where
  pub get : allows sc_get_object ≡ true
  pub log : allows sc_log ≡ true
  pub hash : allows sc_hash ≡ true
  pub recover : allows sc_recover_public_key ≡ true
  pub contract_id : allows sc_get_contract_id ≡ true
  pub head : allows sc_get_head_info ≡ true
  pub exit : allows sc_exit ≡ true

abbrev pub no_writes-AllowsReads : AllowsReads no_writes
no_writes-AllowsReads = record {
  get = refl;
  log = refl;
  hash = refl;
  recover = refl;
  contract_id = refl;
  head = refl;
  exit = refl;
}

abbrev pub is_quiet-AllowsReads : AllowsReads is_quiet
is_quiet-AllowsReads = record {
  get = refl;
  log = refl;
  hash = refl;
  recover = refl;
  contract_id = refl;
  head = refl;
  exit = refl;
}

module _ (host : Host) (allows : ℕ → Bool) where
  -- The second world is reached from the first by allowed system calls.
  pub data Reaches : host.World → host.World → Type 0 where
    done : (w : host.World) → Reaches w w
    step :
        (id size : ℕ) (args : Bytes) {w w' : host.World}
        → allows id ≡ true
        → Reaches (host.invoke_system_call id size args w).1 w'
        → Reaches w w'

  -- A run makes allowed system calls only.
  pub record Only {ℓ} {A : Type ℓ} (m : Sys host.World A) : Type 0 where
    pub reaches : (w : host.World) → Reaches w (m w).1
