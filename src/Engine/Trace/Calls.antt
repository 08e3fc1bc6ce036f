-- ===== src/Engine/Trace/Calls.antt =====
-- The wrappers of `mod sys` make the system calls that they are named for.
use koinos_evm_engine.Base.{
  ℕ, ◌≡◌, refl, ◌==◌, Bool, true, false, List, [], is_empty, if◌then◌else◌,
}
use koinos_evm_engine.Base.Words.{Bytes}
use koinos_evm_engine.Engine.Proto.{encode_bytes_field}
use koinos_evm_engine.Engine.Koinos.{
  sc_event, sc_log, sc_get_object, sc_hash, sc_exit, sc_recover_public_key, sc_get_contract_id,
  sc_get_head_info, Host, Reply, Outcome, returned, exited, pure, go_on, ◌>>=◌, ObjectSpace,
}
use koinos_evm_engine.Engine.Sys.{
  Run, raw_log, exit_with, call_answer, must_answer, call_system_sized, call_system,
  call_system_small, call_system_must, exit_success, exit_error, log, event, get_object, hash,
  recover_public_key, get_contract_id, get_head_info, contract_zone_missing, contract_zone,
  engine_space,
}
use koinos_evm_engine.Engine.Trace.{AllowsReads, Reaches, done, step, Only}

module _ (host : Host) (allows : ℕ → Bool) where
  pub Reaches-trans :
      {u v w : host.World}
      → Reaches host allows u v
      → Reaches host allows v w
      → Reaches host allows u w
  Reaches-trans (done w) k = k
  Reaches-trans (step id size args a h) k = step id size args a (Reaches-trans h k)

  pub go_on-Only {ℓ κ} :
      {A : Type ℓ} {B : Type κ} (r : Outcome A × host.World) (f : A → Run host B)
      → ((a : A) → Only host allows (f a))
      → Reaches host allows r.1 (go_on r f).1
  go_on-Only (returned a, w) f h = (h a).reaches w
  go_on-Only (exited args, w) f h = done w

  pub bind-Only {ℓ κ} :
      {A : Type ℓ} {B : Type κ} (m : Run host A) (f : A → Run host B)
      → Only host allows m
      → ((a : A) → Only host allows (f a))
      → Only host allows (m >>= f)
  bind-Only m f hm hf = record {
    reaches = λ w. Reaches-trans (hm.reaches w) (go_on-Only (m w) f hf);
  }

  pub pure-Only {ℓ} : {A : Type ℓ} (a : A) → Only host allows (pure a)
  pure-Only a = record { reaches = λ w. done w }

  pub if-Only {ℓ} :
      {A : Type ℓ} (b : Bool) (m k : Run host A)
      → Only host allows m
      → Only host allows k
      → Only host allows (if b then m else k)
  if-Only true m k hm hk = hm
  if-Only false m k hm hk = hk

  -- A first case that does not arise.
  pub else-Only {ℓ} :
      {A : Type ℓ} (b : Bool) (m k : Run host A)
      → ¬ (b ≡ true)
      → Only host allows k
      → Only host allows (if b then m else k)
  else-Only true m k n hk = absurd (n refl)
  else-Only false m k n hk = hk

  pub raw_log-Only :
      allows sc_log ≡ true → (message : Bytes) → Only host allows (raw_log host message)
  unfolding raw_log
  raw_log-Only a message = record {
    reaches = λ w. step sc_log 64 (encode_bytes_field [] 1 message) a (done _);
  }

  pub exit_with-Only {ℓ} :
      (A : Type ℓ)
      → allows sc_exit ≡ true
      → (size : ℕ) (args : Bytes) → Only host allows (exit_with host {A = A} size args)
  unfolding exit_with
  exit_with-Only A a size args = record { reaches = λ w. step sc_exit size args a (done _) }

  call_answer-Only :
      allows sc_log ≡ true → (id : ℕ) (reply : Reply) → Only host allows (call_answer host id reply)
  unfolding call_answer
  call_answer-Only l id reply =
      if-Only (reply.rc == 0) _ _ (pure-Only _)
        (bind-Only _ _ (raw_log-Only l _) (λ u. pure-Only _))

  pub call_system_sized-Only :
      allows sc_log ≡ true
      → (size id : ℕ) (args : Bytes) → allows id ≡ true
      → Only host allows (call_system_sized host size id args)
  unfolding call_system_sized
  call_system_sized-Only l size id args a = record {
    reaches = λ w. step id size args a ((call_answer-Only l id _).reaches _);
  }

  must_answer-Only :
      allows sc_log ≡ true
      → allows sc_exit ≡ true
      → (id : ℕ) (reply : Reply) → Only host allows (must_answer host id reply)
  unfolding must_answer
  must_answer-Only l x id reply =
      if-Only (reply.rc == 0) _ _ (pure-Only _)
        (bind-Only _ _ (raw_log-Only l _) (λ u. exit_with-Only Bytes x _ _))

  pub call_system_must-Only :
      allows sc_log ≡ true
      → allows sc_exit ≡ true
      → (id : ℕ) (args : Bytes) → allows id ≡ true
      → Only host allows (call_system_must host id args)
  unfolding call_system_must
  call_system_must-Only l x id args a = record {
    reaches = λ w. step id 4096 args a ((must_answer-Only l x id _).reaches _);
  }

  module _ (r : AllowsReads allows) where
    pub exit_error-Only {ℓ} :
        (A : Type ℓ) (message : Bytes) → Only host allows (exit_error host {A = A} message)
    unfolding exit_error
    exit_error-Only A message = exit_with-Only A r.exit 4096 _

    pub exit_success-Only {ℓ} :
        (A : Type ℓ) (result : Bytes) → Only host allows (exit_success host {A = A} result)
    unfolding exit_success
    exit_success-Only A result = exit_with-Only A r.exit 4096 _

    pub log-Only : (message : Bytes) → Only host allows (log host message)
    unfolding log call_system_small
    log-Only message =
        bind-Only _ _ (call_system_sized-Only r.log 4096 sc_log _ r.log) (λ u. pure-Only _)

    pub event-Only :
        allows sc_event ≡ true
        → (name payload : Bytes) (impacted : List Bytes)
        → Only host allows (event host name payload impacted)
    unfolding event
    event-Only a name payload impacted =
        bind-Only _ _ (call_system_must-Only r.log r.exit sc_event _ a) (λ u. pure-Only _)

    pub get_object-Only :
        (space : ObjectSpace) (key : Bytes) → Only host allows (get_object host space key)
    unfolding get_object call_system
    get_object-Only space key =
        bind-Only _ _ (call_system_sized-Only r.log _ sc_get_object _ r.get) (λ b. pure-Only _)

    pub hash-Only : (algorithm : ℕ) (obj : Bytes) → Only host allows (hash host algorithm obj)
    unfolding hash call_system_small
    hash-Only algorithm obj =
        bind-Only _ _ (call_system_sized-Only r.log _ sc_hash _ r.hash) (λ b. pure-Only _)

    pub recover_public_key-Only :
        (dsa : ℕ) (signature digest : Bytes) (compressed : Bool)
        → Only host allows (recover_public_key host dsa signature digest compressed)
    unfolding recover_public_key call_system_small
    recover_public_key-Only dsa signature digest compressed =
        bind-Only _ _ (call_system_sized-Only r.log _ sc_recover_public_key _ r.recover)
          (λ b. pure-Only _)

    pub get_contract_id-Only : Only host allows (get_contract_id host)
    unfolding get_contract_id call_system_small
    get_contract_id-Only =
        bind-Only _ _ (call_system_sized-Only r.log _ sc_get_contract_id _ r.contract_id)
          (λ b. pure-Only _)

    pub get_head_info-Only : Only host allows (get_head_info host)
    unfolding get_head_info call_system_small
    get_head_info-Only =
        bind-Only _ _ (call_system_sized-Only r.log _ sc_get_head_info _ r.head) (λ b. pure-Only _)

    contract_zone_missing-Only : Only host allows (contract_zone_missing host)
    unfolding contract_zone_missing
    contract_zone_missing-Only = bind-Only _ _ (log-Only _) (λ u. exit_error-Only Bytes _)

    contract_zone-Only : Only host allows (contract_zone host)
    unfolding contract_zone
    contract_zone-Only =
        bind-Only _ _ get_contract_id-Only
          (λ zone. if-Only (is_empty zone) _ _ contract_zone_missing-Only (pure-Only zone))

    pub engine_space-Only : (id : ℕ) → Only host allows (engine_space host id)
    unfolding engine_space
    engine_space-Only id = bind-Only _ _ contract_zone-Only (λ zone. pure-Only _)
