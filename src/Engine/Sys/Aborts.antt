-- ===== src/Engine/Sys/Aborts.antt =====
-- A state call that the host refuses ends the run: no write is lost silently.
use koinos_evm_engine.Base.{ℕ, ◌≡◌, false, Bool-cases, ◌⊎◌, inl, inr, List, ◌==◌, ==_iff}
use koinos_evm_engine.Base.Words.{Bytes}
use koinos_evm_engine.Engine.Koinos.{
  sc_put_object, sc_remove_object, sc_event, Host, Reply, Outcome, returned, exited, go_on,
  ObjectSpace, put_object_arguments, object_arguments,
}
use koinos_evm_engine.Engine.Sys.{
  Run, raw_log, exit_with, must_answer, call_system_must, put_object, remove_object, event,
  event_arguments,
}

module _ (host : Host) where
  -- A run that has ended by `SC_EXIT`.
  pub data HasExited {A : Type 0} : Outcome A × host.World → Type 0 where
    exit : (args : Bytes) (w : host.World) → HasExited (exited args, w)

  -- Either the host accepts the call with that id and these arguments, or the run ends by `SC_EXIT`.
  pub record Insists {A : Type 0} (id : ℕ) (args : Bytes) (m : Run host A) : Type 0 where
    pub insists :
        (w : host.World) → ((host.invoke_system_call id 4096 args w).0.rc ≡ 0) ⊎ HasExited (m w)

  stays-HasExited :
      {A B : Type 0} (r : Outcome A × host.World) (f : A → Run host B)
      → HasExited r
      → HasExited (go_on r f)
  stays-HasExited r f (exit args w) = exit args w

  pub go_on-HasExited :
      {A B : Type 0} (r : Outcome A × host.World) (f : A → Run host B)
      → ((a : A) (w : host.World) → HasExited (f a w))
      → HasExited (go_on r f)
  go_on-HasExited (returned a, w) f h = h a w
  go_on-HasExited (exited args, w) f h = exit args w

  pub exit_with-HasExited :
      (A : Type 0) (size : ℕ) (args : Bytes) (w : host.World)
      → HasExited (exit_with host {A = A} size args w)
  unfolding exit_with
  exit_with-HasExited A size args w = exit args _

  refused :
      (id : ℕ) (reply : Reply) (w : host.World)
      → (reply.rc == 0) ≡ false
      → HasExited (must_answer host id reply w)
  unfolding must_answer
  refused id reply w h =
      rw h (go_on-HasExited (raw_log host _ w) _ (λ u v. exit_with-HasExited Bytes 64 _ v))

  call_system_must-Insists :
      (id : ℕ) (args : Bytes) → Insists id args (call_system_must host id args)
  unfolding call_system_must
  call_system_must-Insists id args = record {
    insists = λ w. split (host.invoke_system_call id 4096 args w);
  }
    where
      split : (r : Reply × host.World) → (r.0.rc ≡ 0) ⊎ HasExited (must_answer host id r.0 r.1)
      split (reply, v) = elim (Bool-cases (reply.rc == 0)) [
        | inl e ↦ inl ((==_iff reply.rc 0).0 e)
        | inr e ↦ inr (refused id reply v e)
      ]

  then-Insists :
      {A B : Type 0} (id : ℕ) (args : Bytes) (m : Run host A) (f : A → Run host B)
      → Insists id args m
      → Insists id args (λ w. go_on (m w) f)
  then-Insists id args m f h = record {
    insists = λ w. elim (h.insists w) [ inl e ↦ inl e | inr e ↦ inr (stays-HasExited (m w) f e) ];
  }

  -- A write of an object, a removal and an event are accepted by the host, or the contract ends by
  -- `SC_EXIT` at once: a refused state call is never passed over.
  pub state_calls-Insist :
      (space : ObjectSpace) (key obj name : Bytes) (impacted : List Bytes)
      → Insists sc_put_object (put_object_arguments space key obj) (put_object host space key obj)
        × Insists sc_remove_object (object_arguments space key) (remove_object host space key)
        × Insists sc_event (event_arguments name obj impacted) (event host name obj impacted)
  unfolding put_object remove_object event
  state_calls-Insist space key obj name impacted = (
    then-Insists _ _ _ _ (call_system_must-Insists _ _),
    then-Insists _ _ _ _ (call_system_must-Insists _ _),
    then-Insists _ _ _ _ (call_system_must-Insists _ _),
  )
