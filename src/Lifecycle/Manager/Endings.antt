-- ===== src/Lifecycle/Manager/Endings.antt =====
-- What `LifecycleOperationManager` leaves of an operation: its status at the end, and the record of a
-- failure.
use homepass.Prelude.{
  ℕ, suc, ◌+◌, ◌≤◌, ◌≡◌, refl, sym, ap, ◌∙◌, some, none, Option, leb, if◌then◌else◌, ◌&&◌, Bool,
  true, string_eq, Bool-cases, inl, inr, List, length, arith,
}
use homepass.Prelude.Result.{ok, err, lifecycle_operation_execution}
use homepass.Prelude.Int.{pos}
use homepass.Prelude.Instant.{aware, instant, normalize_datetime}
use homepass.Prelude.Text.{strip_idem}
use homepass.Models.Json.{Fields, dict, Codec, update_fields}
use homepass.Nfc.Records.{Conversions}
use homepass.Models.LifecycleOperation.{
  LifecycleOperationStatus, waiting_retry, failed, completed, cancelled, LifecycleOperation,
  json_value, lifecycle_operation_post_init, non_negative, lifecycle_operation_to_dict,
}
use homepass.Models.LifecycleOperation.Stored.{lifecycle_operation_post_init-IsBuilt}
use homepass.Lifecycle.{Journal, mutate, get_operation, replace}
use homepass.Lifecycle.Concurrency.{Found, replace_change-of_Found}
use homepass.Prelude.Dict.{get, put}
use homepass.Lifecycle.Manager.{
  Turn, Change, no_change, Called, Step, load, failure_status, then_call, or_keep, number_or_keep,
  then_raise, then_finish, changed, publish, transition, complete, fail_step, run_steps, execute,
  is_terminal, is_completed,
}
use homepass.Lifecycle.Manager.Progress.{transition-ok, then_loop-ok, then_call-ok}

is_completed_lem : (s : LifecycleOperationStatus) → is_completed s ≡ true → s ≡ completed
unfolding is_completed
is_completed_lem completed h = refl
is_completed_lem _ h = cc

some-ok :
    {j k : Journal} {o u : LifecycleOperation}
    → ◌≡◌ {A = Option Called} (some (j, ok o)) (some (k, ok u))
    → o ≡ u
some-ok h = ground arith

called-injective : {a b : Called} → some a ≡ some b → a ≡ b
called-injective h = cc

module _ (conversions : Conversions) (codec : Codec) where
  settled-status :
      (turn : Turn) (j : Journal) (o : LifecycleOperation) (s : LifecycleOperationStatus)
      (j' : Journal) (u : LifecycleOperation)
      → transition conversions codec turn j o (record no_change { status = some s }) ≡ (j', ok u)
      → u.status ≡ s
  unfolding changed
  settled-status turn j o s j' u h =
      let t =
        transition-ok conversions codec turn j o (record no_change { status = some s }) j' u h in
      (lifecycle_operation_post_init-IsBuilt _ u t.built).same_status

  complete-completed :
      (turn : Turn) (j : Journal) (operation_id : ℕ) (j' : Journal) (o : LifecycleOperation)
      → complete conversions codec turn j operation_id ≡ (j', ok o)
      → o.status ≡ completed
  unfolding complete
  complete-completed turn j operation_id j' o h =
      let (k, u, e, e') = then_call-ok (load conversions codec j operation_id) _ j' o h in
      elim (Bool-cases (is_completed u.status)) [
        | inl t ↦
            ap (λ (x : LifecycleOperation). x.status) (some-ok (ap some (sym (rw t at e'))))
            ∙ is_completed_lem u.status t
        | inr t ↦ settled-status turn k u completed j' o (rw t at e')
      ]

  -- An execution that completes its operation, and returns, returns an operation that is completed or
  -- cancelled.
  pub execute-terminal :
      (max_retries : ℕ) (steps : List Step) (turns : ℕ → Turn) (last : Turn) (j : Journal)
      (operation_id : ℕ) (j' : Journal) (o : LifecycleOperation)
      → execute conversions codec max_retries steps true turns last j operation_id ≡ some (j', ok o)
      → is_terminal o.status ≡ true
  unfolding execute then_finish is_terminal
  execute-terminal max_retries steps turns last j operation_id j' o h =
      let (k, u, e, e') = then_loop-ok (load conversions codec j operation_id) _ j' o h in
      elim (Bool-cases (is_terminal u.status)) [
        | inl t ↦
            ap (λ (x : LifecycleOperation). is_terminal x.status) (sym (some-ok (rw t at e'))) ∙ t
        | inr t ↦
            let (k1, started, e1, e2) = then_loop-ok _ _ j' o (rw t at e') in
            finished
              (run_steps conversions codec max_retries steps (suc (length steps))
                (λ n. turns (suc n)) k1 started)
              e2
      ]
    where
      finished :
          (run : Option Called)
          → then_finish conversions codec true last run ≡ some (j', ok o)
          → is_terminal o.status ≡ true
      finished none e = cc
      finished (some run) e =
          let (k, u, e1, e2) = then_loop-ok run _ j' o e in
          ap is_terminal (complete-completed last k u.operation_id j' o (called-injective e2))

  -- A transition whose operation is stored unchanged, and whose write and observer succeed.
  pub record Undisturbed (turn : Turn) (j : Journal) (o : LifecycleOperation) : Type 0 where
    pub found : Found conversions codec (turn.interference j) o o.updated_at
    pub saves : turn.saved ≡ ok tt
    pub observes : turn.observed ≡ ok tt

  pub transition-writes :
      (turn : Turn) (j : Journal) (o u : LifecycleOperation) (c : Change)
      → changed turn.now o c ≡ ok u
      → u.operation_id ≡ o.operation_id
      → Undisturbed turn j o
      → transition conversions codec turn j o c ≡ (
        put
            (turn.interference j)
            (codec.print_uuid o.operation_id)
            (lifecycle_operation_to_dict codec u),
        ok u,
      )
  unfolding transition publish then_call replace mutate
  transition-writes turn j o u c e same h =
      let there : Found conversions codec (turn.interference j) u o.updated_at = record {
        fields = h.found.fields;
        current = h.found.current;
        stored = ap (λ i. get (turn.interference j) (codec.print_uuid i)) same ∙ h.found.stored;
        decoded = h.found.decoded;
        unchanged = h.found.unchanged;
      } in
      ground (
        arith,
        e,
        replace_change-of_Found conversions codec u o.updated_at (turn.interference j) there,
        h.saves,
        h.observes,
        ap codec.print_uuid same,
      )

  -- The operation that a change makes of one that was built, at a later time.
  pub changed-built :
      (now : ℕ) (raw o : LifecycleOperation) (c : Change) (step count : ℕ)
      → lifecycle_operation_post_init raw ≡ ok o
      → instant o.created_at ≤ now
      → json_value (dict (or_keep o.payload c.payload)) ≡ true
      → number_or_keep o.current_step c.current_step ≡ ok step
      → number_or_keep o.retry_count c.retry_count ≡ ok count
      → changed now o c
        ≡ ok (record o {
          status = or_keep o.status c.status;
          payload = or_keep o.payload c.payload;
          current_step = step;
          retry_count = count;
          updated_at = aware now;
        })
  unfolding changed lifecycle_operation_post_init normalize_datetime
  changed-built now raw o c step count built later json at counted =
      let b = lifecycle_operation_post_init-IsBuilt raw o built in
      ground (arith, at, counted, json, b.typed, b.named, b.created, strip_idem raw.operation_type)

  -- A step that signals a failure is recorded. Where the operation was built, is stored unchanged, the
  -- clock is not behind its creation, the new payload is JSON, and the write and the observer succeed,
  -- the record under its key then has the failure's payload changes and one more failure, stands at the
  -- same step, and waits for a retry exactly if the failure is retryable and the failures are at most
  -- `max_retries`, being failed otherwise; and the call raises `LifecycleOperationExecutionError`.
  pub fail_step-records :
      (max_retries : ℕ) (turn : Turn) (j : Journal) (raw o : LifecycleOperation) (changes : Fields)
      (retryable : Bool)
      → lifecycle_operation_post_init raw ≡ ok o
      → instant o.created_at ≤ turn.now
      → json_value (dict (update_fields o.payload changes)) ≡ true
      → Undisturbed turn j o
      → fail_step conversions codec max_retries turn j o changes retryable ≡ (
        put (turn.interference j) (codec.print_uuid o.operation_id) (
            lifecycle_operation_to_dict codec (record o {
              status =
                  if retryable && leb (o.retry_count + 1) max_retries
                  then waiting_retry
                  else failed;
              payload = update_fields o.payload changes;
              retry_count = o.retry_count + 1;
              updated_at = aware turn.now;
            })),
        err lifecycle_operation_execution,
      )
  unfolding fail_step failure_status non_negative then_raise
  fail_step-records max_retries turn j raw o changes retryable built later json h =
      let c : Change = record no_change {
        status = some (failure_status max_retries retryable (o.retry_count + 1));
        payload = some (update_fields o.payload changes);
        retry_count = some (pos (o.retry_count + 1));
      } in
      rw
        (transition-writes turn j o _ c
          (changed-built turn.now raw o c o.current_step (o.retry_count + 1) built later json refl
            refl)
          refl h)
        refl

  -- Completing an operation that was cancelled completes it: where the stored operation, as it is
  -- loaded, is cancelled and was built, no other task changes it, the clock is not behind its
  -- creation, and the write and the observer succeed, the call returns the operation as completed, and
  -- stores it so.
  pub complete-overrides_cancel :
      (turn : Turn) (j : Journal) (raw o : LifecycleOperation)
      → get_operation conversions codec j o.operation_id ≡ ok o
      → o.status ≡ cancelled
      → lifecycle_operation_post_init raw ≡ ok o
      → instant o.created_at ≤ turn.now
      → Undisturbed turn j o
      → complete conversions codec turn j o.operation_id ≡ (
        put (turn.interference j) (codec.print_uuid o.operation_id) (
            lifecycle_operation_to_dict codec
              (record o { status = completed; updated_at = aware turn.now })),
        ok (record o { status = completed; updated_at = aware turn.now }),
      )
  unfolding complete load then_call is_completed
  complete-overrides_cancel turn j raw o loaded was built later h =
      let b = lifecycle_operation_post_init-IsBuilt raw o built in
      let json = ap (λ p. json_value (dict p)) b.same_payload ∙ b.payload_json in
      let c : Change = record no_change { status = some completed } in
      ground (
        arith,
        loaded,
        was,
        transition-writes turn j o _ c
            (changed-built turn.now raw o c o.current_step o.retry_count built later json refl refl)
            refl h,
      )
