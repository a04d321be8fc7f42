-- ===== src/Lifecycle/Manager/Failed.antt =====
-- `LifecycleOperationManager.execute` where a step signals a failure.
use homepass.Prelude.{
  ℕ, suc, ◌+◌, ◌-◌, ◌≡◌, refl, sym, ap, ◌∙◌, some, Bool, true, false, List, length, leb, arith,
  string_eq, nat_eq, ◌&&◌, if◌then◌else◌,
}
use homepass.Prelude.Result.{ok, err, lifecycle_operation_execution}
use homepass.Prelude.Instant.{aware, instant}
use homepass.Prelude.Dict.{get, put, get-put_self}
use homepass.Models.Json.{Fields, dict, Codec, update_fields}
use homepass.Nfc.Records.{Conversions}
use homepass.Models.LifecycleOperation.{
  waiting_retry, failed, LifecycleOperation, json_value, lifecycle_operation_to_dict,
}
use homepass.Models.LifecycleOperation.Stored.{lifecycle_operation_post_init-IsBuilt}
use homepass.Lifecycle.{Journal, get_operation}
use homepass.Lifecycle.Manager.{
  Turn, load, then_finish, execute, is_terminal, Step, step_failure, get_elem?, then_loop,
  after_step, run_steps,
}
use homepass.Lifecycle.Manager.Progress.{get_elem?-lt, Run}
use homepass.Lifecycle.Manager.Endings.{fail_step-records}
use homepass.Lifecycle.Manager.Quiet.{
  started_at, Stands, Quiet, SameRest, Stands-Undisturbed, put-SameRest,
}
use homepass.Lifecycle.Manager.Rounds.{
  plus, after, plus_lem, after-first, after-Quiet, AllSucceed, started-Reached,
}

-- A step that signals a failure on every operation, with changes that leave JSON payloads JSON.
abbrev pub Fails : Step → Fields → Bool → Type 0
Fails step changes retryable =
    (o : LifecycleOperation)
    → json_value (dict o.payload) ≡ true
    → (step o ≡ step_failure changes retryable)
      × (json_value (dict (update_fields o.payload changes)) ≡ true)

-- The operation after such a failure, at a time.
abbrev pub failed_at : ℕ → ℕ → LifecycleOperation → Fields → Bool → LifecycleOperation
failed_at max_retries now o changes retryable = record o {
  status = if retryable && leb (o.retry_count + 1) max_retries then waiting_retry else failed;
  payload = update_fields o.payload changes;
  retry_count = o.retry_count + 1;
  updated_at = aware now;
}

module _ (conversions : Conversions) (codec : Codec) (max_retries : ℕ) (steps : List Step) where
  at_failure :
      (fuel : ℕ) (turns : ℕ → Turn) (j : Journal) (o : LifecycleOperation) (step : Step)
      (changes : Fields) (retryable : Bool)
      → get_elem? steps o.current_step ≡ some step
      → Fails step changes retryable
      → Quiet conversions codec (instant o.created_at) (turns 0)
      → Stands conversions codec j o
      → run_steps conversions codec max_retries steps (suc fuel) turns j o
        ≡ some (
          put ((turns 0).interference j) (codec.print_uuid o.operation_id) (
              lifecycle_operation_to_dict codec
                (failed_at max_retries (turns 0).now o changes retryable)),
          err lifecycle_operation_execution,
        )
  unfolding run_steps after_step
  at_failure fuel turns j o step changes retryable e fails q s =
      let (signals, json) =
        fails o (lifecycle_operation_post_init-IsBuilt o o s.built).payload_json in
      rw
        (
          e,
          run_steps,
          signals,
          fail_step-records conversions codec max_retries (turns 0) j o o changes retryable s.built
              q.later json (Stands-Undisturbed conversions codec (turns 0) j o q s),
        )
        refl

  -- A failing step is recorded. Let the operation be loaded, not completed or cancelled, built, in the
  -- range of its stored form, and stored; let no other task run, every write and observer succeed, and
  -- the clock be in range and not behind the operation's creation. If `n` steps return from the one
  -- where the operation stands, leaving JSON payloads JSON, and the next step signals a failure, then
  -- the execution raises `LifecycleOperationExecutionError`. The steps before have been run one after
  -- the other, and the record under the operation's key is what they left, with the failure's payload
  -- changes and one more failure; it stands at the failing step, and waits for a retry exactly if the
  -- failure is retryable and the failures are at most `max_retries`, being failed otherwise. All other
  -- records stay.
  pub execute-records_failure :
      (completes : Bool) (turns : ℕ → Turn) (last : Turn) (j : Journal) (o : LifecycleOperation)
      (n : ℕ) (step : Step) (changes : Fields) (retryable : Bool)
      → get_operation conversions codec j o.operation_id ≡ ok o
      → is_terminal o.status ≡ false
      → AllSucceed steps o.current_step (n + o.current_step)
      → get_elem? steps (n + o.current_step) ≡ some step
      → Fails step changes retryable
      → ((i : ℕ) → Quiet conversions codec (instant o.created_at) (turns i))
      → Stands conversions codec j o
      → (j' : Journal) × (u : LifecycleOperation) × (execute conversions codec max_retries steps
            completes turns last j o.operation_id
          ≡ some (j', err lifecycle_operation_execution))
        × Run steps (started_at (turns 0).now o) u
        × (u.current_step ≡ n + o.current_step)
        × (get j' (codec.print_uuid o.operation_id)
            ≡ some (
                lifecycle_operation_to_dict codec
                  (failed_at max_retries (turns (suc n)).now u changes retryable)))
        × SameRest conversions codec o.operation_id j j'
  unfolding execute load then_loop then_finish
  execute-records_failure completes turns last j o n step changes retryable loaded live good e fails
        quiet s =
      let lt = get_elem?-lt steps (n + o.current_step) e in
      let left = length steps - n in
      let (m, r) =
        started-Reached conversions codec max_retries steps n (suc left) turns j o
          (omega (arith, lt)) good quiet s in
      let t = after n (λ i. turns (suc i)) in
      let calm =
        after-Quiet conversions codec (instant o.created_at) n (λ i. turns (suc i))
          (λ i. quiet (suc i)) 0 in
      let recorded =
        at_failure left t r.journal r.operation step changes retryable (rw r.at e) fails
          (rw r.same_created calm) r.stands in
      let fuel : suc (length steps) ≡ plus n (suc left) =
        omega (arith, lt, plus_lem n (suc left)) in
      let ended_so =
        ap
          (λ (f : ℕ).
            run_steps conversions codec max_retries steps f (λ i. turns (suc i)) m.journal
              (started_at (turns 0).now o))
          fuel
        ∙ r.goes_on
        ∙ recorded in
      let written =
        lifecycle_operation_to_dict codec
          (failed_at max_retries (t 0).now r.operation changes retryable) in
      (
        put ((t 0).interference r.journal) (codec.print_uuid r.operation.operation_id) written,
        r.operation,
        rw (loaded, live, m.returned, ended_so) refl,
        r.run,
        r.at,
        ap
              (λ (i : ℕ).
                get
                  (put ((t 0).interference r.journal) (codec.print_uuid r.operation.operation_id)
                    written)
                  (codec.print_uuid i))
              (sym r.same_id)
            ∙ get-put_self ((t 0).interference r.journal)
                (codec.print_uuid r.operation.operation_id) written
            ∙ ap
                (λ (turn : Turn). some (
                  lifecycle_operation_to_dict codec
                    (failed_at max_retries turn.now r.operation changes retryable)))
                (after-first n (λ i. turns (suc i))),
        λ key other.
            put-SameRest conversions codec r.journal ((t 0).interference r.journal)
              r.operation.operation_id written (calm.alone r.journal) key (rw r.same_id other)
            ∙ r.rest key other
            ∙ m.rest key other,
      )
