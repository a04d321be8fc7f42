-- ===== src/Lifecycle/Manager.antt =====
-- `LifecycleOperationManager` of lifecycle.py. Other tasks run wherever the manager waits, so they may
-- change the journal before each of its writes: a `Turn` says how, and how the write goes.
pub mod Failure
pub mod Reached
pub mod Progress
pub mod Endings
pub mod Quiet
pub mod Rounds
pub mod Completed
pub mod Failed
use homepass.Prelude.{
  ℕ, zero, suc, ◌+◌, Bool, true, false, not, ◌&&◌, Option, none, some, List, [], ◌∷◌, String, ltb,
  leb, length, if◌then◌else◌,
}
use homepass.Prelude.Result.{Result, ok, err, lifecycle_operation_execution, ◌>>=◌, ◌>>◌}
use homepass.Prelude.Int.{ℤ, pos}
use homepass.Prelude.Instant.{Datetime, aware}
use homepass.Models.Json.{Fields, int, Codec, update_fields}
use homepass.Nfc.Records.{Conversions}
use homepass.Models.LifecycleOperation.{
  LifecycleOperationStatus, pending, running, waiting_retry, failed, completed, cancelled,
  LifecycleOperation, non_negative, lifecycle_operation_post_init,
}
use homepass.Lifecycle.{Journal, list_all, get_operation, add, replace}

-- `status in _TERMINAL_STATUSES`
unfoldable pub is_terminal : LifecycleOperationStatus → Bool
is_terminal completed = true
is_terminal cancelled = true
is_terminal _ = false

-- status is COMPLETED
unfoldable pub is_completed : LifecycleOperationStatus → Bool
is_completed completed = true
is_completed _ = false

-- status in {WAITING_RETRY, FAILED}
unfoldable pub is_retryable : LifecycleOperationStatus → Bool
is_retryable waiting_retry = true
is_retryable failed = true
is_retryable _ = false

-- What a write of the journal meets: the reading of the clock, what other tasks did since the manager
-- waited last, the outcome of the storage's validation and write, and that of the observer.
pub record Turn : Type 0 where
  pub now : ℕ
  pub interference : Journal → Journal
  pub saved : Result (Unit {0})
  pub observed : Result (Unit {0})

-- How a step ends: with its result, a `LifecycleStepFailure`, or another exception.
pub data Outcome : Type 0 where
  success : Option Fields → Outcome
  step_failure : Fields → Bool → Outcome
  exception : Outcome

abbrev pub Step : Type 0
Step = LifecycleOperation → Outcome

-- The keyword arguments of `_transition`; `none` keeps the field.
pub record Change : Type 0 where
  pub status : Option LifecycleOperationStatus
  pub payload : Option Fields
  pub current_step : Option ℤ
  pub retry_count : Option ℤ

abbrev pub no_change : Change
no_change = record { status = none; payload = none; current_step = none; retry_count = none }

abbrev pub or_keep {ℓ} : {A : Type ℓ} → A → Option A → A
or_keep old none = old
or_keep old (some new) = new

-- A number that the constructor checks.
abbrev pub number_or_keep : ℕ → Option ℤ → Result ℕ
number_or_keep old none = ok old
number_or_keep old (some new) = non_negative (int new)

-- steps[i]
abbrev pub get_elem? : List Step → ℕ → Option Step
get_elem? [] i = none
get_elem? (s ∷ rest) zero = some s
get_elem? (s ∷ rest) (suc i) = get_elem? rest i

-- payload.update(result), if there is one
unfoldable pub updated_payload : Fields → Option Fields → Fields
updated_payload payload none = payload
updated_payload payload (some result) = update_fields payload result

-- What a call leaves: the journal, and what it returns or raises.
abbrev pub Called : Type 0
Called = Journal × Result LifecycleOperation

-- A call goes on with what came before, or raises.
unfoldable pub then_call : {A : Type 0} → Journal × Result A → (Journal → A → Called) → Called
then_call (j, err e) next = (j, err e)
then_call (j, ok a) next = next j a

-- The same, in front of a loop.
unfoldable pub then_loop : Called → (Journal → LifecycleOperation → Option Called) → Option Called
then_loop (j, err e) next = some (j, err e)
then_loop (j, ok o) next = next j o

-- `raise LifecycleOperationExecutionError`, after what came before has returned
unfoldable pub then_raise : Called → Called
then_raise (j, err e) = (j, err e)
then_raise (j, ok o) = (j, err lifecycle_operation_execution)

-- The status after a failure; `max_retries` bounds the failures that wait for a retry.
unfoldable pub failure_status : ℕ → Bool → ℕ → LifecycleOperationStatus
failure_status max_retries retryable retry_count =
    if retryable && leb retry_count max_retries then waiting_retry else failed

abbrev pub incomplete : List LifecycleOperation → List LifecycleOperation
incomplete [] = []
incomplete (o ∷ rest) = if is_terminal o.status then incomplete rest else o ∷ incomplete rest

-- The constructor, on an operation with some fields replaced.
unfoldable pub changed : ℕ → LifecycleOperation → Change → Result LifecycleOperation
changed now o c = do
  current_step ← number_or_keep o.current_step c.current_step
  retry_count ← number_or_keep o.retry_count c.retry_count
  lifecycle_operation_post_init (record o {
    status = or_keep o.status c.status;
    payload = or_keep o.payload c.payload;
    current_step = current_step;
    retry_count = retry_count;
    updated_at = aware now;
  })

module _ (conversions : Conversions) (codec : Codec) where
  unfoldable pub load : Journal → ℕ → Called
  load j operation_id = (j, get_operation conversions codec j operation_id)

  unfoldable pub load_incomplete : Journal → Result (List LifecycleOperation)
  load_incomplete j = do operations ← list_all conversions codec j; ok (incomplete operations)

  -- Writes the operation over the one that was read, and tells the observer.
  unfoldable pub publish : Turn → Journal → LifecycleOperation → LifecycleOperation → Called
  publish turn j o updated =
      then_call (replace conversions codec turn.saved (turn.interference j) updated o.updated_at)
        (λ j' u. (j', (do turn.observed; ok updated)))

  -- `_transition`
  unfoldable pub transition : Turn → Journal → LifecycleOperation → Change → Called
  transition turn j o c = elim (changed turn.now o c) [
    | err e ↦ (turn.interference j, err e)
    | ok updated ↦ publish turn j o updated
  ]

  -- `create`, with the identifier and the times that the constructor makes
  unfoldable pub create : Turn → Journal → ℕ → ℕ → ℕ → String → Fields → Called
  create turn j operation_id created_at updated_at operation_type payload =
      elim (lifecycle_operation_post_init (record {
        operation_type = operation_type;
        payload = payload;
        operation_id = operation_id;
        status = pending;
        current_step = 0;
        retry_count = 0;
        created_at = aware created_at;
        updated_at = aware updated_at;
      })) [
        | err e ↦ (turn.interference j, err e)
        | ok o ↦
            then_call (add conversions codec turn.saved (turn.interference j) o)
              (λ j' u. (j', (do turn.observed; ok o)))
      ]

  unfoldable pub complete : Turn → Journal → ℕ → Called
  complete turn j operation_id = then_call (load j operation_id) (λ j' o.
      if is_completed o.status
      then (j', ok o)
      else transition turn j' o (record no_change { status = some completed }))

  unfoldable pub cancel : Turn → Journal → ℕ → Called
  cancel turn j operation_id = then_call (load j operation_id) (λ j' o.
      if is_terminal o.status
      then (j', ok o)
      else transition turn j' o (record no_change { status = some cancelled }))

  unfoldable pub checkpoint : Turn → Journal → ℕ → Change → Called
  checkpoint turn j operation_id c =
      then_call (load j operation_id) (λ j' o. transition turn j' o c)

  -- `record_failure`
  unfoldable pub record_failure : ℕ → Turn → Journal → ℕ → Fields → Bool → Called
  record_failure max_retries turn j operation_id payload retryable =
      then_call (load j operation_id) (λ j' o.
        let retry_count = o.retry_count + 1 in
        transition turn j' o (record no_change {
          status = some (failure_status max_retries retryable retry_count);
          payload = some payload;
          retry_count = some (pos retry_count);
        }))

  -- The first `except` branch of `execute`.
  unfoldable pub fail_step : ℕ → Turn → Journal → LifecycleOperation → Fields → Bool → Called
  fail_step max_retries turn j o changes retryable =
      let retry_count = o.retry_count + 1 in
      then_raise (
        transition turn j o (record no_change {
          status = some (failure_status max_retries retryable retry_count);
          payload = some (update_fields o.payload changes);
          retry_count = some (pos retry_count);
        }))

  -- The second one.
  unfoldable pub fail_unexpectedly : ℕ → Turn → Journal → LifecycleOperation → Called
  fail_unexpectedly max_retries turn j o =
      let retry_count = o.retry_count + 1 in
      then_raise (
        transition turn j o (record no_change {
          status = some (failure_status max_retries true retry_count);
          retry_count = some (pos retry_count);
        }))

  -- What the loop does after a step that returned.
  unfoldable pub advance : Turn → Journal → LifecycleOperation → Option Fields → Called
  advance turn j o result = transition turn j o (record no_change {
    payload = some (updated_payload o.payload result);
    current_step = some (pos (o.current_step + 1));
    retry_count = some (pos 0);
  })

  -- The `try` statement of the loop, by how the step ends; `next` is the next round.
  unfoldable pub after_step :
      ℕ
      → Turn
      → Journal
      → LifecycleOperation
      → (Journal → LifecycleOperation → Option Called)
      → Outcome
      → Option Called
  after_step max_retries turn j o next (success result) = then_loop (advance turn j o result) next
  after_step max_retries turn j o next (step_failure changes retryable) =
      some (fail_step max_retries turn j o changes retryable)
  after_step max_retries turn j o next exception = some (fail_unexpectedly max_retries turn j o)

  -- The last line of `execute`.
  unfoldable pub then_finish : Bool → Turn → Option Called → Option Called
  then_finish completes last none = none
  then_finish completes last (some run) =
      then_loop run (λ j o. some (if completes then complete last j o.operation_id else (j, ok o)))

  module _ (max_retries : ℕ) (steps : List Step) where
    -- The `while` loop of `execute`, which takes a turn each round; `none` if the fuel runs out.
    unfoldable pub run_steps : ℕ → (ℕ → Turn) → Journal → LifecycleOperation → Option Called
    run_steps zero turns j o = none
    run_steps (suc fuel) turns j o = elim (get_elem? steps o.current_step) [
      | none ↦ some (j, ok o)
      | some step ↦
          after_step max_retries (turns 0) j o (λ j' o'. run_steps fuel (λ n. turns (suc n)) j' o')
            (step o)
    ]

    -- `execute`: each round of its loop advances by one step, so the fuel suffices.
    unfoldable pub execute : Bool → (ℕ → Turn) → Turn → Journal → ℕ → Option Called
    execute completes turns last j operation_id = then_loop (load j operation_id) (λ j' o.
        if is_terminal o.status
        then some (j', ok o)
        else then_loop (transition (turns 0) j' o (record no_change { status = some running }))
            (λ k started.
              then_finish completes last
                (run_steps (suc (length steps)) (λ n. turns (suc n)) k started)))

    -- `resume`
    abbrev pub resume : (ℕ → Turn) → Turn → Journal → ℕ → Option Called
    resume = execute true

    unfoldable pub retry : (ℕ → Turn) → Turn → Journal → ℕ → Option Called
    retry turns last j operation_id = then_loop (load j operation_id) (λ j' o.
        if is_retryable o.status then execute true turns last j' operation_id else some (j', ok o))
