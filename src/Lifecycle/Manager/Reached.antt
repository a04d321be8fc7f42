-- ===== src/Lifecycle/Manager/Reached.antt =====
-- The calls of `LifecycleOperationManager` as steps of the journal, and what all of them keep.
use homepass.Prelude.{
  ℕ, suc, zero, ◌+◌, ◌≡◌, some, none, Option, Option-cases, Bool, true, Bool-cases, inl, inr,
  String, string_eq, List, length, arith,
}
use mathlib.Core.Path.{subst}
use homepass.Prelude.Result.{Result, Result-cases}
use homepass.Prelude.Instant.{aware}
use homepass.Models.Json.{Fields, Codec}
use homepass.Nfc.Records.{Conversions}
use homepass.Models.LifecycleOperation.{
  pending, running, completed, cancelled, LifecycleOperation, non_negative,
  lifecycle_operation_post_init,
}
use homepass.Models.LifecycleOperation.Stored.{lifecycle_operation_post_init-IsBuilt}
use homepass.Lifecycle.{Journal, add}
use homepass.Lifecycle.Manager.{
  Turn, no_change, Called, Outcome, success, step_failure, exception, Step, get_elem?, load,
  then_finish, changed, transition, create, complete, cancel, record_failure, advance, after_step,
  run_steps, execute, retry, is_terminal, is_completed, is_retryable,
}
use homepass.Lifecycle.Manager.Failure.{
  failure-Within, OnJournal, then_loop-OnJournal, then_call-journal, Bounded, Steady, add-Bounded,
  transition-Bounded, settled-Bounded, advance-Bounded, fail_step-Bounded,
  fail_unexpectedly-Bounded,
}

module _ (conversions : Conversions) (codec : Codec) (max_retries : ℕ) where
  abbrev Kept : Journal → Type 0
  Kept = Bounded conversions codec max_retries

  module _ (turn : Turn) (steady : Steady conversions codec max_retries turn) (j : Journal)
      (b : Kept j) where
    complete-Bounded : (operation_id : ℕ) → Kept (complete conversions codec turn j operation_id).0
    unfolding complete load
    complete-Bounded operation_id =
        then_call-journal Kept (load conversions codec j operation_id) _ b λ k o p.
          elim (Bool-cases (is_completed o.status)) [
            | inl e ↦ rw e p
            | inr e ↦ rw e (
                settled-Bounded conversions codec max_retries turn k (steady k p) o completed
                  (λ x. cc))
          ]

    cancel-Bounded : (operation_id : ℕ) → Kept (cancel conversions codec turn j operation_id).0
    unfolding cancel load
    cancel-Bounded operation_id =
        then_call-journal Kept (load conversions codec j operation_id) _ b λ k o p.
          elim (Bool-cases (is_terminal o.status)) [
            | inl e ↦ rw e p
            | inr e ↦ rw e (
                settled-Bounded conversions codec max_retries turn k (steady k p) o cancelled
                  (λ x. cc))
          ]

    record_failure-Bounded :
        (operation_id : ℕ) (payload : Fields) (retryable : Bool)
        → Kept
            (record_failure conversions codec max_retries turn j operation_id payload retryable).0
    unfolding record_failure load changed non_negative
    record_failure-Bounded operation_id payload retryable =
        then_call-journal Kept (load conversions codec j operation_id) _ b λ k o p.
          transition-Bounded conversions codec max_retries turn k o _ (steady k p) λ u e.
            let built = lifecycle_operation_post_init-IsBuilt _ u e in
            ground (
              arith,
              built.same_retry,
              built.same_status,
              failure-Within max_retries retryable (o.retry_count + 1),
            )

    create-Bounded :
        (operation_id created_at updated_at : ℕ) (operation_type : String) (payload : Fields)
        → Kept
            (create conversions codec turn j operation_id created_at updated_at operation_type
              payload).0
    unfolding create
    create-Bounded operation_id created_at updated_at operation_type payload =
        elim (Result-cases (
          lifecycle_operation_post_init (record {
            operation_type = operation_type;
            payload = payload;
            operation_id = operation_id;
            status = pending;
            current_step = 0;
            retry_count = 0;
            created_at = aware created_at;
            updated_at = aware updated_at;
          }))) [
            | inr (e, x) ↦ rw (x, create) (steady j b)
            | inl (o, x) ↦
                let built = lifecycle_operation_post_init-IsBuilt _ o x in
                rw (x, create)
                  (then_call-journal Kept (add conversions codec turn.saved (turn.interference j) o)
                    _
                    (add-Bounded conversions codec max_retries turn.saved (turn.interference j) o
                      (ground (arith, built.same_status)) (steady j b))
                    λ k done p. p)
          ]

  module _ (steps : List Step) where
    after_step-Bounded :
        (turn : Turn) (j : Journal) (o : LifecycleOperation)
        (next : Journal → LifecycleOperation → Option Called) (outcome : Outcome)
        → Kept (turn.interference j)
        → ((k : Journal) (u : LifecycleOperation) → Kept k → OnJournal Kept (next k u))
        → OnJournal Kept (after_step conversions codec max_retries turn j o next outcome)
    unfolding after_step
    after_step-Bounded turn j o next (success result) b ih =
        then_loop-OnJournal Kept (advance conversions codec turn j o result) next
          (advance-Bounded conversions codec max_retries turn j b o result) ih
    after_step-Bounded turn j o next (step_failure changes retryable) b ih =
        fail_step-Bounded conversions codec max_retries turn j b o changes retryable
    after_step-Bounded turn j o next exception b ih =
        fail_unexpectedly-Bounded conversions codec max_retries turn j b o

    run_steps-Bounded :
        (fuel : ℕ) (turns : ℕ → Turn) (j : Journal) (o : LifecycleOperation)
        → ((n : ℕ) → Steady conversions codec max_retries (turns n))
        → Kept j
        → OnJournal Kept (run_steps conversions codec max_retries steps fuel turns j o)
    unfolding run_steps
    run_steps-Bounded zero turns j o steady b = tt
    run_steps-Bounded (suc fuel) turns j o steady b =
        elim (Option-cases (get_elem? steps o.current_step)) [
          | inl e ↦ rw (e, run_steps) b
          | inr (step, e) ↦
              rw (e, run_steps)
                (after_step-Bounded (turns 0) j o _ (step o) (steady 0 j b)
                  λ k u p. run_steps-Bounded fuel (λ n. turns (suc n)) k u (λ n. steady (suc n)) p)
        ]

    execute-Bounded :
        (completes : Bool) (turns : ℕ → Turn) (last : Turn) (j : Journal) (operation_id : ℕ)
        → ((n : ℕ) → Steady conversions codec max_retries (turns n))
        → Steady conversions codec max_retries last
        → Kept j
        → OnJournal Kept
            (execute conversions codec max_retries steps completes turns last j operation_id)
    unfolding execute load then_finish
    execute-Bounded completes turns last j operation_id steady steady_last b =
        then_loop-OnJournal Kept (load conversions codec j operation_id) _ b λ k o p.
          elim (Bool-cases (is_terminal o.status)) [
            | inl e ↦ rw e p
            | inr e ↦ rw e (
                then_loop-OnJournal Kept
                  (transition conversions codec (turns 0) k o
                    (record no_change { status = some running }))
                  _
                  (settled-Bounded conversions codec max_retries (turns 0) k (steady 0 k p) o
                    running (λ x. cc))
                  λ k' started p'. finish_Bounded _ (
                    run_steps-Bounded (suc (length steps)) (λ n. turns (suc n)) k' started
                      (λ n. steady (suc n)) p'))
          ]
      where
        finish_Bounded :
            (run : Option Called)
            → OnJournal Kept run
            → OnJournal Kept (then_finish conversions codec completes last run)
        finish_Bounded none h = tt
        finish_Bounded (some called) h = then_loop-OnJournal Kept called _ h λ k o p.
            elim (Bool-cases completes) [
              | inl e ↦ rw e (complete-Bounded last steady_last k p o.operation_id)
              | inr e ↦ rw e p
            ]

    retry-Bounded :
        (turns : ℕ → Turn) (last : Turn) (j : Journal) (operation_id : ℕ)
        → ((n : ℕ) → Steady conversions codec max_retries (turns n))
        → Steady conversions codec max_retries last
        → Kept j
        → OnJournal Kept (retry conversions codec max_retries steps turns last j operation_id)
    unfolding retry load
    retry-Bounded turns last j operation_id steady steady_last b =
        then_loop-OnJournal Kept (load conversions codec j operation_id) _ b λ k o p.
          elim (Bool-cases (is_retryable o.status)) [
            | inl e ↦ rw e (execute-Bounded true turns last k operation_id steady steady_last p)
            | inr e ↦ rw e p
          ]

  -- A call of the manager, with what it meets: it takes a journal to the one that it leaves.
  pub data Call : Journal → Journal → Type 0 where
    creating :
        {j j' : Journal} (turn : Turn) (operation_id created_at updated_at : ℕ)
        (operation_type : String) (payload : Fields)
        → Steady conversions codec max_retries turn
        → (create conversions codec turn j operation_id created_at updated_at operation_type
            payload).0
          ≡ j'
        → Call j j'
    completing :
        {j j' : Journal} (turn : Turn) (operation_id : ℕ)
        → Steady conversions codec max_retries turn
        → (complete conversions codec turn j operation_id).0 ≡ j'
        → Call j j'
    cancelling :
        {j j' : Journal} (turn : Turn) (operation_id : ℕ)
        → Steady conversions codec max_retries turn
        → (cancel conversions codec turn j operation_id).0 ≡ j'
        → Call j j'
    recording :
        {j j' : Journal} (turn : Turn) (operation_id : ℕ) (payload : Fields) (retryable : Bool)
        → Steady conversions codec max_retries turn
        → (record_failure conversions codec max_retries turn j operation_id payload retryable).0
          ≡ j'
        → Call j j'
    executing :
        {j j' : Journal} (steps : List Step) (completes : Bool) (turns : ℕ → Turn) (last : Turn)
        (operation_id : ℕ) (result : Result LifecycleOperation)
        → ((n : ℕ) → Steady conversions codec max_retries (turns n))
        → Steady conversions codec max_retries last
        → execute conversions codec max_retries steps completes turns last j operation_id
          ≡ some (j', result)
        → Call j j'
    retrying :
        {j j' : Journal} (steps : List Step) (turns : ℕ → Turn) (last : Turn) (operation_id : ℕ)
        (result : Result LifecycleOperation)
        → ((n : ℕ) → Steady conversions codec max_retries (turns n))
        → Steady conversions codec max_retries last
        → retry conversions codec max_retries steps turns last j operation_id ≡ some (j', result)
        → Call j j'

  -- Any number of calls.
  pub data Calls : Journal → Journal → Type 0 where
    here : {j : Journal} → Calls j j
    after : {j k l : Journal} → Calls j k → Call k l → Calls j l

  Call-Bounded : {j k : Journal} → Call j k → Kept j → Kept k
  Call-Bounded (creating turn i c u t p s e) b = subst Kept e (create-Bounded turn s _ b i c u t p)
  Call-Bounded (completing turn i s e) b = subst Kept e (complete-Bounded turn s _ b i)
  Call-Bounded (cancelling turn i s e) b = subst Kept e (cancel-Bounded turn s _ b i)
  Call-Bounded (recording turn i p r s e) b = subst Kept e (record_failure-Bounded turn s _ b i p r)
  Call-Bounded (executing steps c turns last i r s sl e) b =
      subst (OnJournal Kept) e (execute-Bounded steps c turns last _ i s sl b)
  Call-Bounded (retrying steps turns last i r s sl e) b =
      subst (OnJournal Kept) e (retry-Bounded steps turns last _ i s sl b)

  -- After any sequence of calls that create, execute, retry, complete, cancel or fail operations, where
  -- other tasks keep the bound too, no stored operation waits for a retry with more failures than
  -- `max_retries`, if none did before.
  pub retries-Bounded :
      {j k : Journal}
      → Calls j k
      → Bounded conversions codec max_retries j
      → Bounded conversions codec max_retries k
  retries-Bounded here b = b
  retries-Bounded (after calls call) b = Call-Bounded call (retries-Bounded calls b)
