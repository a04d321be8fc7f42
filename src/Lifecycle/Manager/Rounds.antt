-- ===== src/Lifecycle/Manager/Rounds.antt =====
-- The rounds of `LifecycleOperationManager.execute` where no other task runs and every write succeeds.
use homepass.Prelude.{
  ℕ, suc, zero, ◌+◌, ◌≤◌, ◌<◌, ◌≡◌, refl, ◌∙◌, some, Option-cases, inl, inr, List, length, arith,
  string_eq, nat_eq,
}
use homepass.Prelude.Instant.{instant}
use homepass.Models.Json.{Codec}
use homepass.Nfc.Records.{Conversions}
use homepass.Models.LifecycleOperation.{running, LifecycleOperation}
use homepass.Models.LifecycleOperation.Stored.{lifecycle_operation_post_init-IsBuilt}
use homepass.Lifecycle.{Journal}
use homepass.Lifecycle.Manager.{
  Turn, transition, no_change, Step, get_elem?, then_loop, after_step, run_steps,
}
use homepass.Lifecycle.Manager.Progress.{get_elem?-ge, Run, ended, ran}
use homepass.Lifecycle.Manager.Quiet.{
  Succeeds, advanced_to, started_at, Stands, Quiet, SameRest, Moved, advance-Moved, start-Moved,
}

-- The fuel with some more rounds, and the turns after some rounds.
abbrev pub plus : ℕ → ℕ → ℕ
plus zero fuel = fuel
plus (suc n) fuel = suc (plus n fuel)

abbrev pub after : ℕ → (ℕ → Turn) → ℕ → Turn
after zero turns = turns
after (suc n) turns = after n (λ i. turns (suc i))

pub plus_lem : (n fuel : ℕ) → plus n fuel ≡ n + fuel
plus_lem zero fuel = omega arith
plus_lem (suc n) fuel = omega (arith, plus_lem n fuel)

pub after-first : (n : ℕ) (turns : ℕ → Turn) → after n turns 0 ≡ turns n
after-first zero turns = refl
after-first (suc n) turns = after-first n (λ i. turns (suc i))

pub after-Quiet :
    (conversions : Conversions) (codec : Codec) (created n : ℕ) (turns : ℕ → Turn)
    → ((i : ℕ) → Quiet conversions codec created (turns i))
    → (i : ℕ) → Quiet conversions codec created (after n turns i)
after-Quiet conversions codec created zero turns quiet = quiet
after-Quiet conversions codec created (suc n) turns quiet =
    after-Quiet conversions codec created n (λ i. turns (suc i)) (λ i. quiet (suc i))

-- The steps from one to another, the last of them excluded, return.
abbrev pub AllSucceed : List Step → ℕ → ℕ → Type 0
AllSucceed steps from until =
    (i : ℕ) (step : Step) → from ≤ i → i < until → get_elem? steps i ≡ some step → Succeeds step

module _ (conversions : Conversions) (codec : Codec) (max_retries : ℕ) (steps : List Step) where
  -- Where the loop stands after some steps.
  pub record Reached (n fuel : ℕ) (turns : ℕ → Turn) (j : Journal) (o : LifecycleOperation)
      : Type 0 where
    pub journal : Journal
    pub operation : LifecycleOperation
    pub goes_on :
        run_steps conversions codec max_retries steps (plus n fuel) turns j o
        ≡ run_steps conversions codec max_retries steps fuel (after n turns) journal operation
    pub run : Run steps o operation
    pub at : operation.current_step ≡ n + o.current_step
    pub stands : Stands conversions codec journal operation
    pub rest : SameRest conversions codec o.operation_id j journal
    pub same_id : operation.operation_id ≡ o.operation_id
    pub same_status : operation.status ≡ o.status
    pub same_created : operation.created_at ≡ o.created_at

  run_steps-Reached :
      (n fuel : ℕ) (turns : ℕ → Turn) (j : Journal) (o : LifecycleOperation)
      → n + o.current_step ≤ length steps
      → AllSucceed steps o.current_step (n + o.current_step)
      → ((i : ℕ) → Quiet conversions codec (instant o.created_at) (turns i))
      → Stands conversions codec j o
      → Reached n fuel turns j o
  unfolding run_steps after_step then_loop
  run_steps-Reached zero fuel turns j o h good quiet s = record {
    journal = j;
    operation = o;
    goes_on = refl;
    run = ended;
    at = omega arith;
    stands = s;
    rest = λ key other. refl;
    same_id = refl;
    same_status = refl;
    same_created = refl;
  }
  run_steps-Reached (suc n) fuel turns j o h good quiet s =
      elim (Option-cases (get_elem? steps o.current_step)) [
        | inl e ↦ absurd (omega (arith, get_elem?-ge steps o.current_step e))
        | inr (step, e) ↦
            let (result, returned, json) =
              good o.current_step step (omega arith) (omega arith) e o
                (lifecycle_operation_post_init-IsBuilt o o s.built).payload_json in
            let m = advance-Moved conversions codec (turns 0) j o result (quiet 0) s json in
            let r =
              run_steps-Reached n fuel (λ i. turns (suc i)) m.journal
                (advanced_to (turns 0).now o result) (omega arith)
                (λ i step' le lt. good i step' (omega arith) (omega arith)) (λ i. quiet (suc i))
                m.stands in
            record {
              journal = r.journal;
              operation = r.operation;
              goes_on = rw (e, run_steps, returned, m.returned) r.goes_on;
              run =
                  ran e returned
                    (record {
                      next_step = refl;
                      no_retry = refl;
                      same_id = refl;
                      same_status = refl;
                      merged = refl;
                    })
                    r.run;
              at = omega (arith, r.at);
              stands = r.stands;
              rest = λ key other. r.rest key other ∙ m.rest key other;
              same_id = r.same_id;
              same_status = r.same_status;
              same_created = r.same_created;
            }
      ]

  -- The rounds of `execute` before the one that comes after some steps.
  pub started-Reached :
      (n fuel : ℕ) (turns : ℕ → Turn) (j : Journal) (o : LifecycleOperation)
      → n + o.current_step ≤ length steps
      → AllSucceed steps o.current_step (n + o.current_step)
      → ((i : ℕ) → Quiet conversions codec (instant o.created_at) (turns i))
      → Stands conversions codec j o
      → (m : Moved conversions codec
          (transition conversions codec (turns 0) j o (record no_change { status = some running }))
          j
          (started_at (turns 0).now o))
        × Reached n fuel (λ i. turns (suc i)) m.journal (started_at (turns 0).now o)
  started-Reached n fuel turns j o h good quiet s =
      let m = start-Moved conversions codec (turns 0) j o (quiet 0) s in
      (
        m,
        run_steps-Reached n fuel (λ i. turns (suc i)) m.journal (started_at (turns 0).now o) h good
            (λ i. quiet (suc i)) m.stands,
      )
