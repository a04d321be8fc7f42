-- ===== src/Lifecycle/Manager/Completed.antt =====
-- `LifecycleOperationManager.execute` where every step returns.
use homepass.Prelude.{
  ℕ, suc, ◌+◌, ◌-◌, ◌≤◌, ◌≡◌, refl, ap, ◌∙◌, some, Option-cases, false, inl, inr, List, length,
  arith, string_eq, nat_eq,
}
use homepass.Prelude.Result.{ok}
use homepass.Prelude.Instant.{instant}
use homepass.Models.Json.{Codec}
use homepass.Nfc.Records.{Conversions}
use homepass.Models.LifecycleOperation.{running, LifecycleOperation}
use homepass.Lifecycle.{Journal, get_operation}
use homepass.Lifecycle.Manager.{
  Turn, load, then_finish, execute, is_terminal, Step, get_elem?, then_loop, run_steps,
}
use homepass.Lifecycle.Manager.Progress.{get_elem?-lt, Run}
use homepass.Lifecycle.Manager.Quiet.{started_at, Stands, Quiet, SameRest}
use homepass.Lifecycle.Manager.Rounds.{plus, after, plus_lem, AllSucceed, started-Reached}

module _ (conversions : Conversions) (codec : Codec) (max_retries : ℕ) (steps : List Step) where
  at_end :
      (fuel : ℕ) (turns : ℕ → Turn) (j : Journal) (o : LifecycleOperation)
      → length steps ≤ o.current_step
      → run_steps conversions codec max_retries steps (suc fuel) turns j o ≡ some (j, ok o)
  unfolding run_steps
  at_end fuel turns j o h = elim (Option-cases (get_elem? steps o.current_step)) [
    | inl e ↦ rw (e, run_steps) refl
    | inr (step, e) ↦ absurd (omega (arith, get_elem?-lt steps o.current_step e))
  ]

  -- An execution that does not complete its operation runs it to the end of its steps. Where the
  -- operation is loaded, is not completed or cancelled, stands at a step of the list or behind the last,
  -- was built, fits its stored form and is stored, every step from there on returns and leaves JSON
  -- payloads JSON, no other task runs, every write and observer succeeds, and the clock is in range and
  -- not behind the operation's creation, the call returns an operation with the same identifier that is
  -- running, stands exactly behind the last step, and comes from the started one by running the steps one
  -- after the other; it is stored, and all other records stay.
  pub execute-passes_all :
      (turns : ℕ → Turn) (last : Turn) (j : Journal) (o : LifecycleOperation)
      → get_operation conversions codec j o.operation_id ≡ ok o
      → is_terminal o.status ≡ false
      → o.current_step ≤ length steps
      → AllSucceed steps o.current_step (length steps)
      → ((i : ℕ) → Quiet conversions codec (instant o.created_at) (turns i))
      → Stands conversions codec j o
      → (j' : Journal) × (u : LifecycleOperation) × (execute conversions codec max_retries steps
            false turns last j o.operation_id
          ≡ some (j', ok u))
        × Run steps (started_at (turns 0).now o) u
        × (u.current_step ≡ length steps)
        × (u.operation_id ≡ o.operation_id)
        × (u.status ≡ running)
        × Stands conversions codec j' u
        × SameRest conversions codec o.operation_id j j'
  unfolding execute load then_loop then_finish
  execute-passes_all turns last j o loaded live le good quiet s =
      let n = length steps - o.current_step in
      let total : n + o.current_step ≡ length steps = omega arith in
      let left = length steps - n in
      let (m, r) =
        started-Reached conversions codec max_retries steps n (suc left) turns j o
          (omega (arith, total))
          (λ i step from until. good i step from (omega (arith, until, total))) quiet s in
      let fuel : suc (length steps) ≡ plus n (suc left) =
        omega (arith, total, plus_lem n (suc left)) in
      let ended_so =
        ap
          (λ (f : ℕ).
            run_steps conversions codec max_retries steps f (λ i. turns (suc i)) m.journal
              (started_at (turns 0).now o))
          fuel
        ∙ r.goes_on
        ∙ at_end left (after n (λ i. turns (suc i))) r.journal r.operation
            (omega (arith, r.at, total)) in
      (
        r.journal,
        r.operation,
        rw (loaded, live, m.returned, ended_so) refl,
        r.run,
        r.at ∙ total,
        r.same_id,
        r.same_status,
        r.stands,
        λ key other. r.rest key other ∙ m.rest key other,
      )
