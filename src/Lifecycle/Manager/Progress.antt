-- ===== src/Lifecycle/Manager/Progress.antt =====
-- How `LifecycleOperationManager.execute` goes on and ends.
use homepass.Prelude.{
  ℕ, suc, zero, ◌+◌, ◌≤◌, ◌<◌, ◌≡◌, ◌≢◌, refl, some, none, Option, Option-cases, Bool, Bool-cases,
  inl, inr, List, [], ◌∷◌, length, arith,
}
use mathlib.Core.Path.{subst}
use homepass.Prelude.Result.{◌>>◌, Result, ok, err, Result-cases}
use homepass.Models.Json.{Fields, Codec}
use homepass.Nfc.Records.{Conversions}
use homepass.Models.LifecycleOperation.{LifecycleOperation, non_negative}
use homepass.Models.LifecycleOperation.Stored.{lifecycle_operation_post_init-IsBuilt}
use homepass.Lifecycle.{Journal, replace}
use homepass.Lifecycle.Manager.{
  Turn, Change, Called, Outcome, success, step_failure, exception, Step, get_elem?, load, then_call,
  then_loop, then_raise, then_finish, changed, publish, transition, fail_step, fail_unexpectedly,
  advance, after_step, run_steps, execute, is_terminal, updated_payload,
}

pub get_elem?-lt :
    (steps : List Step) (i : ℕ) {s : Step} → get_elem? steps i ≡ some s → i < length steps
get_elem?-lt [] i h = cc
get_elem?-lt (x ∷ steps) zero h = omega arith
get_elem?-lt (x ∷ steps) (suc i) h = omega (arith, get_elem?-lt steps i h)

pub get_elem?-ge : (steps : List Step) (i : ℕ) → get_elem? steps i ≡ none → length steps ≤ i
get_elem?-ge [] i h = omega arith
get_elem?-ge (x ∷ steps) zero h = absurd (ground arith)
get_elem?-ge (x ∷ steps) (suc i) h = omega (arith, get_elem?-ge steps i h)

observed-ok :
    (called : Journal × Result (Unit {0})) (observed : Result (Unit {0})) (v u : LifecycleOperation)
    (j : Journal)
    → then_call called (λ k written. (k, (do observed; ok v))) ≡ (j, ok u)
    → (called ≡ (j, ok tt)) × (v ≡ u)
unfolding then_call
observed-ok (k, err e) observed v u j h = absurd (ground arith)
observed-ok (k, ok written) observed v u j h = ground arith

then_loop-ne_none :
    (called : Called) (next : Journal → LifecycleOperation → Option Called)
    → ((k : Journal) (u : LifecycleOperation) → called ≡ (k, ok u) → next k u ≢ none)
    → then_loop called next ≢ none
unfolding then_loop
then_loop-ne_none (k, err e) next h = λ x. cc
then_loop-ne_none (k, ok u) next h = h k u refl

some-injective : {a b : Called} → some a ≡ some b → a ≡ b
some-injective h = cc

pub then_loop-ok :
    (called : Called) (next : Journal → LifecycleOperation → Option Called) (j : Journal)
    (o : LifecycleOperation)
    → then_loop called next ≡ some (j, ok o)
    → (k : Journal) × (u : LifecycleOperation) × (called ≡ (k, ok u)) × (next k u ≡ some (j, ok o))
unfolding then_loop
then_loop-ok (k, err e) next j o h = absurd (ground arith)
then_loop-ok (k, ok u) next j o h = (k, u, refl, h)

pub then_call-ok :
    (called : Called) (next : Journal → LifecycleOperation → Called) (j : Journal)
    (o : LifecycleOperation)
    → then_call called next ≡ (j, ok o)
    → (k : Journal) × (u : LifecycleOperation) × (called ≡ (k, ok u)) × (next k u ≡ (j, ok o))
unfolding then_call
then_call-ok (k, err e) next j o h = absurd (ground arith)
then_call-ok (k, ok u) next j o h = (k, u, refl, h)

then_raise-ne_ok :
    (called : Called) {j : Journal} {o : LifecycleOperation} → then_raise called ≢ (j, ok o)
unfolding then_raise
then_raise-ne_ok (k, err e) h = ground arith
then_raise-ne_ok (k, ok u) h = ground arith

-- What an operation that has advanced by one step keeps.
pub record Advanced (o u : LifecycleOperation) (result : Option Fields) : Type 0 where
  pub next_step : u.current_step ≡ o.current_step + 1
  pub no_retry : u.retry_count ≡ 0
  pub same_id : u.operation_id ≡ o.operation_id
  pub same_status : u.status ≡ o.status
  pub merged : u.payload ≡ updated_payload o.payload result

-- A run from an operation to another: each step is the one of the list at which the operation stands, has
-- been called with this operation and has returned, and the next operation has advanced by its result.
pub data Run (steps : List Step) : LifecycleOperation → LifecycleOperation → Type 0 where
  ended : {o : LifecycleOperation} → Run steps o o
  ran :
      {o v u : LifecycleOperation} {step : Step} {result : Option Fields}
      → get_elem? steps o.current_step ≡ some step
      → step o ≡ success result
      → Advanced o v result
      → Run steps v u
      → Run steps o u

module _ (conversions : Conversions) (codec : Codec) where
  -- What a transition that returned has built and written.
  pub record Transitioned (turn : Turn) (j : Journal) (o : LifecycleOperation) (c : Change)
      (j' : Journal) (u : LifecycleOperation) : Type 0 where
    pub built : changed turn.now o c ≡ ok u
    pub written :
        replace conversions codec turn.saved (turn.interference j) u o.updated_at ≡ (j', ok tt)

  pub transition-ok :
      (turn : Turn) (j : Journal) (o : LifecycleOperation) (c : Change) (j' : Journal)
      (u : LifecycleOperation)
      → transition conversions codec turn j o c ≡ (j', ok u)
      → Transitioned turn j o c j' u
  unfolding transition publish
  transition-ok turn j o c j' u h = elim (Result-cases (changed turn.now o c)) [
    | inr (e, x) ↦ absurd (ground (arith, x, h))
    | inl (v, x) ↦
        let (written, same) =
          observed-ok (replace conversions codec turn.saved (turn.interference j) v o.updated_at)
            turn.observed v u j' (rw (x, transition) at h) in
        subst (Transitioned turn j o c j') same (record { built = x; written = written })
  ]

  advance-Advanced :
      (turn : Turn) (j : Journal) (o : LifecycleOperation) (result : Option Fields) (j' : Journal)
      (u : LifecycleOperation)
      → advance conversions codec turn j o result ≡ (j', ok u)
      → Advanced o u result
  unfolding advance changed non_negative
  advance-Advanced turn j o result j' u h =
      let t = transition-ok turn j o _ j' u h in
      let b = lifecycle_operation_post_init-IsBuilt _ u t.built in
      record {
        next_step = b.same_step;
        no_retry = b.same_retry;
        same_id = b.same_id;
        same_status = b.same_status;
        merged = b.same_payload;
      }

  after_step-returns :
      (max_retries : ℕ) (turn : Turn) (j : Journal) (o : LifecycleOperation)
      (next : Journal → LifecycleOperation → Option Called) (outcome : Outcome)
      → ((k : Journal) (u : LifecycleOperation)
          → u.current_step ≡ o.current_step + 1
          → next k u ≢ none)
      → after_step conversions codec max_retries turn j o next outcome ≢ none
  unfolding after_step
  after_step-returns max_retries turn j o next (success result) ih =
      then_loop-ne_none (advance conversions codec turn j o result) next
        λ k u e. ih k u ((advance-Advanced turn j o result k u e).next_step)
  after_step-returns max_retries turn j o next _ ih = λ e. cc

  then_finish-returns :
      (completes : Bool) (last : Turn) (run : Option Called)
      → run ≢ none
      → then_finish conversions codec completes last run ≢ none
  unfolding then_finish
  then_finish-returns completes last none h = absurd (h refl)
  then_finish-returns completes last (some run) h = then_loop-ne_none run _ λ k o e x. cc

  module _ (max_retries : ℕ) (steps : List Step) where
    round-returns :
        (fuel : ℕ) (turns : ℕ → Turn) (j : Journal) (o : LifecycleOperation)
        → ((k : Journal) (u : LifecycleOperation)
            → o.current_step < length steps
            → u.current_step ≡ o.current_step + 1
            → run_steps conversions codec max_retries steps fuel (λ n. turns (suc n)) k u ≢ none)
        → run_steps conversions codec max_retries steps (suc fuel) turns j o ≢ none
    unfolding run_steps
    round-returns fuel turns j o ih = elim (Option-cases (get_elem? steps o.current_step)) [
      | inl e ↦ rw (e, run_steps) (λ x. cc)
      | inr (step, e) ↦
          rw (e, run_steps)
            (after_step-returns max_retries (turns 0) j o _ (step o)
              λ k u e'. ih k u (get_elem?-lt steps o.current_step e) e')
    ]

    -- The loop ends where the fuel is more than the steps that are left.
    run_steps-returns :
        (fuel : ℕ) (turns : ℕ → Turn) (j : Journal) (o : LifecycleOperation)
        → length steps ≤ fuel + o.current_step
        → run_steps conversions codec max_retries steps (suc fuel) turns j o ≢ none
    run_steps-returns zero turns j o h =
        round-returns zero turns j o λ k u lt e. absurd (omega arith)
    run_steps-returns (suc fuel) turns j o h =
        round-returns (suc fuel) turns j o
          λ k u lt e. run_steps-returns fuel (λ n. turns (suc n)) k u (omega arith)

    -- Executing an operation ends: whatever the steps do, other tasks change and the storage answers,
    -- the loop does not outlast its fuel, which is one round more than there are steps.
    pub execute-returns :
        (completes : Bool) (turns : ℕ → Turn) (last : Turn) (j : Journal) (operation_id : ℕ)
        → execute conversions codec max_retries steps completes turns last j operation_id ≢ none
    unfolding execute
    execute-returns completes turns last j operation_id =
        then_loop-ne_none (load conversions codec j operation_id) _ λ k o e.
          elim (Bool-cases (is_terminal o.status)) [
            | inl t ↦ rw t (λ x. cc)
            | inr t ↦ rw t (
                then_loop-ne_none _ _ λ k' u e'.
                  then_finish-returns completes last _
                    (run_steps-returns (length steps) (λ n. turns (suc n)) k' u (omega arith)))
          ]

  after_step-ok :
      (max_retries : ℕ) (turn : Turn) (j : Journal) (o : LifecycleOperation)
      (next : Journal → LifecycleOperation → Option Called) (outcome : Outcome) (j' : Journal)
      (u : LifecycleOperation)
      → after_step conversions codec max_retries turn j o next outcome ≡ some (j', ok u)
      → (result : Option Fields) × (k : Journal) × (v : LifecycleOperation) × (outcome
          ≡ success result)
        × Advanced o v result
        × (next k v ≡ some (j', ok u))
  unfolding after_step fail_step fail_unexpectedly
  after_step-ok max_retries turn j o next (success result) j' u h =
      let (k, v, e, e') = then_loop-ok (advance conversions codec turn j o result) next j' u h in
      (result, k, v, refl, advance-Advanced turn j o result k v e, e')
  after_step-ok max_retries turn j o next (step_failure changes retryable) j' u h =
      absurd (then_raise-ne_ok _ {j = j'} {o = u} (some-injective h))
  after_step-ok max_retries turn j o next exception j' u h =
      absurd (then_raise-ne_ok _ {j = j'} {o = u} (some-injective h))

  -- If the loop returns an operation, then it comes from the one given by a run: the steps from the one
  -- where that stood have been called one after the other, each with the operation that the one before has
  -- left, and each has returned and moved the operation to the next step; and the run has passed the last
  -- step of the list.
  pub run_steps_sound :
      (max_retries : ℕ) (steps : List Step) (fuel : ℕ) (turns : ℕ → Turn) (j j' : Journal)
      (o u : LifecycleOperation)
      → run_steps conversions codec max_retries steps fuel turns j o ≡ some (j', ok u)
      → (length steps ≤ u.current_step) × Run steps o u
  unfolding run_steps
  run_steps_sound max_retries steps zero turns j j' o u h = absurd (ground arith)
  run_steps_sound max_retries steps (suc fuel) turns j j' o u h =
      elim (Option-cases (get_elem? steps o.current_step)) [
        | inl e ↦
            let same : o ≡ u = ground (arith, e, h) in
            subst (λ (x : LifecycleOperation). (length steps ≤ x.current_step) × Run steps o x) same
              (get_elem?-ge steps o.current_step e, ended)
        | inr (step, e) ↦
            let (result, k, v, returned, adv, rest) =
              after_step-ok max_retries (turns 0) j o _ (step o) j' u (rw (e, run_steps) at h) in
            let (all, later) =
              run_steps_sound max_retries steps fuel (λ n. turns (suc n)) k j' v u rest in
            (all, ran e returned adv later)
      ]
