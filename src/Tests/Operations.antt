-- ===== src/Tests/Operations.antt =====
-- Lifecycle operations on concrete inputs.
use homepass.Prelude.{
  ℕ, ◌+◌, ◌≤◌, ◌<◌, ◌≡◌, ◌≢◌, refl, true, false, none, some, ap, sym, zero, suc, [], ◌∷◌, arith,
  string_eq,
}
use homepass.Prelude.Result.{ok, err, lifecycle_operation_execution, lifecycle_operation_conflict}
use homepass.Prelude.Text.{count_chars, strip, is_empty}
use homepass.Prelude.Dict.{get, put}
use homepass.Prelude.Sorting.{sorted, insert_sorted}
use homepass.Prelude.Instant.{aware, normalize_datetime}
use homepass.Models.Json.{end, get_field, update_fields, or_value_error}
use homepass.Nfc.Records.{item, text_of, uuid_of}
use homepass.Authorization.Storage.{or_raise}
use homepass.Models.LifecycleOperation.{
  running, cancelled, completed, LifecycleOperation, json_value, non_negative,
  operation_status_value, operation_status_of, lifecycle_operation_post_init,
  parse_operation_status, typed_text, typed_payload, lifecycle_operation_to_dict,
  lifecycle_operation_from_dict, read_operation,
}
use homepass.Models.LifecycleOperation.Stored.{
  InRange, from_dict-to_dict, lifecycle_operation_round_trip,
}
use homepass.Lifecycle.{
  Journal, mutate, replace_change, replace, deserialize_from, list_all, find_operation,
  get_operation,
}
use homepass.Lifecycle.Concurrency.{Found, replace-no_lost_update}
use homepass.Lifecycle.Manager.{
  Turn, is_terminal, Step, get_elem?, Outcome, success, step_failure, updated_payload, changed,
  publish, transition, then_call, then_loop, advance, after_step, run_steps, execute, complete,
}
use homepass.Lifecycle.Manager.Failure.{Bounded}
use homepass.Lifecycle.Manager.Reached.{here, after, completing, retries-Bounded}
use homepass.Lifecycle.Manager.Progress.{Run, execute-returns, run_steps_sound}
use homepass.Lifecycle.Manager.Endings.{complete-overrides_cancel}
use homepass.Lifecycle.Manager.Quiet.{Succeeds, Stands, Quiet, SameRest, started_at}
use homepass.Lifecycle.Manager.Completed.{execute-passes_all}
use homepass.Lifecycle.Manager.Failed.{Fails, failed_at, execute-records_failure}
use homepass.Tests.Fixtures.{unary, codec}
use homepass.Tests.Tokens.{conversions}

abbrev job : LifecycleOperation
job = record {
  operation_type = "move";
  payload = end;
  operation_id = 1;
  status = running;
  current_step = 0;
  retry_count = 0;
  created_at = aware 1;
  updated_at = aware 2;
}

abbrev stopped : LifecycleOperation
stopped = record job { status = cancelled }

abbrev journal : LifecycleOperation → Journal
journal o = ("1", lifecycle_operation_to_dict codec o) ∷ []

abbrev quiet : ℕ → Turn
quiet now = record { now = now; interference = λ j. j; saved = ok tt; observed = ok tt }

abbrev steps : Outcome → Step
steps outcome = λ o. outcome

job_built : lifecycle_operation_post_init job ≡ ok job
unfolding lifecycle_operation_post_init json_value strip is_empty normalize_datetime
job_built = refl

stopped_built : lifecycle_operation_post_init stopped ≡ ok stopped
unfolding lifecycle_operation_post_init json_value strip is_empty normalize_datetime
stopped_built = refl

job_range : InRange codec job
job_range = record { id_fits = omega arith; created_fits = omega arith; updated_fits = omega arith }

stopped_range : InRange codec stopped
stopped_range = record {
  id_fits = omega arith;
  created_fits = omega arith;
  updated_fits = omega arith;
}

job-Found : Found conversions codec (journal job) job (aware 2)
unfolding get unary
job-Found = record {
  fields = lifecycle_operation_to_dict codec job;
  current = job;
  stored = refl;
  decoded = lifecycle_operation_round_trip conversions codec job job job_built job_range;
  unchanged = refl;
}

stopped-Found : Found conversions codec (journal stopped) stopped (aware 2)
unfolding get unary
stopped-Found = record {
  fields = lifecycle_operation_to_dict codec stopped;
  current = stopped;
  stored = refl;
  decoded =
      lifecycle_operation_round_trip conversions codec stopped stopped stopped_built stopped_range;
  unchanged = refl;
}

-- A version of the operation that was written later.
abbrev newer : LifecycleOperation
newer = record job { updated_at = aware 5 }

newer_built : lifecycle_operation_post_init newer ≡ ok newer
unfolding lifecycle_operation_post_init json_value strip is_empty normalize_datetime
newer_built = refl

newer_range : InRange codec newer
newer_range = record {
  id_fits = omega arith;
  created_fits = omega arith;
  updated_fits = omega arith;
}

newer_written :
    replace conversions codec (ok tt) (journal job) newer (aware 2) ≡ (journal newer, ok tt)
unfolding replace mutate replace_change get put unary lifecycle_operation_from_dict
    lifecycle_operation_to_dict read_operation item get_field uuid_of text_of or_value_error
    or_raise parse_operation_status typed_text typed_payload non_negative operation_status_of
    operation_status_value lifecycle_operation_post_init json_value strip is_empty count_chars
    normalize_datetime
newer_written = refl

replace-no_lost_update_example :
    replace conversions codec
      (ok tt)
      (replace conversions codec (ok tt) (journal job) newer (aware 2)).0
      job
      (aware 2)
    ≡ (
      (replace conversions codec (ok tt) (journal job) newer (aware 2)).0,
      err lifecycle_operation_conflict,
    )
replace-no_lost_update_example =
    replace-no_lost_update conversions codec (ok tt) (ok tt) (journal job) newer newer job (aware 2)
      newer_built newer_range refl (omega arith) (rw newer_written refl)

stopped_loaded : get_operation conversions codec (journal stopped) 1 ≡ ok stopped
unfolding get_operation list_all deserialize_from find_operation sorted insert_sorted put unary
    lifecycle_operation_from_dict lifecycle_operation_to_dict read_operation item get_field uuid_of
    text_of or_value_error or_raise parse_operation_status typed_text typed_payload non_negative
    operation_status_of operation_status_value lifecycle_operation_post_init json_value strip
    is_empty count_chars normalize_datetime
stopped_loaded = refl

complete-overrides_cancel_example : complete conversions codec (quiet 7) (journal stopped) 1 ≡ (
  put (journal stopped) "1" (
      lifecycle_operation_to_dict codec
        (record stopped { status = completed; updated_at = aware 7 })),
  ok (record stopped { status = completed; updated_at = aware 7 }),
)
unfolding unary
complete-overrides_cancel_example =
    complete-overrides_cancel conversions codec (quiet 7) (journal stopped) stopped stopped
      stopped_loaded refl stopped_built (omega arith)
      (record { found = stopped-Found; saves = refl; observes = refl })

execute-returns_example :
    execute conversions codec 5 (steps (success none) ∷ []) true quiet (quiet 9) (journal job) 1
    ≢ none
execute-returns_example =
    execute-returns conversions codec 5 (steps (success none) ∷ []) true quiet (quiet 9)
      (journal job) 1

-- The operation after its only step.
abbrev advanced : LifecycleOperation
advanced = record job { current_step = 1; updated_at = aware 7 }

advanced_once :
    run_steps conversions codec 5
      (steps (success none) ∷ [])
      2
      (λ n. quiet (7 + n))
      (journal job)
      job
    ≡ some (journal advanced, ok advanced)
unfolding run_steps after_step then_loop advance updated_payload transition changed publish
    then_call replace mutate replace_change get put unary lifecycle_operation_from_dict
    lifecycle_operation_to_dict read_operation item get_field uuid_of text_of or_value_error
    or_raise parse_operation_status typed_text typed_payload non_negative operation_status_of
    operation_status_value lifecycle_operation_post_init json_value strip is_empty count_chars
    normalize_datetime
advanced_once = refl

run_steps_sound_example : (1 ≤ advanced.current_step) × Run (steps (success none) ∷ []) job advanced
run_steps_sound_example =
    run_steps_sound conversions codec 5 (steps (success none) ∷ []) 2 (λ n. quiet (7 + n))
      (journal job) (journal advanced) job advanced advanced_once

job-Bounded : Bounded conversions codec 5 (journal job)
job-Bounded = (λ o e w. absurd (ground (arith, from_dict-to_dict conversions codec job o e, w)), tt)

retries-Bounded_example :
    Bounded conversions codec 5 (complete conversions codec (quiet 7) (journal job) 1).0
retries-Bounded_example =
    retries-Bounded conversions codec 5 (after here (completing (quiet 7) 1 (λ j b. b) refl))
      job-Bounded

some-injective : {a b : Step} → some a ≡ some b → a ≡ b
some-injective h = cc

job_loaded : get_operation conversions codec (journal job) 1 ≡ ok job
unfolding get_operation list_all deserialize_from find_operation sorted insert_sorted put unary
    lifecycle_operation_from_dict lifecycle_operation_to_dict read_operation item get_field uuid_of
    text_of or_value_error or_raise parse_operation_status typed_text typed_payload non_negative
    operation_status_of operation_status_value lifecycle_operation_post_init json_value strip
    is_empty count_chars normalize_datetime
job_loaded = refl

job-Stands : Stands conversions codec (journal job) job
unfolding get unary
job-Stands = record { built = job_built; fits = job_range; stored = refl }

quiet-Quiet : Quiet conversions codec 1 (quiet 7)
quiet-Quiet = record {
  alone = λ j. refl;
  saves = refl;
  observes = refl;
  later = omega arith;
  in_range = omega arith;
}

-- A step that returns nothing keeps the payload.
only_step-Succeeds :
    (i : ℕ) (step : Step) → get_elem? (steps (success none) ∷ []) i ≡ some step → Succeeds step
unfolding updated_payload
only_step-Succeeds zero step h = λ o json. (none, ap (λ f. f o) (some-injective (sym h)), json)
only_step-Succeeds (suc i) step h = cc

first_step-Succeeds :
    (i : ℕ) (step : Step)
    → 0 ≤ i
    → i < 1
    → get_elem? (steps (success none) ∷ steps (step_failure end true) ∷ []) i ≡ some step
    → Succeeds step
unfolding updated_payload
first_step-Succeeds zero step from until h =
    λ o json. (none, ap (λ f. f o) (some-injective (sym h)), json)
first_step-Succeeds (suc i) step from until h = absurd (omega arith)

execute-passes_all_example :
    (j : Journal) × (u : LifecycleOperation) × (execute conversions codec 5
        (steps (success none) ∷ [])
        false
        (λ n. quiet 7)
        (quiet 9)
        (journal job)
        1
      ≡ some (j, ok u))
    × Run (steps (success none) ∷ []) (started_at 7 job) u
    × (u.current_step ≡ 1)
    × (u.operation_id ≡ 1)
    × (u.status ≡ running)
    × Stands conversions codec j u
    × SameRest conversions codec 1 (journal job) j
unfolding is_terminal
execute-passes_all_example =
    execute-passes_all conversions codec 5 (steps (success none) ∷ []) (λ n. quiet 7) (quiet 9)
      (journal job) job job_loaded refl (omega arith)
      (λ i step from until e. only_step-Succeeds i step e) (λ n. quiet-Quiet) job-Stands

broken-Fails : Fails (steps (step_failure end true)) end true
unfolding update_fields
broken-Fails = λ o json. (refl, json)

-- The first step returns and the second one fails.
execute-records_failure_example :
    (j : Journal) × (u : LifecycleOperation) × (execute conversions codec 5
        (steps (success none) ∷ steps (step_failure end true) ∷ [])
        true
        (λ n. quiet 7)
        (quiet 9)
        (journal job)
        1
      ≡ some (j, err lifecycle_operation_execution))
    × Run (steps (success none) ∷ steps (step_failure end true) ∷ []) (started_at 7 job) u
    × (u.current_step ≡ 1)
    × (get j (codec.print_uuid 1)
        ≡ some (lifecycle_operation_to_dict codec (failed_at 5 7 u end true)))
    × SameRest conversions codec 1 (journal job) j
unfolding is_terminal
execute-records_failure_example =
    execute-records_failure conversions codec 5
      (steps (success none) ∷ steps (step_failure end true) ∷ []) true (λ n. quiet 7) (quiet 9)
      (journal job) job 1 (steps (step_failure end true)) end true job_loaded refl
      first_step-Succeeds refl broken-Fails (λ n. quiet-Quiet) job-Stands
