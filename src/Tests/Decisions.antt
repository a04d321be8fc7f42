-- ===== src/Tests/Decisions.antt =====
-- The authorization of the stored Person at the stored Door, on Monday at 09:00.
use homepass.Prelude.{◌≡◌, ◌≢◌, ◌↔◌, refl, some, [], ◌∷◌, All, true, false}
use mathlib.Core.List.Perm
use homepass.Prelude.Result.{ok}
use homepass.Prelude.Dict.{get}
use homepass.Prelude.Instant.{Datetime, aware}
use homepass.Prelude.Sorting.{sorted}
use homepass.Prelude.Text.{count_chars}
use homepass.Models.AccessPoint.{access_point_to_dict}
use homepass.Authorization.Snapshot.{decode_snapshot, decode_person}
use homepass.Models.AccessPoint.Stored.{access_point_round_trip}
use homepass.Models.Synchronization.{
  synchronized, pending, aggregate_synchronization_status, aggregate-perm,
  aggregate-synchronized_iff,
}
use homepass.Authorization.Decision.{
  allowed, policy_conflict, authorize_access, authorize_grant, validate_invariants,
  schedule_decision, Entitled, authorize_access-allowed_iff,
}
use homepass.Authorization.Storage.{get_from_snapshot, deserialize_access_point, or_raise}
use homepass.Authorization.Snapshot.Consistent.{IsConsistent, decode_snapshot-IsConsistent}
use homepass.Authorization.Service.{
  sanitize, sanitize_lookup, load_access_point, supplement, authorize_context, resolve,
}
use homepass.Authorization.Service.Sound.{Passage, resolve_sound, resolve-allowed}
use homepass.Authorization.Service.Matrix.{
  PolicyMatrix, keys, list_access_points, evaluate_cell, cell_of, door_cells, all_cells,
  evaluate_policy_matrix,
}
use homepass.Authorization.Service.Matrix.Faithful.{
  AllFaithful, places, evaluate_policy_matrix-Faithful,
}
use homepass.Tests.Fixtures.{unary, codec, times, zones, built_week}
use homepass.Tests.Schedules.{evaluate_schedule_test}
use homepass.Tests.Access.{
  ann, door, grant, snapshot, context, lookup, fresh, relationship, decoded, door_built, door_range,
}

abbrev monday_morning : Datetime
monday_morning = aware 32400000000

decided : authorize_access zones ann (some grant) door true built_week monday_morning ≡ ok allowed
unfolding authorize_access authorize_grant validate_invariants schedule_decision
decided = rw evaluate_schedule_test refl

door_found : get_from_snapshot codec snapshot 2 ≡ ok door
unfolding get_from_snapshot get unary deserialize_access_point or_raise access_point_to_dict
door_found = rw (access_point_round_trip codec door door door_built door_range) refl

pub resolved :
    resolve codec times zones (ok snapshot) (some lookup) fresh false 1 2 monday_morning
    ≡ ok relationship
unfolding resolve sanitize supplement load_access_point sanitize_lookup authorize_context
resolved = rw (decoded, door_found, decided) refl

authorize_access-allowed_iff_example :
    (authorize_access zones ann (some grant) door true built_week monday_morning ≡ ok allowed)
    ↔ Entitled zones ann grant door true built_week monday_morning
authorize_access-allowed_iff_example =
    authorize_access-allowed_iff zones ann grant door true built_week monday_morning

decode_snapshot-IsConsistent_example : IsConsistent context 1 2
decode_snapshot-IsConsistent_example =
    decode_snapshot-IsConsistent codec times zones.zone_exists snapshot 1 2 context decoded

resolve_sound_example :
    (relationship.person.person_id ≡ 1)
    × (relationship.access_point.id ≡ 2)
    × (relationship.decision ≢ policy_conflict)
resolve_sound_example =
    resolve_sound codec times zones (ok snapshot) (some lookup) fresh false 1 2 monday_morning
      relationship resolved

resolve-allowed_example :
    Passage codec times zones
      (ok snapshot)
      (some lookup)
      fresh
      false
      1
      2
      monday_morning
      relationship
resolve-allowed_example =
    resolve-allowed codec times zones (ok snapshot) (some lookup) fresh false 1 2 monday_morning
      relationship resolved refl

abbrev matrix : PolicyMatrix
matrix = record {
  access_points = door ∷ [];
  cells = record { access_point = door; person = some ann; decision = some allowed } ∷ [];
}

evaluated :
    evaluate_policy_matrix codec times zones
      (λ a b. false)
      (ok snapshot)
      (some lookup)
      monday_morning
    ≡ ok matrix
unfolding evaluate_policy_matrix sanitize list_access_points all_cells door_cells cell_of
    evaluate_cell authorize_context sorted decode_snapshot decode_person get unary count_chars
evaluated = rw (decoded, decided) refl

evaluate_policy_matrix-Faithful_example :
    (list_access_points (some lookup) snapshot ≡ ok matrix.access_points)
    × AllFaithful codec times zones
        (λ a b. false)
        snapshot
        monday_morning
        matrix.cells
        (places matrix.access_points (sorted (λ a b. false) (keys snapshot.people)))
evaluate_policy_matrix-Faithful_example =
    evaluate_policy_matrix-Faithful codec times zones (λ a b. false) snapshot (some lookup)
      monday_morning matrix evaluated

aggregate-synchronized_iff_example :
    (aggregate_synchronization_status (synchronized ∷ synchronized ∷ []) ≡ synchronized) ↔ (
      ((synchronized ∷ synchronized ∷ []) ≢ [])
      × All (λ x. x ≡ synchronized) (synchronized ∷ synchronized ∷ []))
aggregate-synchronized_iff_example = aggregate-synchronized_iff (synchronized ∷ synchronized ∷ [])

aggregate-perm_example :
    aggregate_synchronization_status (synchronized ∷ pending ∷ [])
    ≡ aggregate_synchronization_status (pending ∷ synchronized ∷ [])
aggregate-perm_example = aggregate-perm (Perm.swap pending synchronized [])
