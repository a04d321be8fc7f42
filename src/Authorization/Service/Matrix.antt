-- ===== src/Authorization/Service/Matrix.antt =====
-- `evaluate_policy_matrix` of services/authorization.py: every stored Person at every Door, each cell
-- on its own. Of the exceptions that a cell can meet only `KeyError` is not caught.
pub mod Faithful
use homepass.Prelude.{
  ℕ, ◌+◌, ◌*◌, ◌≡◌, refl, Bool, true, false, Option, none, some, List, [], ◌∷◌, ◌++◌, map, String,
  arith, length, length-append, All,
}
use homepass.Prelude.Dict.{Dict}
use homepass.Prelude.Result.{
  Error, Result, ok, err, value_error, key_error, authorization_context, ◌>>=◌, >>=-eq-ok,
}
use homepass.Prelude.Sorting.{sorted}
use homepass.Prelude.Instant.{Datetime}
use homepass.Models.Json.{Codec, Fields, or_value_error}
use homepass.Models.Person.{Person}
use homepass.Models.AccessPoint.{AccessPoint}
use homepass.Schedule.Stored.{TimeCodec}
use homepass.Schedule.Evaluation.{Zones}
use homepass.Authorization.Decision.{AuthorizationDecision}
use homepass.Authorization.Storage.{StorageData}
use homepass.Authorization.Snapshot.{Context, decode_person, decode_snapshot}
use homepass.Authorization.Service.{Lookup, sanitize, authorize_context}

-- `AuthorizationMatrixCell`
pub record Cell : Type 0 where
  pub access_point : AccessPoint
  pub person : Option Person
  pub decision : Option AuthorizationDecision

pub record PolicyMatrix : Type 0 where
  pub access_points : List AccessPoint
  pub cells : List Cell

-- The keys of a dictionary, in its order.
abbrev pub keys : Dict String Fields → List String
keys = map (λ e. e.0)

unfoldable pub option_of {ℓ} : {A : Type ℓ} → Result A → Option A
option_of (ok a) = some a
option_of (err e) = none

-- `_list_access_points`
unfoldable pub list_access_points : Option Lookup → StorageData → Result (List AccessPoint)
unfolding sanitize
list_access_points none snapshot = err authorization_context
list_access_points (some lookup) snapshot = sanitize (lookup.list_access_points snapshot)

module _ (codec : Codec) (times : TimeCodec) (zones : Zones)
    (string_lt : String → String → Bool) where
  -- What the body of the loop evaluates.
  unfoldable pub evaluate_cell :
      StorageData → AccessPoint → String → Datetime → Result (Person × AuthorizationDecision)
  unfolding or_value_error
  evaluate_cell snapshot access_point person_key at = do
    person_id ← or_value_error (codec.parse_uuid person_key)
    c ← decode_snapshot codec times zones.zone_exists snapshot person_id access_point.id
    decision ← authorize_context codec times zones c access_point at
    ok (c.person, decision)

  -- `_try_decode_person`
  unfoldable pub try_decode_person : StorageData → String → Option Person
  unfolding or_value_error option_of
  try_decode_person snapshot person_key = option_of (do
    person_id ← or_value_error (codec.parse_uuid person_key)
    decode_person codec times zones.zone_exists snapshot person_id)

  -- The cell of an evaluation that returned or raised.
  unfoldable pub cell_of :
      AccessPoint → Option Person → Result (Person × AuthorizationDecision) → Result Cell
  cell_of access_point fallback (ok (person, decision)) =
      ok (record { access_point = access_point; person = some person; decision = some decision })
  cell_of access_point fallback (err key_error) = err key_error
  cell_of access_point fallback (err e) =
      ok (record { access_point = access_point; person = fallback; decision = none })

  -- The inner loop, over the people at one Door.
  unfoldable pub door_cells :
      StorageData → AccessPoint → List String → Datetime → Result (List Cell)
  door_cells snapshot access_point [] at = ok []
  door_cells snapshot access_point (person_key ∷ rest) at = do
    cell ←
        cell_of access_point (try_decode_person snapshot person_key)
          (evaluate_cell snapshot access_point person_key at)
    cells ← door_cells snapshot access_point rest at
    ok (cell ∷ cells)

  -- The outer loop, over the Doors.
  unfoldable pub all_cells :
      StorageData → List AccessPoint → List String → Datetime → Result (List Cell)
  all_cells snapshot [] person_keys at = ok []
  all_cells snapshot (access_point ∷ rest) person_keys at = do
    cells ← door_cells snapshot access_point person_keys at
    others ← all_cells snapshot rest person_keys at
    ok (cells ++ others)

  unfoldable pub evaluate_policy_matrix :
      Result StorageData → Option Lookup → Datetime → Result PolicyMatrix
  evaluate_policy_matrix load lookup at = do
    snapshot ← sanitize load
    access_points ← list_access_points lookup snapshot
    cells ← all_cells snapshot access_points (sorted string_lt (keys snapshot.people)) at
    ok (record { access_points = access_points; cells = cells })
