-- ===== src/Authorization/Service/Matrix/Faithful.antt =====
-- The policy matrix has a cell for every Person at every Door, and fails closed.
use homepass.Prelude.{
  ◌≡◌, refl, sym, ap, ◌∙◌, Bool, Option, none, some, List, [], ◌∷◌, ◌++◌, String, arith,
}
use homepass.Prelude.Result.{Result, ok, err, from_bind, ok-injective}
use homepass.Prelude.Sorting.{sorted}
use mathlib.Core.Path.{subst}
use homepass.Prelude.Instant.{Datetime}
use homepass.Models.Json.{Codec, or_value_error}
use homepass.Models.Person.{Person}
use homepass.Models.AccessPoint.{AccessPoint}
use homepass.Schedule.Stored.{TimeCodec}
use homepass.Schedule.Evaluation.{Zones}
use homepass.Authorization.Decision.{AuthorizationDecision}
use homepass.Authorization.Storage.{StorageData}
use homepass.Authorization.Snapshot.{Context, decode_snapshot}
use homepass.Authorization.Snapshot.Consistent.{decode_snapshot-IsConsistent}
use homepass.Authorization.Service.{Lookup, sanitize, authorize_context}
use homepass.Authorization.Service.Matrix.{
  Cell, PolicyMatrix, keys, list_access_points, evaluate_cell, try_decode_person, cell_of,
  door_cells, all_cells, evaluate_policy_matrix,
}

-- A Door, and the key of a Person.
abbrev pub Place : Type 0
Place = AccessPoint × String

-- Every Person at a Door, and every Person at every Door, Door by Door.
abbrev pub at_door : AccessPoint → List String → List Place
at_door door [] = []
at_door door (key ∷ rest) = (door, key) ∷ at_door door rest

abbrev pub places : List AccessPoint → List String → List Place
places [] person_keys = []
places (door ∷ doors) person_keys = at_door door person_keys ++ places doors person_keys

module _ (codec : Codec) (times : TimeCodec) (zones : Zones)
    (string_lt : String → String → Bool) where
  -- A decision of the policy engine about the Person of a key at a Door, in the context that is decoded
  -- from the snapshot.
  pub record Decided (snapshot : StorageData) (at : Datetime) (place : Place) (p : Person)
      (d : AuthorizationDecision) : Type 0 where
    pub context : Context
    pub this_key : codec.parse_uuid place.1 ≡ some p.person_id
    pub decoded :
        decode_snapshot codec times zones.zone_exists snapshot p.person_id place.0.id ≡ ok context
    pub this_person : context.person ≡ p
    pub decided : authorize_context codec times zones context place.0 at ≡ ok d

  -- The cell of a place is at its Door, shows a decision only about its Person, whom it then shows, and
  -- without a decision shows the Person as far as the record can be read.
  pub record Faithful (snapshot : StorageData) (at : Datetime) (cell : Cell) (place : Place)
      : Type 0 where
    pub this_door : cell.access_point ≡ place.0
    pub shown :
        (d : AuthorizationDecision)
        → cell.decision ≡ some d
        → (p : Person) × (cell.person ≡ some p) × Decided snapshot at place p d
    pub undecided :
        cell.decision ≡ none
        → cell.person ≡ try_decode_person codec times zones string_lt snapshot place.1

  -- The cells of places, in their order.
  abbrev pub AllFaithful : StorageData → Datetime → List Cell → List Place → Type 0
  AllFaithful snapshot at [] [] = Unit
  AllFaithful snapshot at (cell ∷ cells) (place ∷ rest) =
      Faithful snapshot at cell place × AllFaithful snapshot at cells rest
  AllFaithful snapshot at _ _ = ⊥

  evaluate_cell-Decided :
      (snapshot : StorageData) (at : Datetime) (door : AccessPoint) (key : String) (p : Person)
      (d : AuthorizationDecision)
      → evaluate_cell codec times zones string_lt snapshot door key at ≡ ok (p, d)
      → Decided snapshot at (door, key) p d
  unfolding evaluate_cell or_value_error
  evaluate_cell-Decided snapshot at door key p d h =
      from_bind (or_value_error (codec.parse_uuid key)) h λ id e h1.
        from_bind (decode_snapshot codec times zones.zone_exists snapshot id door.id) h1 λ c e1 h2.
          from_bind (authorize_context codec times zones c door at) h2 λ d' e2 h3.
            let same : (c.person ≡ p) × (d' ≡ d) = ground arith in
            let fits =
              decode_snapshot-IsConsistent codec times zones.zone_exists snapshot id door.id c e1 in
            let this = sym fits.this_person ∙ ap (λ (q : Person). q.person_id) same.0 in
            record {
              context = c;
              this_key = ground (arith, e, this);
              decoded = rw (sym this) e1;
              this_person = same.0;
              decided = e2 ∙ ap ok same.1;
            }

  cell_of-Faithful :
      (snapshot : StorageData) (at : Datetime) (door : AccessPoint) (key : String)
      (r : Result (Person × AuthorizationDecision)) (cell : Cell)
      → evaluate_cell codec times zones string_lt snapshot door key at ≡ r
      → cell_of codec times zones string_lt door
          (try_decode_person codec times zones string_lt snapshot key)
          r
        ≡ ok cell
      → Faithful snapshot at cell (door, key)
  unfolding cell_of
  cell_of-Faithful snapshot at door key (ok (p, d)) cell e h = record {
    this_door = ground arith;
    shown = λ d' shown.
        (p, ground arith, evaluate_cell-Decided snapshot at door key p d' (ground (arith, e)));
    undecided = λ none_shown. absurd (ground arith);
  }
  cell_of-Faithful snapshot at door key (err x) cell e h = record {
    this_door = ground arith;
    shown = λ d shown. absurd (ground arith);
    undecided = λ none_shown. ground arith;
  }

  AllFaithful-append :
      (snapshot : StorageData) (at : Datetime) (xs ys : List Cell) (ps qs : List Place)
      → AllFaithful snapshot at xs ps
      → AllFaithful snapshot at ys qs
      → AllFaithful snapshot at (xs ++ ys) (ps ++ qs)
  AllFaithful-append snapshot at [] ys [] qs hx hy = hy
  AllFaithful-append snapshot at [] ys (p ∷ ps) qs hx hy = absurd hx
  AllFaithful-append snapshot at (x ∷ xs) ys [] qs hx hy = absurd hx
  AllFaithful-append snapshot at (x ∷ xs) ys (p ∷ ps) qs hx hy =
      (hx.0, AllFaithful-append snapshot at xs ys ps qs hx.1 hy)

  door_cells-AllFaithful :
      (snapshot : StorageData) (door : AccessPoint) (person_keys : List String) (at : Datetime)
      (cells : List Cell)
      → door_cells codec times zones string_lt snapshot door person_keys at ≡ ok cells
      → AllFaithful snapshot at cells (at_door door person_keys)
  unfolding door_cells
  door_cells-AllFaithful snapshot door [] at [] h = tt
  door_cells-AllFaithful snapshot door [] at (c ∷ cs) h = cc
  door_cells-AllFaithful snapshot door (key ∷ rest) at cells h =
      from_bind
        (cell_of codec times zones string_lt door
          (try_decode_person codec times zones string_lt snapshot key)
          (evaluate_cell codec times zones string_lt snapshot door key at))
        h
        λ cell made h1.
          from_bind (door_cells codec times zones string_lt snapshot door rest at) h1
            λ others more h2.
              subst (λ l. AllFaithful snapshot at l ((door, key) ∷ at_door door rest))
                (ok-injective h2)
                (
                  cell_of-Faithful snapshot at door key _ cell refl made,
                  door_cells-AllFaithful snapshot door rest at others more,
                )

  all_cells-AllFaithful :
      (snapshot : StorageData) (doors : List AccessPoint) (person_keys : List String)
      (at : Datetime) (cells : List Cell)
      → all_cells codec times zones string_lt snapshot doors person_keys at ≡ ok cells
      → AllFaithful snapshot at cells (places doors person_keys)
  unfolding all_cells
  all_cells-AllFaithful snapshot [] person_keys at [] h = tt
  all_cells-AllFaithful snapshot [] person_keys at (c ∷ cs) h = cc
  all_cells-AllFaithful snapshot (door ∷ doors) person_keys at cells h =
      from_bind (door_cells codec times zones string_lt snapshot door person_keys at) h
        λ these made h1.
          from_bind (all_cells codec times zones string_lt snapshot doors person_keys at) h1
            λ others more h2.
              subst (λ l. AllFaithful snapshot at l (places (door ∷ doors) person_keys))
                (ok-injective h2)
                (AllFaithful-append snapshot at these others (at_door door person_keys)
                  (places doors person_keys)
                  (door_cells-AllFaithful snapshot door person_keys at these made)
                  (all_cells-AllFaithful snapshot doors person_keys at others more))

  -- If the matrix is returned, its Doors are the listed ones, and its cells are, Door by Door, one for
  -- each stored key of a Person in sorted order. A cell is at its Door, and shows a decision only if the
  -- key is the identifier of the Person that it shows, and the policy engine has decided so about this
  -- Person's context in the snapshot. Without a decision it shows the Person as the key's record is read.
  pub evaluate_policy_matrix-Faithful :
      (snapshot : StorageData) (lookup : Option Lookup) (at : Datetime) (m : PolicyMatrix)
      → evaluate_policy_matrix codec times zones string_lt (ok snapshot) lookup at ≡ ok m
      → (list_access_points lookup snapshot ≡ ok m.access_points)
        × AllFaithful snapshot at m.cells
            (places m.access_points (sorted string_lt (keys snapshot.people)))
  unfolding evaluate_policy_matrix sanitize
  evaluate_policy_matrix-Faithful snapshot lookup at m h =
      let person_keys = sorted string_lt (keys snapshot.people) in
      from_bind (list_access_points lookup snapshot) h λ doors listed h1.
        from_bind (all_cells codec times zones string_lt snapshot doors person_keys at) h1
          λ cells made h2.
            subst
              (λ (l : PolicyMatrix).
                (list_access_points lookup snapshot ≡ ok l.access_points)
                × AllFaithful snapshot at l.cells (places l.access_points person_keys))
              (ok-injective h2)
              (listed, all_cells-AllFaithful snapshot doors person_keys at cells made)
