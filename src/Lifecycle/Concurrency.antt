-- ===== src/Lifecycle/Concurrency.antt =====
-- Optimistic concurrency of the journal: `replace` of repositories/lifecycle_operation.py.
use homepass.Prelude.{
  ◌≡◌, ◌≢◌, refl, ap, ◌∙◌, ==-refl, some, Option-cases, inl, inr, String, string_eq, nat_eq, ◌==◌,
  arith, if◌then◌else◌,
}
use homepass.Prelude.Result.{Result, ok, err, Result-cases, lifecycle_operation_conflict}
use homepass.Prelude.Dict.{get, put, get-put}
use homepass.Prelude.Instant.{Datetime, instant}
use homepass.Models.Json.{Fields, Codec}
use homepass.Nfc.Records.{Conversions}
use homepass.Models.LifecycleOperation.{
  LifecycleOperation, lifecycle_operation_post_init, lifecycle_operation_to_dict,
  lifecycle_operation_from_dict,
}
use homepass.Models.LifecycleOperation.Stored.{InRange, lifecycle_operation_round_trip}
use homepass.Lifecycle.{Journal, mutate, wrap_error, replace_change, replace}

-- A mutation that returned has changed the journal, and one that raised has not.
pub mutate-result :
    (saved : Result (Unit {0})) (j : Journal) (change : Journal → Result Journal)
    → ((mutate saved j change).1 ≡ ok tt)
    → change j ≡ ok (mutate saved j change).0
unfolding mutate
mutate-result saved j change h = ground arith

pub mutate-keeps :
    (saved : Result (Unit {0})) (j : Journal) (change : Journal → Result Journal)
    → (mutate saved j change).1 ≢ ok tt
    → (mutate saved j change).0 ≡ j
unfolding mutate
mutate-keeps saved j change h = ground arith

module _ (conversions : Conversions) (codec : Codec) where
  -- The stored operation that a replacement has found unchanged.
  pub record Found (j : Journal) (o : LifecycleOperation) (expected : Datetime) : Type 0 where
    pub fields : Fields
    pub current : LifecycleOperation
    pub stored : get j (codec.print_uuid o.operation_id) ≡ some fields
    pub decoded : lifecycle_operation_from_dict conversions codec fields ≡ ok current
    pub unchanged : instant current.updated_at ≡ instant expected

  pub replace_change-Found :
      (o : LifecycleOperation) (expected : Datetime) (j j' : Journal)
      → replace_change conversions codec o expected j ≡ ok j'
      → Found j o expected
        × (j' ≡ put j (codec.print_uuid o.operation_id) (lifecycle_operation_to_dict codec o))
  unfolding replace_change
  replace_change-Found o expected j j' h =
      elim (Option-cases (get j (codec.print_uuid o.operation_id))) [
        | inl e ↦ absurd (ground (arith, e))
        | inr (fields, e) ↦
            elim (Result-cases (lifecycle_operation_from_dict conversions codec fields)) [
              | inr (x, d) ↦ absurd (ground (arith, e, d))
              | inl (current, d) ↦ (
                record {
                  fields = fields;
                  current = current;
                  stored = e;
                  decoded = d;
                  unchanged = ground (arith, e, d);
                },
                ground (arith, e, d),
              )
            ]
      ]

  pub replace_change-of_Found :
      (o : LifecycleOperation) (expected : Datetime) (j : Journal)
      → Found j o expected
      → replace_change conversions codec o expected j
        ≡ ok (put j (codec.print_uuid o.operation_id) (lifecycle_operation_to_dict codec o))
  unfolding replace_change
  replace_change-of_Found o expected j f = ground (arith, f.stored, f.decoded, f.unchanged)

  -- A replacement that returned has found the operation unchanged since the expected time, and has
  -- written the new one under its key, and nothing else.
  pub replace_sound :
      (saved : Result (Unit {0})) (j : Journal) (o : LifecycleOperation) (expected : Datetime)
      → (replace conversions codec saved j o expected).1 ≡ ok tt
      → Found j o expected
        × ((key : String)
            → get (replace conversions codec saved j o expected).0 key ≡ (
                if codec.print_uuid o.operation_id == key
                then some (lifecycle_operation_to_dict codec o)
                else get j key))
  unfolding replace
  replace_sound saved j o expected h =
      let (found, e) =
        replace_change-Found o expected j _
          (mutate-result saved j (replace_change conversions codec o expected) h) in
      (found, λ key. rw e (get-put j (codec.print_uuid o.operation_id) key _))

  -- A stored operation that has another time than the expected one is not replaced: the call raises a
  -- conflict and leaves the journal as it is.
  pub replace-conflict :
      (saved : Result (Unit {0})) (j : Journal) (o current : LifecycleOperation)
      (expected : Datetime) (fields : Fields)
      → get j (codec.print_uuid o.operation_id) ≡ some fields
      → lifecycle_operation_from_dict conversions codec fields ≡ ok current
      → instant current.updated_at ≢ instant expected
      → replace conversions codec saved j o expected ≡ (j, err lifecycle_operation_conflict)
  unfolding replace mutate replace_change wrap_error
  replace-conflict saved j o current expected fields e d h = ground (arith, e, d, h)

  -- Of two writers that have read the same version of an operation, the second one fails: where a
  -- first replacement has returned, and its operation was built, fits the stored form, and carries
  -- another time than the one both expect, a second one raises a conflict, and the first one's
  -- journal stays.
  pub replace-no_lost_update :
      (saved saved' : Result (Unit {0})) (j : Journal) (raw a b : LifecycleOperation)
      (expected : Datetime)
      → lifecycle_operation_post_init raw ≡ ok a
      → InRange codec a
      → a.operation_id ≡ b.operation_id
      → instant a.updated_at ≢ instant expected
      → (replace conversions codec saved j a expected).1 ≡ ok tt
      → replace conversions codec saved' (replace conversions codec saved j a expected).0 b expected
        ≡ ((replace conversions codec saved j a expected).0, err lifecycle_operation_conflict)
  replace-no_lost_update saved saved' j raw a b expected built range same newer h =
      replace-conflict saved' (replace conversions codec saved j a expected).0 b a expected
        (lifecycle_operation_to_dict codec a)
        ((replace_sound saved j a expected h).1 (codec.print_uuid b.operation_id)
          ∙ ap
              (λ (k : String).
                if k == codec.print_uuid b.operation_id
                then some (lifecycle_operation_to_dict codec a)
                else get j (codec.print_uuid b.operation_id))
              (ap codec.print_uuid same)
          ∙ rw (==-refl (codec.print_uuid b.operation_id)) refl)
        (lifecycle_operation_round_trip conversions codec raw a built range) newer
