-- ===== src/Lifecycle/Manager/Quiet.antt =====
-- The transitions of `LifecycleOperationManager` where no other task runs and every write succeeds.
use homepass.Prelude.{
  ◌==◌, String, ℕ, ◌+◌, ◌≤◌, ◌<◌, ◌≡◌, refl, ap, ◌∙◌, some, Option, true, false, string_eq, nat_eq,
}
use homepass.Prelude.Result.{ok, from_bind}
use homepass.Prelude.Int.{pos}
use homepass.Prelude.Instant.{aware, instant}
use homepass.Prelude.Dict.{get, put, get-put, get-put_self}
use homepass.Models.Json.{Fields, dict, Codec}
use homepass.Nfc.Records.{Conversions}
use homepass.Models.LifecycleOperation.{
  running, LifecycleOperation, json_value, non_negative, lifecycle_operation_post_init,
  lifecycle_operation_to_dict,
}
use homepass.Models.LifecycleOperation.Stored.{
  InRange, lifecycle_operation_post_init-IsBuilt, lifecycle_operation_post_init_idem,
  lifecycle_operation_round_trip,
}
use homepass.Lifecycle.{Journal}
use homepass.Lifecycle.Manager.{
  Turn, Change, Called, or_keep, number_or_keep, transition, no_change, success, Step, changed,
  advance, updated_payload,
}
use homepass.Lifecycle.Manager.Endings.{Undisturbed, transition-writes, changed-built}

-- A step that returns on every operation, and leaves JSON payloads JSON.
abbrev pub Succeeds : Step → Type 0
Succeeds step =
    (o : LifecycleOperation)
    → json_value (dict o.payload) ≡ true
    → (result : Option Fields) × (step o ≡ success result)
      × (json_value (dict (updated_payload o.payload result)) ≡ true)

-- The operation after a step, at a time.
abbrev pub advanced_to : ℕ → LifecycleOperation → Option Fields → LifecycleOperation
advanced_to now o result = record o {
  payload = updated_payload o.payload result;
  current_step = o.current_step + 1;
  retry_count = 0;
  updated_at = aware now;
}

-- The operation after a transition, at a time.
abbrev changed_to : ℕ → LifecycleOperation → Change → ℕ → ℕ → LifecycleOperation
changed_to now o c step count = record o {
  status = or_keep o.status c.status;
  payload = or_keep o.payload c.payload;
  current_step = step;
  retry_count = count;
  updated_at = aware now;
}

changed-built_again :
    (now : ℕ) (o u : LifecycleOperation) (c : Change)
    → changed now o c ≡ ok u
    → lifecycle_operation_post_init u ≡ ok u
unfolding changed
changed-built_again now o u c h =
    from_bind (number_or_keep o.current_step c.current_step) h λ step e h1.
      from_bind (number_or_keep o.retry_count c.retry_count) h1
        λ count e' h2. lifecycle_operation_post_init_idem _ u h2

-- The operation when its execution starts, at a time.
abbrev pub started_at : ℕ → LifecycleOperation → LifecycleOperation
started_at now o = record o { status = running; updated_at = aware now }

module _ (conversions : Conversions) (codec : Codec) where
  -- An operation that was built, fits its stored form, and is stored.
  pub record Stands (j : Journal) (o : LifecycleOperation) : Type 0 where
    pub built : lifecycle_operation_post_init o ≡ ok o
    pub fits : InRange codec o
    pub stored :
        get j (codec.print_uuid o.operation_id) ≡ some (lifecycle_operation_to_dict codec o)

  -- A turn in which no other task runs, the storage and the observer succeed, and the clock is in
  -- range and not behind a time.
  pub record Quiet (created : ℕ) (turn : Turn) : Type 0 where
    pub alone : (j : Journal) → turn.interference j ≡ j
    pub saves : turn.saved ≡ ok tt
    pub observes : turn.observed ≡ ok tt
    pub later : created ≤ turn.now
    pub in_range : turn.now < codec.last_instant

  pub Stands-Undisturbed :
      (turn : Turn) (j : Journal) (o : LifecycleOperation)
      → Quiet (instant o.created_at) turn
      → Stands j o
      → Undisturbed conversions codec turn j o
  Stands-Undisturbed turn j o q s = record {
    found = record {
      fields = lifecycle_operation_to_dict codec o;
      current = o;
      stored = ap (λ k. get k (codec.print_uuid o.operation_id)) (q.alone j) ∙ s.stored;
      decoded = lifecycle_operation_round_trip conversions codec o o s.built s.fits;
      unchanged = refl;
    };
    saves = q.saves;
    observes = q.observes;
  }

  -- The records of the other operations are the same.
  abbrev pub SameRest : ℕ → Journal → Journal → Type 0
  SameRest operation_id j k =
      (key : String) → (codec.print_uuid operation_id == key) ≡ false → get k key ≡ get j key

  -- A transition that returns an operation, which then stands in the new journal.
  pub record Moved (called : Called) (j : Journal) (v : LifecycleOperation) : Type 0 where
    pub journal : Journal
    pub returned : called ≡ (journal, ok v)
    pub stands : Stands journal v
    pub rest : SameRest v.operation_id j journal

  pub put-SameRest :
      (j k : Journal) (operation_id : ℕ) (fields : Fields)
      → k ≡ j
      → SameRest operation_id j (put k (codec.print_uuid operation_id) fields)
  put-SameRest j k operation_id fields same key other =
      rw (get-put k (codec.print_uuid operation_id) key fields, other)
        (ap (λ (x : Journal). get x key) same)

  -- A quiet transition is written.
  transition-Moved :
      (turn : Turn) (j : Journal) (o : LifecycleOperation) (c : Change) (step count : ℕ)
      → Quiet (instant o.created_at) turn
      → Stands j o
      → json_value (dict (or_keep o.payload c.payload)) ≡ true
      → number_or_keep o.current_step c.current_step ≡ ok step
      → number_or_keep o.retry_count c.retry_count ≡ ok count
      → Moved (transition conversions codec turn j o c) j (changed_to turn.now o c step count)
  transition-Moved turn j o c step count q s json at counted =
      let made =
        changed-built conversions codec turn.now o o c step count s.built q.later json at counted in
      record {
        journal =
            put (turn.interference j) (codec.print_uuid o.operation_id)
              (lifecycle_operation_to_dict codec (changed_to turn.now o c step count));
        returned =
            transition-writes conversions codec turn j o _ c made refl
              (Stands-Undisturbed turn j o q s);
        stands = record {
          built = changed-built_again turn.now o _ c made;
          fits = record {
            id_fits = s.fits.id_fits;
            created_fits = s.fits.created_fits;
            updated_fits = q.in_range;
          };
          stored = get-put_self (turn.interference j) _ _;
        };
        rest = put-SameRest j (turn.interference j) o.operation_id _ (q.alone j);
      }

  pub advance-Moved :
      (turn : Turn) (j : Journal) (o : LifecycleOperation) (result : Option Fields)
      → Quiet (instant o.created_at) turn
      → Stands j o
      → json_value (dict (updated_payload o.payload result)) ≡ true
      → Moved (advance conversions codec turn j o result) j (advanced_to turn.now o result)
  unfolding advance non_negative
  advance-Moved turn j o result q s json =
      transition-Moved turn j o
        (record no_change {
          payload = some (updated_payload o.payload result);
          current_step = some (pos (o.current_step + 1));
          retry_count = some (pos 0);
        })
        (o.current_step + 1) 0 q s json refl refl

  pub start-Moved :
      (turn : Turn) (j : Journal) (o : LifecycleOperation)
      → Quiet (instant o.created_at) turn
      → Stands j o
      → Moved
          (transition conversions codec turn j o (record no_change { status = some running }))
          j
          (started_at turn.now o)
  start-Moved turn j o q s =
      transition-Moved turn j o (record no_change { status = some running }) o.current_step
        o.retry_count q s ((lifecycle_operation_post_init-IsBuilt o o s.built).payload_json) refl
        refl
