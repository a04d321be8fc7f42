-- ===== src/Lifecycle/Manager/Failure.antt =====
-- The bound on retries: what the operations of `LifecycleOperationManager` keep of every stored
-- operation.
use homepass.Prelude.{
  ℕ, ◌+◌, ◌≤◌, ◌≡◌, ◌≢◌, refl, some, none, Option, Option-cases, Bool, true, Bool-cases, inl, inr,
  String, string_eq, ◌==◌, All, [], ◌∷◌, arith,
}
use mathlib.Core.Path.{subst}
use homepass.Prelude.Result.{Result, ok, err, Result-cases}
use homepass.Prelude.Dict.{get, put}
use homepass.Prelude.Instant.{Datetime}
use homepass.Models.Json.{Fields, Codec}
use homepass.Nfc.Records.{Conversions}
use homepass.Models.LifecycleOperation.{
  LifecycleOperationStatus, waiting_retry, LifecycleOperation, non_negative,
  lifecycle_operation_to_dict, lifecycle_operation_from_dict,
}
use homepass.Models.LifecycleOperation.Stored.{
  from_dict-to_dict, lifecycle_operation_post_init-IsBuilt,
}
use homepass.Lifecycle.Concurrency.{replace_change-Found}
use homepass.Lifecycle.{Journal, mutate, add_change, add, replace_change, replace}
use homepass.Lifecycle.Manager.{
  Turn, Change, no_change, Called, failure_status, then_call, then_loop, then_raise, changed,
  publish, transition, fail_step, fail_unexpectedly, advance,
}

-- An operation that waits for a retry has failed no more often than is allowed.
abbrev pub Within : ℕ → LifecycleOperation → Type 0
Within max_retries o = o.status ≡ waiting_retry → o.retry_count ≤ max_retries

pub failure-Within :
    (max_retries : ℕ) (retryable : Bool) (retry_count : ℕ)
    → failure_status max_retries retryable retry_count ≡ waiting_retry
    → retry_count ≤ max_retries
unfolding failure_status
failure-Within max_retries retryable retry_count h = ground arith

-- What a call leaves, if it ends.
abbrev pub OnJournal : (Journal → Type 0) → Option Called → Type 0
OnJournal P none = Unit
OnJournal P (some called) = P called.0

pub then_loop-OnJournal :
    (P : Journal → Type 0) (called : Called) (next : Journal → LifecycleOperation → Option Called)
    → P called.0
    → ((j : Journal) (o : LifecycleOperation) → P j → OnJournal P (next j o))
    → OnJournal P (then_loop called next)
unfolding then_loop
then_loop-OnJournal P (j, err e) next h k = h
then_loop-OnJournal P (j, ok o) next h k = k j o h

pub then_call-journal :
    {A : Type 0} (P : Journal → Type 0) (called : Journal × Result A) (next : Journal → A → Called)
    → P called.0
    → ((j : Journal) (a : A) → P j → P (next j a).0)
    → P (then_call called next).0
unfolding then_call
then_call-journal P (j, err e) next h k = h
then_call-journal P (j, ok o) next h k = k j o h

then_raise-journal : (called : Called) → (then_raise called).0 ≡ called.0
unfolding then_raise
then_raise-journal (j, err e) = refl
then_raise-journal (j, ok o) = refl

-- The write of a mutation is kept only if all goes well.
mutate-journal :
    (P : Journal → Type 0) (saved : Result (Unit {0})) (j : Journal)
    (change : Journal → Result Journal)
    → P j
    → ((j' : Journal) → change j ≡ ok j' → P j')
    → P (mutate saved j change).0
unfolding mutate
mutate-journal P saved j change h k = elim (Result-cases (change j)) [
  | inr (e, x) ↦ rw (x, mutate) h
  | inl (j', x) ↦ elim (Result-cases saved) [
    | inl (u, y) ↦ rw (x, y, mutate) (k j' x)
    | inr (e, y) ↦ rw (x, y, mutate) h
  ]
]

module _ (conversions : Conversions) (codec : Codec) (max_retries : ℕ) where
  -- Every operation that a stored record holds waits within the bound.
  abbrev pub EntryWithin : String × Fields → Type 0
  EntryWithin (key, fields) =
      (o : LifecycleOperation)
      → lifecycle_operation_from_dict conversions codec fields ≡ ok o
      → Within max_retries o

  abbrev pub Bounded : Journal → Type 0
  Bounded = All EntryWithin

  to_dict-Within :
      (o : LifecycleOperation) (key : String)
      → Within max_retries o
      → EntryWithin (key, lifecycle_operation_to_dict codec o)
  to_dict-Within o key h p e =
      let same = from_dict-to_dict conversions codec o p e in ground (arith, same, h)

  put-Bounded :
      (j : Journal) (key : String) (fields : Fields)
      → EntryWithin (key, fields)
      → Bounded j
      → Bounded (put j key fields)
  unfolding put
  put-Bounded [] key fields h b = (h, tt)
  put-Bounded ((k, w) ∷ rest) key fields h b = elim (Bool-cases (k == key)) [
    | inl e ↦ rw e (h, b.1)
    | inr e ↦ rw e (b.0, put-Bounded rest key fields h b.1)
  ]

  replace-Bounded :
      (saved : Result (Unit {0})) (j : Journal) (u : LifecycleOperation) (expected : Datetime)
      → Within max_retries u
      → Bounded j
      → Bounded (replace conversions codec saved j u expected).0
  unfolding replace
  replace-Bounded saved j u expected h b =
      mutate-journal Bounded saved j (replace_change conversions codec u expected) b λ j' e.
        rw ((replace_change-Found conversions codec u expected j j' e).1)
          (put-Bounded j _ _ (to_dict-Within u (codec.print_uuid u.operation_id) h) b)

  pub add-Bounded :
      (saved : Result (Unit {0})) (j : Journal) (u : LifecycleOperation)
      → Within max_retries u
      → Bounded j
      → Bounded (add conversions codec saved j u).0
  unfolding add add_change
  add-Bounded saved j u h b =
      mutate-journal Bounded saved j (add_change conversions codec u) b λ j' e.
        elim (Option-cases (get j (codec.print_uuid u.operation_id))) [
          | inr (fields, x) ↦ absurd (ground (arith, x, e))
          | inl x ↦
              let same : put j (codec.print_uuid u.operation_id)
                    (lifecycle_operation_to_dict codec u)
                  ≡ j' =
                ground (arith, x, e) in
              subst Bounded same
                (put-Bounded j _ _ (to_dict-Within u (codec.print_uuid u.operation_id) h) b)
        ]

  publish-Bounded :
      (turn : Turn) (j : Journal) (o u : LifecycleOperation)
      → Bounded (turn.interference j)
      → Within max_retries u
      → Bounded (publish conversions codec turn j o u).0
  unfolding publish
  publish-Bounded turn j o u b h =
      then_call-journal Bounded
        (replace conversions codec turn.saved (turn.interference j) u o.updated_at) _
        (replace-Bounded turn.saved (turn.interference j) u o.updated_at h b) λ k done p. p

  -- A transition keeps the bound if the operation that it writes does.
  pub transition-Bounded :
      (turn : Turn) (j : Journal) (o : LifecycleOperation) (c : Change)
      → Bounded (turn.interference j)
      → ((u : LifecycleOperation) → changed turn.now o c ≡ ok u → Within max_retries u)
      → Bounded (transition conversions codec turn j o c).0
  unfolding transition
  transition-Bounded turn j o c b h = elim (Result-cases (changed turn.now o c)) [
    | inr (e, x) ↦ rw (x, transition) b
    | inl (u, x) ↦ rw (x, transition) (publish-Bounded turn j o u b (h u x))
  ]

  module _ (turn : Turn) (j : Journal) (b : Bounded (turn.interference j)) where
    -- A new status other than the waiting one keeps the bound, and so does a count of zero.
    pub settled-Bounded :
        (o : LifecycleOperation) (status : LifecycleOperationStatus)
        → status ≢ waiting_retry
        → Bounded
            (transition conversions codec turn j o (record no_change { status = some status })).0
    unfolding changed
    settled-Bounded o status h =
        transition-Bounded turn j o (record no_change { status = some status }) b
          λ u e.
            let built = lifecycle_operation_post_init-IsBuilt _ u e in
            ground (arith, built.same_status, h)

    pub advance-Bounded :
        (o : LifecycleOperation) (result : Option Fields)
        → Bounded (advance conversions codec turn j o result).0
    unfolding advance changed non_negative
    advance-Bounded o result = transition-Bounded turn j o _ b λ u e.
        let built = lifecycle_operation_post_init-IsBuilt _ u e in ground (arith, built.same_retry)

    pub fail_step-Bounded :
        (o : LifecycleOperation) (changes : Fields) (retryable : Bool)
        → Bounded (fail_step conversions codec max_retries turn j o changes retryable).0
    unfolding fail_step changed non_negative
    fail_step-Bounded o changes retryable = rw (then_raise-journal _) (
        transition-Bounded turn j o _ b λ u e.
          let built = lifecycle_operation_post_init-IsBuilt _ u e in
          ground (
            arith,
            built.same_retry,
            built.same_status,
            failure-Within max_retries retryable (o.retry_count + 1),
          ))

    pub fail_unexpectedly-Bounded :
        (o : LifecycleOperation)
        → Bounded (fail_unexpectedly conversions codec max_retries turn j o).0
    unfolding fail_unexpectedly changed non_negative
    fail_unexpectedly-Bounded o = rw (then_raise-journal _) (
        transition-Bounded turn j o _ b λ u e.
          let built = lifecycle_operation_post_init-IsBuilt _ u e in
          ground (
            arith,
            built.same_retry,
            built.same_status,
            failure-Within max_retries true (o.retry_count + 1),
          ))

  -- What other tasks do to the journal keeps the bound.
  abbrev pub Steady : Turn → Type 0
  Steady turn = (j : Journal) → Bounded j → Bounded (turn.interference j)
