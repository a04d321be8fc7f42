-- ===== src/Models/Synchronization.antt =====
-- models/synchronization.py: the canonical synchronization states and their aggregation.
use homepass.Prelude.{
  ℕ, ◌≡◌, refl, ◌↔◌, ◌≢◌, Option, none, some, List, [], ◌∷◌, ap, ◌∙◌, All, String, ltb, ◌==◌,
  string_eq, if◌then◌else◌, arith,
}
use mathlib.Core.List.{Perm, Permᴰ}
use mathlib.Core.Logic.{∥∥₁_elim}

pub data SynchronizationStatus : Type 0 where
  synchronized synchronizing pending : SynchronizationStatus
  retry_required manual_attention_required unknown : SynchronizationStatus

-- The value of the `StrEnum`.
unfoldable pub status_value : SynchronizationStatus → String
status_value synchronized = "synchronized"
status_value synchronizing = "synchronizing"
status_value pending = "pending"
status_value retry_required = "retry_required"
status_value manual_attention_required = "manual_attention_required"
status_value unknown = "unknown"

-- `SynchronizationStatus(value)`; `none` is a `ValueError`.
unfoldable pub status_of : String → Option SynchronizationStatus
status_of s =
    if s == "synchronized"
    then some synchronized
    else if s == "synchronizing"
    then some synchronizing
    else if s == "pending"
    then some pending
    else if s == "retry_required"
    then some retry_required
    else if s == "manual_attention_required"
    then some manual_attention_required
    else if s == "unknown"
    then some unknown
    else none

SynchronizationStatus-set : IsSet SynchronizationStatus
SynchronizationStatus-set = hlevel

-- `_STATUS_PRECEDENCE`
unfoldable pub precedence : SynchronizationStatus → ℕ
precedence synchronized = 0
precedence unknown = 1
precedence pending = 2
precedence synchronizing = 3
precedence retry_required = 4
precedence manual_attention_required = 5

-- The scan of `max(states, key=...)`, which keeps the first of equal keys.
unfoldable pub max_from : SynchronizationStatus → List SynchronizationStatus → SynchronizationStatus
unfolding precedence
max_from best [] = best
max_from best (state ∷ states) =
    max_from (if ltb (precedence best) (precedence state) then state else best) states

unfoldable pub aggregate_synchronization_status : List SynchronizationStatus → SynchronizationStatus
unfolding max_from
aggregate_synchronization_status [] = unknown
aggregate_synchronization_status (state ∷ states) = max_from state states

pub status_of-status_value : (s : SynchronizationStatus) → status_of (status_value s) ≡ some s
unfolding status_of status_value
status_of-status_value synchronized = refl
status_of-status_value _ = refl

-- The greater of two states.
abbrev pub worse : SynchronizationStatus → SynchronizationStatus → SynchronizationStatus
worse a b = if ltb (precedence a) (precedence b) then b else a

worse_comm : (a b : SynchronizationStatus) → worse a b ≡ worse b a
unfolding precedence
worse_comm a b = ground arith

worse_assoc : (a b c : SynchronizationStatus) → worse (worse a b) c ≡ worse a (worse b c)
unfolding precedence
worse_assoc a b c = ground arith

max_from-worse :
    (a b : SynchronizationStatus) (xs : List SynchronizationStatus)
    → max_from (worse a b) xs ≡ worse a (max_from b xs)
unfolding max_from
max_from-worse a b [] = refl
max_from-worse a b (x ∷ xs) =
    ap (λ s. max_from s xs) (worse_assoc a b x) ∙ max_from-worse a (worse b x) xs

worse-right_comm : (a b c : SynchronizationStatus) → worse (worse a b) c ≡ worse (worse a c) b
unfolding precedence
worse-right_comm a b c = ground arith

max_from-perm :
    {xs ys : List SynchronizationStatus}
    → Permᴰ xs ys
    → (b : SynchronizationStatus) → max_from b xs ≡ max_from b ys
unfolding max_from
max_from-perm Permᴰ.nil b = refl
max_from-perm (Permᴰ.cons {l₁ = l} e p) b = ap (λ x. max_from (worse b x) l) e ∙ max_from-perm p _
max_from-perm (Permᴰ.swap {a} {b = c} {a' = d} {l} e f) b =
    ap (λ s. max_from s l) (worse-right_comm b a c)
    ∙ (ap (λ x. max_from (worse (worse b x) a) l) f ∙ ap (λ x. max_from (worse (worse b d) x) l) e)
max_from-perm (Permᴰ.trans p q) b = max_from-perm p b ∙ max_from-perm q b

aggregate-permᴰ :
    {xs ys : List SynchronizationStatus}
    → Permᴰ xs ys
    → aggregate_synchronization_status xs ≡ aggregate_synchronization_status ys
unfolding aggregate_synchronization_status
aggregate-permᴰ Permᴰ.nil = refl
aggregate-permᴰ (Permᴰ.cons {l₁ = l} e p) = ap (λ x. max_from x l) e ∙ max_from-perm p _
aggregate-permᴰ (Permᴰ.swap {a} {b} {a' = d} {l} e f) =
    ap (λ s. max_from s l) (worse_comm a b)
    ∙ (ap (λ x. max_from (worse x a) l) f ∙ ap (λ x. max_from (worse d x) l) e)
aggregate-permᴰ (Permᴰ.trans p q) = aggregate-permᴰ p ∙ aggregate-permᴰ q

-- Two permutations of the same evidence aggregate to the same status.
pub aggregate-perm :
    {xs ys : List SynchronizationStatus}
    → Perm xs ys
    → aggregate_synchronization_status xs ≡ aggregate_synchronization_status ys
aggregate-perm p = ∥∥₁_elim p (SynchronizationStatus-set _ _) aggregate-permᴰ

worse-synchronized :
    (a c : SynchronizationStatus)
    → (worse a c ≡ synchronized) ↔ ((a ≡ synchronized) × (c ≡ synchronized))
unfolding precedence
worse-synchronized a c = ground arith

max_from-synchronized :
    (b : SynchronizationStatus) (xs : List SynchronizationStatus)
    → (max_from b xs ≡ synchronized) ↔ ((b ≡ synchronized) × All (λ x. x ≡ synchronized) xs)
unfolding max_from
max_from-synchronized b [] = ground arith
max_from-synchronized b (x ∷ xs) =
    let ih = max_from-synchronized (worse b x) xs in
    let w = worse-synchronized b x in
    (
      λ h. ((w.0 (ih.0 h).0).0, ((w.0 (ih.0 h).0).1, (ih.0 h).1)),
      λ h. ih.1 (w.1 (h.0, h.1.0), h.1.1),
    )

-- Evidence aggregates to `synchronized` exactly if there is some, and all of it says so.
pub aggregate-synchronized_iff :
    (xs : List SynchronizationStatus)
    → (aggregate_synchronization_status xs ≡ synchronized)
      ↔ ((xs ≢ []) × All (λ x. x ≡ synchronized) xs)
unfolding aggregate_synchronization_status
aggregate-synchronized_iff [] = (λ h. cc, λ h. absurd (h.0 refl))
aggregate-synchronized_iff (x ∷ xs) =
    let all = max_from-synchronized x xs in (λ h. (λ e. cc, all.0 h), λ h. all.1 h.1)
