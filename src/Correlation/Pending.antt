-- ===== src/Correlation/Pending.antt =====
-- What a confirmation consumes.
use homepass.Prelude.{ℕ, ◌≤◌, ◌<◌, ◌≡◌, none, some, nat_eq}
use homepass.Prelude.Dict.{get}
use homepass.Correlation.{LockStableState, PendingLockCommand, Correlation}

-- What a confirmation has tested of the command that it consumes.
pub record Consumed (s t : Correlation) (now door : ℕ) (state : LockStableState) (at : ℕ)
    (p : PendingLockCommand) : Type 0 where
  pub was_pending : get s.pending door ≡ some p
  pub confirmed : p.requested_state ≡ state
  pub started : p.initiated_at ≤ at
  pub timely : at < p.expires_at
  pub unexpired : now < p.expires_at
  pub gone : get t.pending door ≡ none
