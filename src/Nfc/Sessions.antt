-- ===== src/Nfc/Sessions.antt =====
-- `ExpiringTokenStore` of nfc/sessions.py. Each call takes the reading of the clock, and `issue` the
-- random token; times and the time to live are in microseconds.
pub mod Once
pub mod Bounded
pub mod Life
use homepass.Prelude.{
  ℕ, ◌+◌, Bool, not, ◌||◌, Option, none, some, [], ◌∷◌, String, ltb, leb, length, ◌==◌, string_eq,
  if◌then◌else◌,
}
use homepass.Prelude.Dict.{Dict, get, put, remove, keep}
use homepass.Prelude.Int.{ℤ, pos, negsuc, below}
use homepass.Prelude.Result.{Result, ok, err, value_error, session_error}

pub record Item {ℓ} (T : Type ℓ) : Type ℓ where
  pub value : T
  pub expires_at : ℕ

pub record ExpiringTokenStore {ℓ} (T : Type ℓ) : Type ℓ where
  pub ttl : ℕ
  pub max_items : ℕ
  pub items : Dict String (Item T)

-- The constructor.
unfoldable pub new_store {ℓ} : {T : Type ℓ} → ℤ → ℤ → Result (ExpiringTokenStore T)
new_store (pos ttl) (pos max_items) =
    if below (pos ttl) 1 || below (pos max_items) 1
    then err value_error
    else ok (record { ttl = ttl; max_items = max_items; items = [] })
new_store _ _ = err value_error

module _ {ℓ} {T : Type ℓ} where
  abbrev pub is_live : ℕ → Item T → Bool
  is_live now item = not (leb item.expires_at now)

  -- `_expire`
  unfoldable pub expire : ExpiringTokenStore T → ℕ → ExpiringTokenStore T
  expire s now = record s { items = keep (is_live now) s.items }

  -- The scan of `min(items, key=...)`, which keeps the first of equal keys.
  unfoldable pub oldest_from : String → ℕ → Dict String (Item T) → String
  oldest_from token expires_at [] = token
  oldest_from token expires_at ((t, item) ∷ rest) =
      let here = oldest_from t item.expires_at rest in
      let there = oldest_from token expires_at rest in
      if ltb item.expires_at expires_at then here else there

  -- `min` of no items is a `ValueError`, here none.
  unfoldable pub oldest : Dict String (Item T) → Option String
  unfolding oldest_from
  oldest [] = none
  oldest ((t, item) ∷ rest) = some (oldest_from t item.expires_at rest)

  -- The eviction of a full store.
  unfoldable pub make_room : ExpiringTokenStore T → Result (ExpiringTokenStore T)
  make_room s =
      if leb s.max_items (length s.items)
      then elim (oldest s.items) [
        | none ↦ err value_error
        | some token ↦ ok (record s { items = remove s.items token })
      ]
      else ok s

  -- The store afterwards, and the token.
  unfoldable pub issue :
      ExpiringTokenStore T → ℕ → String → T → ExpiringTokenStore T × Result String
  issue s now token value = elim (make_room (expire s now)) [
    | err e ↦ (expire s now, err e)
    | ok s' ↦ (
      record s' { items = put s'.items token (record { value = value; expires_at = now + s.ttl }) },
      ok token,
    )
  ]

  unfoldable pub peek : ExpiringTokenStore T → ℕ → String → ExpiringTokenStore T × Result T
  peek s now token =
      let s' = expire s now in
      elim (get s'.items token) [ none ↦ (s', err session_error) | some item ↦ (s', ok item.value) ]

  unfoldable pub consume : ExpiringTokenStore T → ℕ → String → ExpiringTokenStore T × Result T
  consume s now token =
      let (s', r) = peek s now token in
      elim r [
        | err e ↦ (s', err e)
        | ok value ↦ (record s' { items = remove s'.items token }, ok value)
      ]
