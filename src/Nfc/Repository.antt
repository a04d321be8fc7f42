-- ===== src/Nfc/Repository.antt =====
-- `NfcAccessRepository` of nfc/repository.py: its state, and the pattern that all of its mutations
-- share. They copy the data, change the copy, save it, and keep it; each runs under the lock, as one
-- step here. `saved` is the outcome of `Store.async_save`, which is not in the repository.
pub mod Steps
pub mod Tags
pub mod Enrollment
pub mod Removal
pub mod Audit
use homepass.Prelude.{Option, none, some, List, [], String}
use homepass.Prelude.Result.{Result, ok, err, nfc_repository_error, ◌>>=◌}
use homepass.Prelude.Dict.{Dict}
use homepass.Models.Json.{Value, Fields, dict}

pub record NfcData : Type 0 where
  pub tags : Dict String Value
  pub test_tags : Dict String Value
  pub credentials : Dict String Value
  pub invites : Dict String Value
  pub access_grants : Dict String Value
  pub audit : List Value

-- `_empty`
abbrev pub empty_data : NfcData
empty_data = record {
  tags = [];
  test_tags = [];
  credentials = [];
  invites = [];
  access_grants = [];
  audit = [];
}

-- `_data`, with what `_require_data` does before `initialize`
abbrev pub Repository : Type 0
Repository = Option NfcData

unfoldable pub require_data : Repository → Result NfcData
require_data none = err nfc_repository_error
require_data (some d) = ok d

-- isinstance(raw, dict), else `NfcRepositoryError`
unfoldable pub require_record : Option Value → Result Fields
require_record (some (dict fields)) = ok fields
require_record _ = err nfc_repository_error

-- `self._data` after the mutation, and what it returns or raises.
unfoldable pub transact {ℓ} :
    {A : Type ℓ}
    → Result (Unit {0})
    → Repository
    → (NfcData → Result (NfcData × A))
    → Repository × Result A
transact saved r change = elim (require_data r >>= change) [
  | err e ↦ (r, err e)
  | ok (d, a) ↦ elim saved [ err e ↦ (r, err e) | ok u ↦ (some d, ok a) ]
]
