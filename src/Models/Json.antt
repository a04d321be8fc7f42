-- ===== src/Models/Json.antt =====
-- JSON values, and the field helpers of the model modules (`_required`, `_parse_uuid`,
-- `_parse_datetime`, `_require_string`, `_require_bool`, `_optional_string`), which each of them has a
-- copy of. `Codec` is what they use of `uuid.UUID` and `datetime`.
use homepass.Prelude.{
  ℕ, ◌<◌, ◌^◌, ◌≡◌, Bool, Option, none, some, String, ◌==◌, string_eq, if◌then◌else◌,
}
use homepass.Prelude.Result.{Result, ok, err, type_error, value_error}
use homepass.Prelude.Int.{ℤ}
use homepass.Prelude.Instant.{Datetime, naive, aware, instant}

-- A value that `json` loads; a `float` is kept as its bits, which nothing here computes with.
mutual
  pub data Value : Type 0 where
    null : Value
    bool : Bool → Value
    int : ℤ → Value
    float : ℕ → Value
    str : String → Value
    list : Items → Value
    dict : Fields → Value

  pub data Items : Type 0 where
    nil : Items
    cons : Value → Items → Items

  pub data Fields : Type 0 where
    end : Fields
    field : String → Value → Fields → Fields

-- data.get(name), and `data[name]` where it is present
unfoldable pub get_field : Fields → String → Option Value
get_field end name = none
get_field (field key value rest) name = if key == name then some value else get_field rest name

-- data[name] = value
unfoldable pub put_field : Fields → String → Value → Fields
put_field end name value = field name value end
put_field (field key old rest) name value =
    if key == name then field key value rest else field key old (put_field rest name value)

-- data.pop(name, None)
unfoldable pub remove_field : Fields → String → Fields
remove_field end name = end
remove_field (field key value rest) name =
    let kept = remove_field rest name in if key == name then kept else field key value kept

-- data.update(changes)
unfoldable pub update_fields : Fields → Fields → Fields
unfolding put_field
update_fields fields end = fields
update_fields fields (field name value rest) = update_fields (put_field fields name value) rest

-- `UUID(text)`, `str(uuid)`, `datetime.fromisoformat(text)` and `d.isoformat()`; `none` is a
-- `ValueError`. A `UUID` is its 128-bit number, and a `datetime` ends with year 9999.
pub record Codec : Type 0 where
  pub parse_uuid : String → Option ℕ
  pub print_uuid : ℕ → String
  pub parse_iso : String → Option Datetime
  pub print_iso : Datetime → String
  pub last_instant : ℕ
  pub uuid_round : (u : ℕ) → u < 2 ^ 128 → parse_uuid (print_uuid u) ≡ some u
  pub iso_round : (n : ℕ) → n < last_instant → parse_iso (print_iso (aware n)) ≡ some (aware n)

unfoldable pub required : Fields → String → Result Value
unfolding get_field
required fields name = elim (get_field fields name) [ none ↦ err value_error | some v ↦ ok v ]

-- `data.get(name, default)`
unfoldable pub get_or : Fields → String → Value → Value
unfolding get_field
get_or fields name default = elim (get_field fields name) [ none ↦ default | some v ↦ v ]

unfoldable pub require_string : Value → Result String
require_string (str s) = ok s
require_string _ = err type_error

unfoldable pub require_bool : Value → Result Bool
require_bool (bool b) = ok b
require_bool _ = err type_error

unfoldable pub optional_string : Value → Result (Option String)
optional_string null = ok none
optional_string (str s) = ok (some s)
optional_string _ = err type_error

unfoldable pub or_value_error {ℓ} : {A : Type ℓ} → Option A → Result A
or_value_error none = err value_error
or_value_error (some a) = ok a

module _ (codec : Codec) where
  unfoldable pub parse_uuid : Value → Result ℕ
  unfolding or_value_error
  parse_uuid (str s) = or_value_error (codec.parse_uuid s)
  parse_uuid _ = err type_error

  unfoldable pub parse_datetime : Value → Result Datetime
  unfolding or_value_error
  parse_datetime (str s) = or_value_error (codec.parse_iso s)
  parse_datetime _ = err type_error

  -- A stored instant is read back.
  pub parse_iso-print_iso :
      (d : Datetime) {n : ℕ}
      → d ≡ aware n
      → instant d < codec.last_instant
      → codec.parse_iso (codec.print_iso d) ≡ some d
  parse_iso-print_iso (naive a) e h = cc
  parse_iso-print_iso (aware a) e h = codec.iso_round a h
