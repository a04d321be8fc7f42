-- ===== src/Nfc/Records.antt =====
-- The helpers of nfc/models.py: `_timestamp`, `_parse_timestamp`, `_strict_bool`, the two patterns, and
-- the conversions `str(...)` and `int(...)` of stored values.
pub mod Tag
pub mod Enrollment
pub mod Access
use homepass.Prelude.{
  ℕ, Bool, true, false, not, ◌&&◌, ◌||◌, Option, none, some, String, leb, nat_beq, if◌then◌else◌,
}
use homepass.Prelude.Result.{Result, ok, err, type_error, value_error, key_error, ◌>>=◌}
use homepass.Prelude.Int.{ℤ, pos}
use homepass.Prelude.Text.{all_chars, is_empty}
use homepass.Prelude.Instant.{Datetime, naive, aware, normalize_datetime}
use homepass.Models.Json.{
  Value, null, bool, int, float, str, Fields, get_field, Codec, or_value_error,
}

-- Python's conversions: `str(v)` of a value that is not a text, `int(s)` of a text, `int(x)` of a float,
-- and `s.upper()`. `none` is a `ValueError`.
pub record Conversions : Type 0 where
  pub print_value : Value → String
  pub parse_int : String → Option ℤ
  pub truncate : ℕ → Option ℤ
  pub upper : String → String

-- data[name]
unfoldable pub item : Fields → String → Result Value
item fields name = elim (get_field fields name) [ none ↦ err key_error | some v ↦ ok v ]

-- data.get(name)
unfoldable pub item_or_none : Fields → String → Value
item_or_none fields name = elim (get_field fields name) [ none ↦ null | some v ↦ v ]

-- `_strict_bool`
unfoldable pub strict_bool : Value → Result Bool
strict_bool (bool b) = ok b
strict_bool _ = err type_error

-- `_URLSAFE.fullmatch` and `_HEX.fullmatch`, which want one character at least
unfoldable pub is_urlsafe : String → Bool
is_urlsafe s =
    not (is_empty s)
    && all_chars
        (λ c.
          (leb 65 c && leb c 90)
          || (leb 97 c && leb c 122)
          || (leb 48 c && leb c 57)
          || nat_beq c 95
          || nat_beq c 45)
        s

unfoldable pub is_hex : String → Bool
is_hex s = not (is_empty s) && all_chars (λ c. (leb 48 c && leb c 57) || (leb 65 c && leb c 70)) s

module _ (conversions : Conversions) where
  -- str(v)
  unfoldable pub text_of : Value → String
  text_of (str s) = s
  text_of v = conversions.print_value v

  -- int(v)
  unfoldable pub int_of : Value → Result ℤ
  int_of (int n) = ok n
  int_of (bool true) = ok (pos 1)
  int_of (bool false) = ok (pos 0)
  int_of (float bits) = or_value_error (conversions.truncate bits)
  int_of (str s) = or_value_error (conversions.parse_int s)
  int_of _ = err type_error

  -- `None if v is None else f(v)`
  abbrev pub unless_null : {A : Type 0} → (Value → Result A) → Value → Result (Option A)
  unless_null f null = ok none
  unless_null f v = do a ← f v; ok (some a)

  module _ (codec : Codec) where
    -- `_timestamp`
    unfoldable pub timestamp : Datetime → Result String
    timestamp d = do n ← normalize_datetime d; ok (codec.print_iso (aware n))

    -- `_parse_timestamp`
    unfoldable pub parse_timestamp : Value → Result Datetime
    parse_timestamp v = do
      parsed ← or_value_error (codec.parse_iso (text_of v))
      n ← normalize_datetime parsed
      ok (aware n)

    -- `UUID(str(v))`
    unfoldable pub uuid_of : Value → Result ℕ
    uuid_of v = or_value_error (codec.parse_uuid (text_of v))

    -- `UUID(s)` for its exception
    unfoldable pub check_uuid : String → Result (Unit {0})
    check_uuid s = do u ← or_value_error (codec.parse_uuid s); ok tt
