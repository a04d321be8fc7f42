-- ===== src/Prelude/Text.antt =====
-- What the program uses of Python's `str`: `strip` and `len`, by characters.
use Prim.Native.Char.{Char, code}
use Prim.Native.Nat.{ℕ, suc}
use Prim.Native.String.{String, [], ◌∷◌}
use mathlib.Core.Bool.{Bool, true, false, ◌&&◌, ◌||◌}
use mathlib.Core.Logic.{inl, inr}
use mathlib.Core.Path.{◌≡◌, refl, ap, ◌∙◌}
use native.Mathlib.Omega.{arith}
use homepass.Prelude.Tests.{leb, nat_beq, if◌then◌else◌, Bool-cases}

-- The code points for which `str.isspace` holds.
unfoldable pub is_space : ℕ → Bool
is_space c =
    (leb 9 c && leb c 13)
    || (leb 28 c && leb c 32)
    || nat_beq c 0x85
    || nat_beq c 0xa0
    || nat_beq c 0x1680
    || (leb 0x2000 c && leb c 0x200a)
    || nat_beq c 0x2028
    || nat_beq c 0x2029
    || nat_beq c 0x202f
    || nat_beq c 0x205f
    || nat_beq c 0x3000

unfoldable pub lstrip : String → String
unfolding is_space
lstrip [] = []
lstrip (c ∷ s) = if is_space (code c) then lstrip s else c ∷ s

-- A character in front of a text whose right end is stripped.
unfoldable pub keep : Char → String → String
unfolding is_space
keep c [] = if is_space (code c) then [] else c ∷ []
keep c (d ∷ s) = c ∷ d ∷ s

unfoldable pub rstrip : String → String
unfolding keep
rstrip [] = []
rstrip (c ∷ s) = keep c (rstrip s)

-- `all(test(ord(c)) for c in s)`
unfoldable pub all_chars : (ℕ → Bool) → String → Bool
all_chars test [] = true
all_chars test (c ∷ s) = test (code c) && all_chars test s

-- s <= t, by code points
unfoldable pub text_leb : String → String → Bool
text_leb [] t = true
text_leb (c ∷ s) [] = false
text_leb (c ∷ s) (d ∷ t) =
    let rest = text_leb s t in if nat_beq (code c) (code d) then rest else leb (code c) (code d)

-- s.strip()
unfoldable pub strip : String → String
unfolding lstrip rstrip
strip s = rstrip (lstrip s)

-- len(s)
unfoldable pub count_chars : String → ℕ
count_chars [] = 0
count_chars (c ∷ s) = suc (count_chars s)

unfoldable pub is_empty : String → Bool
is_empty [] = true
is_empty (c ∷ s) = false

rstrip-keep : (c : Char) (s : String) → rstrip s ≡ s → rstrip (keep c s) ≡ keep c s
unfolding rstrip keep
rstrip-keep c [] h = elim (Bool-cases (is_space (code c))) [
  | inl e ↦ rw e refl
  | inr e ↦ ground arith
]
rstrip-keep c (d ∷ s) h = ap (keep c) h

rstrip_idem : (s : String) → rstrip (rstrip s) ≡ rstrip s
unfolding rstrip
rstrip_idem [] = refl
rstrip_idem (c ∷ s) = rstrip-keep c (rstrip s) (rstrip_idem s)

-- What `lstrip` returns does not begin with a space, and `rstrip` keeps that.
lstrip-rstrip : (s : String) → lstrip (rstrip (lstrip s)) ≡ rstrip (lstrip s)
unfolding lstrip rstrip
lstrip-rstrip [] = refl
lstrip-rstrip (c ∷ s) = elim (Bool-cases (is_space (code c))) [
  | inl e ↦ rw e (lstrip-rstrip s)
  | inr e ↦ rw e (kept (rstrip s) e)
]
  where
    kept : (r : String) → is_space (code c) ≡ false → lstrip (keep c r) ≡ keep c r
    kept [] e = ground arith
    kept (d ∷ r) e = rw e

pub strip_idem : (s : String) → strip (strip s) ≡ strip s
unfolding strip
strip_idem s = ap rstrip (lstrip-rstrip s) ∙ rstrip_idem (lstrip s)
