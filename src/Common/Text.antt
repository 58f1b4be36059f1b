-- ===== src/Common/Text.antt =====
-- The parts of JavaScript's text functions that the services use, over UTF-16 units.
use Prim.Native.Nat.{ℕ, zero, suc, ◌+◌, ◌-◌, ◌*◌}
use Prim.Native.Char.{code}
use Prim.Native.String.{String}
use mathlib.Core.Path.{◌≡◌, refl}
use mathlib.Core.Bool.{false, true, Bool, ◌&&◌, ◌||◌}
use mathlib.Core.Option.{Option, none, some}
use mathlib.Core.List.{List, [], ◌∷◌}
use ruznamo_backend.Common.Tests.{leb, ◌==◌, if◌then◌else◌}

abbrev pub codes : String → List ℕ
codes String.[] = []
codes (String.◌∷◌ c s) = code c ∷ codes s

-- Integers: `negsuc n` is -(n + 1).
pub data ℤ : Type 0 where
  pos : ℕ → ℤ
  negsuc : ℕ → ℤ

-- `\s`, restricted to tab, line feed, vertical tab, form feed, carriage return, space, no-break
-- space and the byte order mark.
unfoldable pub is_space : ℕ → Bool
is_space c = (leb 9 c && leb c 13) || c == 32 || c == 160 || c == 65279

unfoldable pub trim_start : List ℕ → List ℕ
unfolding is_space
trim_start [] = []
trim_start (c ∷ cs) = let rest = trim_start cs in if is_space c then rest else c ∷ cs

abbrev pub is_digit : ℕ → Bool
is_digit c = leb 48 c && leb c 57

-- The digits at the front, with the value read so far; `none` where there are none at all.
unfoldable pub read_digits : Option ℕ → List ℕ → Option ℕ
read_digits acc [] = acc
read_digits acc (c ∷ cs) =
    let rest = read_digits (some (elim acc [ none ↦ 0 | some n ↦ n * 10 ] + (c - 48))) cs in
    if is_digit c then rest else acc

abbrev negate : ℕ → ℤ
negate zero = pos 0
negate (suc n) = negsuc n

unfoldable pub read_sign : List ℕ → Option ℤ
unfolding read_digits
read_sign [] = none
read_sign (c ∷ cs) =
    if c == 45
    then elim (read_digits none cs) [ none ↦ none | some n ↦ some (negate n) ]
    else elim (read_digits none (if c == 43 then cs else c ∷ cs)) [
      | none ↦ none
      | some n ↦ some (pos n)
    ]

-- `Number.parseInt(text, 10)`; `none` is NaN.
unfoldable pub parse_int : List ℕ → Option ℤ
unfolding trim_start read_sign
parse_int cs = read_sign (trim_start cs)

parse_int_tests :
    (parse_int (codes " 12 devices") ≡ some (pos 12))
    × (parse_int (codes "-3") ≡ some (negsuc 2))
    × (parse_int (codes "x3") ≡ none)
unfolding parse_int
parse_int_tests = (refl, refl, refl)

abbrev pub is_nil : List ℕ → Bool
is_nil [] = true
is_nil (c ∷ cs) = false

unfoldable pub trim_end : List ℕ → List ℕ
unfolding is_space
trim_end [] = []
trim_end (c ∷ cs) = let rest = trim_end cs in if is_space c && is_nil rest then [] else c ∷ rest

-- `trim()`
unfoldable pub trim : List ℕ → List ℕ
unfolding trim_start trim_end
trim cs = trim_end (trim_start cs)

-- `toUpperCase` on the letters a to z
abbrev pub upper : ℕ → ℕ
upper c = if leb 97 c && leb c 122 then c - 32 else c

unfoldable pub same_text : List ℕ → List ℕ → Bool
same_text [] [] = true
same_text (c ∷ cs) (d ∷ ds) = c == d && same_text cs ds
same_text _ _ = false
