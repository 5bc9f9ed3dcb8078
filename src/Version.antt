-- ===== src/Version.antt =====
-- Dotted version strings: go/internal/model/version.go. A text is a list of characters; Go's
-- functions on strings that the code calls are written out for it.
pub mod Ordering
mod Tests
use Prim.Native.Char.{Char, code}
use Prim.Native.String
use ai_env_mgr.Base.{
  ℕ, zero, suc, ◌+◌, ◌*◌, ◌-◌, ◌^◌, String, Bool, true, false, not, ◌&&◌, ◌||◌, Option, none, some,
  List, [], ◌∷◌, str_eq, leb, ltb, ◌==◌, if◌then◌else◌,
}

-- `unicode.IsSpace`.
unfoldable pub is_space : Char → Bool
is_space c =
    let n = code c in
    (leb 9 n && leb n 13)
    || ((n == 32)
        || ((n == 133)
            || ((n == 160)
                || ((n == 5760)
                    || ((leb 8192 n && leb n 8202)
                        || ((n == 8232)
                            || ((n == 8233) || ((n == 8239) || ((n == 8287) || (n == 12288))))))))))

unfoldable pub trim_left : String → String
trim_left String.[] = ""
trim_left (String.◌∷◌ c s) = let rest = trim_left s in if is_space c then rest else String.◌∷◌ c s

abbrev keep_char : Char → String → String
keep_char c String.[] = if is_space c then "" else String.◌∷◌ c ""
keep_char c (String.◌∷◌ d s) = String.◌∷◌ c (String.◌∷◌ d s)

unfoldable pub trim_right : String → String
trim_right String.[] = ""
trim_right (String.◌∷◌ c s) = keep_char c (trim_right s)

-- `strings.TrimPrefix(s, "v")`.
unfoldable pub drop_v : String → String
drop_v String.[] = ""
drop_v (String.◌∷◌ c s) = if code c == 118 then s else String.◌∷◌ c s

abbrev pub prepend : Char → String × String → String × String
prepend c (a, b) = (String.◌∷◌ c a, b)

-- The text before the first `-` or `+`, and the text after it.
unfoldable pub cut : String → String × String
cut String.[] = ("", "")
cut (String.◌∷◌ c s) =
    let rest = cut s in if (code c == 45) || (code c == 43) then ("", s) else prepend c rest

abbrev pub onto_first : Char → List String → List String
onto_first c [] = String.◌∷◌ c "" ∷ []
onto_first c (p ∷ ps) = String.◌∷◌ c p ∷ ps

-- `strings.Split(s, ".")`.
unfoldable pub split_dots : String → List String
split_dots String.[] = "" ∷ []
split_dots (String.◌∷◌ c s) =
    let rest = split_dots s in if code c == 46 then "" ∷ rest else onto_first c rest

abbrev pub is_digit : Char → Bool
is_digit c = leb 48 (code c) && leb (code c) 57

-- The decimal value of a text of digits after `n`.
unfoldable pub digits : ℕ → String → Option ℕ
digits n String.[] = some n
digits n (String.◌∷◌ c s) =
    let rest = digits (n * 10 + (code c - 48)) s in if is_digit c then rest else none

abbrev in_range : Option ℕ → Option ℕ
in_range none = none
in_range (some n) = if ltb n (2 ^ 63) then some n else none

-- `strconv.Atoi` on a text with no sign.
unfoldable pub atoi : String → Option ℕ
atoi String.[] = none
atoi (String.◌∷◌ c s) = in_range (digits 0 (String.◌∷◌ c s))

abbrev add_number : Option ℕ → Option (List ℕ) → Option (List ℕ)
add_number (some n) (some ns) = some (n ∷ ns)
add_number _ _ = none

unfoldable pub numbers : List String → Option (List ℕ)
numbers [] = some []
numbers (p ∷ ps) = add_number (atoi p) (numbers ps)

abbrev or_nil : Option (List ℕ) → String → List ℕ × String
or_nil none pre = ([], "")
or_nil (some ns) pre = (ns, pre)

abbrev pub parsed : String × String → List ℕ × String
parsed (v, pre) = or_nil (numbers (split_dots v)) pre

unfoldable pub split_version : String → List ℕ × String
split_version v = parsed (cut (drop_v (trim_right (trim_left v))))

pub data Order : Type 0 where
  before same after : Order

unfoldable pub compare_number : ℕ → ℕ → Order
compare_number x y = if ltb x y then before else if ltb y x then after else same

abbrev pub or_else : Order → Order → Order
or_else before o = before
or_else after o = after
or_else same o = o

-- The loop: a missing component is 0.
unfoldable pub compare_numbers : List ℕ → List ℕ → Order
compare_numbers [] [] = same
compare_numbers (x ∷ xs) [] = or_else (compare_number x 0) (compare_numbers xs [])
compare_numbers [] (y ∷ ys) = or_else (compare_number 0 y) (compare_numbers [] ys)
compare_numbers (x ∷ xs) (y ∷ ys) = or_else (compare_number x y) (compare_numbers xs ys)

-- Go's `==` and `<` on strings in one, character by character.
unfoldable pub compare_text : String → String → Order
compare_text String.[] String.[] = same
compare_text String.[] (String.◌∷◌ d t) = before
compare_text (String.◌∷◌ c s) String.[] = after
compare_text (String.◌∷◌ c s) (String.◌∷◌ d t) =
    or_else (compare_number (code c) (code d)) (compare_text s t)

-- The suffixes: the plain version is after its pre-releases.
unfoldable pub compare_suffix : String → String → Order
compare_suffix String.[] String.[] = same
compare_suffix String.[] (String.◌∷◌ d t) = after
compare_suffix (String.◌∷◌ c s) String.[] = before
compare_suffix (String.◌∷◌ c s) (String.◌∷◌ d t) = compare_text (String.◌∷◌ c s) (String.◌∷◌ d t)

abbrev pub compare_parsed : List ℕ × String → List ℕ × String → Order
compare_parsed (an, apre) (bn, bpre) = or_else (compare_numbers an bn) (compare_suffix apre bpre)

unfoldable pub compare_versions : String → String → Order
compare_versions a b = compare_parsed (split_version a) (split_version b)

abbrev is_before : Order → Bool
is_before before = true
is_before _ = false

-- `CompareVersions(a, b) < 0`.
abbrev pub is_older : String → String → Bool
is_older a b = is_before (compare_versions a b)

abbrev pub min_target_agent_version : String
min_target_agent_version = "1.2.16"

unfoldable pub agent_can_take_targets : String → Bool
agent_can_take_targets version = not (is_older version min_target_agent_version)
