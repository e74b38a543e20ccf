-- ===== src/Utils.antt =====
-- The text helpers of include/flexi_cfg/utils.h. A position in a text is given by the parts that it
-- cuts the text into; `npos` is `none`. `std::getenv` is a parameter.
pub mod Split
pub mod Trim
pub mod Env
use mathlib.Core.List.{foldl}
use native.Mathlib.Decide.{ℕ_discrete}
use flexi_config_reader.Common.{
  ℕ, zero, suc, Text, codes, List, [], ◌∷◌, ◌++◌, Option, none, some, Bool, true, false, has, ◌==◌,
  if◌then◌else◌,
}
use flexi_config_reader.Result.{Result, ok, throw, runtime_error}

abbrev pub dot : Text
dot = b'.' ∷ []

-- `s.find(c)`: what stands before and behind the first `c`
unfoldable pub find_char : ℕ → Text → Option (Text × Text)
find_char d [] = none
find_char d (c ∷ s) =
    if c == d
    then some ([], s)
    else elim (find_char d s) [ none ↦ none | some (a, b) ↦ some (c ∷ a, b) ]

-- `s.rfind(c)`: what stands before and behind the last `c`
unfoldable pub rfind_char : ℕ → Text → Option (Text × Text)
rfind_char d [] = none
rfind_char d (c ∷ s) = elim (rfind_char d s) [
  | some (a, b) ↦ some (c ∷ a, b)
  | none ↦ if c == d then some ([], s) else none
]

-- `str.erase(0, str.find_first_not_of(chars))`
unfoldable pub trim_left : Text → Text → Text
trim_left chars [] = []
trim_left chars (c ∷ s) = if has ℕ_discrete c chars then trim_left chars s else c ∷ s

-- `str.erase(str.find_last_not_of(chars) + 1)`
unfoldable pub trim_right : Text → Text → Text
trim_right chars [] = []
trim_right chars (c ∷ s) = elim (trim_right chars s) [
  | [] ↦ if has ℕ_discrete c chars then [] else c ∷ []
  | d ∷ t ↦ c ∷ d ∷ t
]

unfoldable pub trim : Text → Text → Text
unfolding trim_left trim_right has ℕ_discrete
trim s chars = trim_right chars (trim_left chars s)

-- the rest of a text behind a prefix
unfoldable pub strip_prefix : Text → Text → Option Text
strip_prefix [] s = some s
strip_prefix (d ∷ p) [] = none
strip_prefix (d ∷ p) (c ∷ s) = if c == d then strip_prefix p s else none

-- `s.find(p)`: what stands before and behind the first `p`
unfoldable pub find_text : Text → Text → Option (Text × Text)
unfolding strip_prefix
find_text p [] = elim (strip_prefix p []) [ none ↦ none | some r ↦ some ([], r) ]
find_text p (c ∷ s) = elim (strip_prefix p (c ∷ s)) [
  | some r ↦ some ([], r)
  | none ↦ elim (find_text p s) [ none ↦ none | some (a, b) ↦ some (c ∷ a, b) ]
]

unfoldable pub remove_sub_str : Text → Text → Text
unfolding find_text
remove_sub_str s sub = elim (find_text sub s) [ none ↦ s | some (a, b) ↦ a ++ b ]

-- The loop over `std::getline`: it fails, and the loop ends, where the input is at its end before
-- a character is read; so a delimiter at the very end adds no empty part.
split_from : ℕ → Text → Text → List Text
split_from d [] [] = []
split_from d (b ∷ cur) [] = (b ∷ cur) ∷ []
split_from d cur (c ∷ s) = elim (c == d) [
  | true ↦ cur ∷ split_from d [] s
  | false ↦ split_from d (cur ++ c ∷ []) s
]

unfoldable pub split : Text → ℕ → List Text
unfolding split_from
split s d = split_from d [] s

unfoldable pub split_head : Text → ℕ → Text × Text
unfolding find_char
split_head s d = elim (find_char d s) [ none ↦ (s, []) | some (a, b) ↦ (a, b) ]

unfoldable pub split_tail : Text → ℕ → Text × Text
unfolding rfind_char
split_tail s d = elim (rfind_char d s) [ none ↦ ([], s) | some (a, b) ↦ (a, b) ]

unfoldable pub get_parent : Text → ℕ → Text
unfolding rfind_char
get_parent s d = elim (rfind_char d s) [ none ↦ s | some (a, b) ↦ a ]

-- the function that `std::accumulate` folds with
unfoldable pub join_step : Text → Text → Text → Text
join_step delim [] y = y
join_step delim (c ∷ x) y = (c ∷ x) ++ (delim ++ y)

unfoldable pub join : List Text → Text → Text
unfolding join_step
join keys delim = foldl (join_step delim) [] keys

unfoldable pub make_name : Text → Text → Result Text
make_name [] [] = throw runtime_error
make_name [] (c ∷ b) = ok (c ∷ b)
make_name (c ∷ a) [] = ok (c ∷ a)
make_name (c ∷ a) (d ∷ b) = ok ((c ∷ a) ++ (dot ++ d ∷ b))

-- `while (true)` on fuel: the outer `none` means that the fuel ran out
unfoldable pub substitute_env_vars : (Text → Option Text) → ℕ → Text → Option (Result Text)
unfolding find_text find_char
substitute_env_vars getenv zero s = none
substitute_env_vars getenv (suc fuel) s = elim (find_text (codes "${") s) [
  | none ↦ some (ok s)
  | some (before, rest) ↦ elim (find_char b'}' rest) [
    | none ↦ some (throw runtime_error)
    | some (name, behind) ↦
        substitute_env_vars getenv fuel
          (before ++ (elim (getenv name) [ none ↦ [] | some value ↦ value ] ++ behind))
  ]
]
