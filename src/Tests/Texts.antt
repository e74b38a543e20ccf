-- ===== src/Tests/Texts.antt =====
-- The texts at concrete inputs.
use flexi_config_reader.Common.{
  Text, codes, [], ◌∷◌, ◌++◌, Option, none, some, List, ◌≡◌, refl, sym, arith, true, ◌<◌, text_dec,
  ite,
}
use flexi_config_reader.Result.{Result, ok}
use flexi_config_reader.Utils.{find_char, split, join, trim, find_text, substitute_env_vars}
use flexi_config_reader.Utils.Split.{split-join, join-split, starts_with, ends_with}
use flexi_config_reader.Utils.Trim.{trim_lem, IsTrimmed, starts_clean, ends_clean}
use flexi_config_reader.Utils.Env.{
  IsPlain, dollars, substitute_env_vars_total, substitute_env_vars_diverges,
}

abbrev parts : List Text
parts = codes "ab" ∷ codes "c" ∷ []

split-join_example : split (join parts (b'.' ∷ [])) b'.' ≡ parts
split-join_example = split-join b'.' parts (
  (λ e. cc),
  ((λ e. omega arith), ((λ e. omega arith), tt)),
  ((λ e. cc), ((λ e. omega arith), tt), tt),
)

join-split_example : join (split (codes "ab.c.d") b'.') (b'.' ∷ []) ≡ codes "ab.c.d"
unfolding starts_with ends_with
join-split_example = join-split b'.' (codes "ab.c.d") refl refl

abbrev quote : Text
quote = codes "\""

trim_example :
    (a : Text) × (b : Text) × (codes "\"ab\"" ≡ a ++ (trim (codes "\"ab\"") quote ++ b))
    × IsTrimmed quote a
    × IsTrimmed quote b
    × (starts_clean quote (trim (codes "\"ab\"") quote) ≡ true)
    × (ends_clean quote (trim (codes "\"ab\"") quote) ≡ true)
    × (trim (trim (codes "\"ab\"") quote) quote ≡ trim (codes "\"ab\"") quote)
trim_example = trim_lem quote (codes "\"ab\"")

-- an environment with one variable
abbrev home : Text → Option Text
home name = ite (text_dec name (codes "HOME")) (some (codes "/root")) none

home-IsPlain : IsPlain home
unfolding dollars text_dec
home-IsPlain name value h = elim (text_dec name (codes "HOME")) [
  | yes p ↦ let same : codes "/root" ≡ value = ground (arith, h, p) in rw (sym same) refl
  | no n ↦ absurd (ground (arith, h, n))
]

dollars_few : dollars (codes "${HOME}") < 2
unfolding dollars
dollars_few = omega arith

substitute_example :
    (r : Result Text) × (substitute_env_vars home 2 (codes "${HOME}") ≡ some r)
    × ((t : Text) → r ≡ ok t → find_text (codes "${") t ≡ none)
substitute_example = substitute_env_vars_total home home-IsPlain 2 (codes "${HOME}") (dollars_few)

-- a variable that names itself: `P = b:${P}:c`
abbrev itself : Text → Option Text
itself name = some (codes "b:${P}:c")

diverges_example : substitute_env_vars itself 9 (codes "a${P}d") ≡ none
unfolding find_char dollars
diverges_example =
    substitute_env_vars_diverges itself (codes "P") (codes "b:") (codes ":c") refl refl refl 9
      (codes "a") (codes "d") refl
