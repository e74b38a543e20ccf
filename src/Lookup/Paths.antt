-- ===== src/Lookup/Paths.antt =====
-- `getConfigValue` against a recursive walk down the tree.
use flexi_config_reader.Common.{
  Text, List, [], ◌∷◌, Option, none, some, ◌≡◌, ◌≢◌, refl, Option-cases, inl, inr, ap,
}
use flexi_config_reader.Result.{Result, ok, throw, ◌>>=◌, invalid_key, invalid_type, undefined}
use flexi_config_reader.Utils.{make_name}
use flexi_config_reader.Types.{Config, Fields, data_of}
use flexi_config_reader.Types.Map.{at}
use flexi_config_reader.Lookup.{back, drop_last, nested_loop, content_of, get_config_value}

-- one key after the other
unfoldable pub walk : Fields → List Text → Result Config
walk cfg [] = throw undefined
walk cfg (k ∷ []) = elim (at k cfg) [ none ↦ throw invalid_key | some v ↦ ok v ]
walk cfg (k ∷ j ∷ ks) = elim (at k cfg) [
  | none ↦ throw invalid_key
  | some v ↦ elim (data_of v) [ none ↦ throw invalid_type | some d ↦ walk d (j ∷ ks) ]
]

abbrev pub AreNonempty : List Text → Type 0
AreNonempty [] = Unit
AreNonempty (k ∷ ks) = (k ≢ []) × AreNonempty ks

make_name_total : (a b : Text) → b ≢ [] → (n : Text) × (make_name a b ≡ ok n)
unfolding make_name
make_name_total [] [] h = absurd (h refl)
make_name_total (c ∷ a) [] h = absurd (h refl)
make_name_total [] (d ∷ b) h = (_, refl)
make_name_total (c ∷ a) (d ∷ b) h = (_, refl)

-- what `getConfigValue` does with the result of the loop
unfoldable pub finish : List Text → Fields → Result (Option Config) → Result Config
finish keys cfg r = r >>= λ struct_like. elim (back keys) [
  | none ↦ throw undefined
  | some key ↦ elim (at key (content_of cfg struct_like)) [
    | none ↦ throw invalid_key
    | some v ↦ ok v
  ]
]

walk_loop :
    (keys : List Text) (rejoined : Text) (root content : Fields) (found : Option Config)
    → AreNonempty keys
    → content_of root found ≡ content
    → finish keys root (nested_loop (drop_last keys) rejoined content found) ≡ walk content keys
unfolding finish nested_loop drop_last walk back content_of
walk_loop [] rejoined root content found h c = refl
walk_loop (k ∷ []) rejoined root content found h c = ap (λ x. walk x (k ∷ [])) c
walk_loop (k ∷ j ∷ ks) rejoined root content found h c = elim (Option-cases (at k content)) [
  | inl absent ↦ rw (absent, nested_loop, walk) refl
  | inr (v, there) ↦
      let (n, named) = make_name_total rejoined k h.0 in
      elim (Option-cases (data_of v)) [
        | inl plain ↦ rw (there, nested_loop, walk) (rw (named, plain) refl)
        | inr (d, inner) ↦
            rw (there, nested_loop, walk)
              (rw (named, inner)
                (walk_loop (j ∷ ks) n root d (some v) h.1 (rw (inner, content_of) refl)))
      ]
]

-- With non-empty keys, `getConfigValue` walks down the tree one key after the other: it returns the
-- value at the path, throws `InvalidKeyException` at a key that is not there, and throws
-- `InvalidTypeException` where a key on the way leads to no struct.
pub get_config_value-walk :
    (cfg : Fields) (keys : List Text) → AreNonempty keys → get_config_value cfg keys ≡ walk cfg keys
unfolding get_config_value finish
get_config_value-walk cfg keys h = walk_loop keys [] cfg cfg none h refl
