-- ===== src/Flat/Nesting.antt =====
-- A dotted key that `unflatten` nests is found by `getConfigValue`.
use flexi_config_reader.Common.{ℕ, suc, Text, List, [], ◌∷◌, ◌++◌, some, ◌≡◌, refl, arith, ◌∙◌}
use flexi_config_reader.Result.{ok}
use flexi_config_reader.Types.{Config, config_struct, of_struct, data_of, Fields, end, field}
use flexi_config_reader.Types.Map.{at}
use flexi_config_reader.Lookup.{get_config_value}
use flexi_config_reader.Lookup.Paths.{walk, AreNonempty, get_config_value-walk}
use flexi_config_reader.Flat.{nest, unflatten_span}

at-first : (k : Text) (v : Config) (f : Fields) → at k (field k v f) ≡ some v
unfolding at
at-first k v f = ground arith

nest-walk :
    (depth : ℕ) (ks : List Text) (k : Text) (v : Config)
    → walk (nest depth ks (field k v end)) (ks ++ k ∷ []) ≡ ok v
unfolding nest walk data_of
nest-walk depth [] k v = rw (at-first k v end, walk) refl
nest-walk depth (j ∷ []) k v =
    rw (at-first j (config_struct of_struct j depth (field k v end)) end, walk)
      (rw (at-first k v end, walk) refl)
nest-walk depth (j ∷ i ∷ ks) k v =
    rw
      (
        at-first j (config_struct of_struct j depth (nest (suc depth) (i ∷ ks) (field k v end)))
            end,
        walk,
      )
      (nest-walk (suc depth) (i ∷ ks) k v)

-- The map that `unflatten` makes of a key with several non-empty parts and a value has the value at
-- the path of these parts.
pub get_config_value-unflatten_span :
    (ks : List Text) (k : Text) (v : Config)
    → AreNonempty (ks ++ k ∷ [])
    → get_config_value (unflatten_span ks (field k v end)) (ks ++ k ∷ []) ≡ ok v
unfolding unflatten_span
get_config_value-unflatten_span ks k v h =
    get_config_value-walk (unflatten_span ks (field k v end)) (ks ++ k ∷ []) h ∙ nest-walk 0 ks k v
