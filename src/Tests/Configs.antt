-- ===== src/Tests/Configs.antt =====
-- Files resolved as a whole.
use flexi_config_reader.Common.{
  text_dec, codes, List, [], ◌∷◌, ◌+◌, ◌*◌, ◌<◌, none, some, ◌≡◌, refl, length, arith,
}
use flexi_config_reader.Result.{Result, ok}
use flexi_config_reader.Types
use flexi_config_reader.Types.{
  Config, config_value, config_value_lookup, config_expression, config_struct, config_proto,
  config_reference, of_number, of_struct, Fields, end, field,
}
use flexi_config_reader.Types.Map.{at, keys}
use flexi_config_reader.Clean.Emptiness.{NoEmptyStruct}
use flexi_config_reader.Expressions.Evaluated.{NoExpressions}
use flexi_config_reader.Math.Evaluate.{actions}
use flexi_config_reader.References.Low.{Low}
use flexi_config_reader.Resolution.{find_protos, resolve_store, resolve_config}
use flexi_config_reader.Resolution.Protos.{AllLow}
use flexi_config_reader.Resolution.Total.{IsFinite, resolve_config_total}
use flexi_config_reader.Tests.Passes.{
  one, services, services-ParsesExpressions, definitions, definitions-IsFlat, content, protos,
  naturals, reading,
}

-- `reference p as r { $X = 1 } b = $(r.a) e.f = {{ 1 + 2 }}`
abbrev document : Fields
document = field (codes "r") (config_reference (codes "r") (codes "p") 0 definitions end) (
    field (codes "b") (config_value_lookup (codes "r" ∷ codes "a" ∷ []))
      (field (codes "e.f") (config_expression (codes "{{ 1 + 2 }}") end) end))

abbrev files : List Fields
files = protos ∷ document ∷ []

files-AllLow : AllLow 1 files
unfolding Low
files-AllLow = (((tt, (tt, tt)), tt), (((definitions-IsFlat, tt), (tt, (tt, tt))), tt))

fuel-enough : (length (keys (find_protos files)) + 1) * (1 + 1) < 5
unfolding keys find_protos text_dec at
fuel-enough = omega arith

files_resolved :
    resolve_config services naturals reading 5 5 end files
    ≡ some (
        ok (
          field (codes "r") (config_struct of_struct (codes "r") 0 content) (
            field (codes "b") one (
              field
                (codes "e")
                (config_struct of_struct
                  (codes "e")
                  0
                  (field (codes "f") (config_value (3 ∷ []) of_number) end))
                end))))
unfolding resolve_config text_dec Types.ConfigType-discrete actions
files_resolved = refl

files-IsFinite : IsFinite 5 (resolve_store services naturals reading 5 end files)
unfolding IsFinite resolve_store text_dec Types.ConfigType-discrete
files-IsFinite = (_, refl)

resolve_config_example :
    (r : Result Fields) × (resolve_config services naturals reading 5 7 end files ≡ some r)
    × (resolve_config services naturals reading 5 5 end files ≡ some r)
    × ((f : Fields) → r ≡ ok f → NoExpressions f × NoEmptyStruct f)
resolve_config_example =
    resolve_config_total services services-ParsesExpressions naturals reading 1 5 5 7 end files
      files-AllLow fuel-enough files-IsFinite (omega arith)

-- `s { b = $(s) }`: a struct below itself
abbrev looped : List Fields
looped =
    field (codes "s")
      (config_struct of_struct (codes "s") 0
        (field (codes "b") (config_value_lookup (codes "s" ∷ [])) end))
      end
    ∷ []

-- no tree is below the root
looped_unresolved : resolve_config services naturals reading 5 20 end looped ≡ none
unfolding resolve_config text_dec Types.ConfigType-discrete actions
looped_unresolved = refl
