-- ===== src/References.antt =====
-- `resolveReferences` of src/config_parser.cpp: every reference becomes a struct of its proto's content
-- and its own, in which the variables have their values.
pub mod Low
pub mod Copied
pub mod Bounded
pub mod Resolved
pub mod Expanded
use flexi_config_reader.Common.{
  ℕ, zero, suc, Text, text_dec, List, [], ◌∷◌, ◌++◌, Option, none, some, Bool, true, false, has,
  if◌then◌else◌,
}
use flexi_config_reader.Result.{
  Result, ok, throw, Run, ◌>>>=◌, undefined_proto, cyclic_reference, undefined,
}
use flexi_config_reader.Utils.{make_name}
use flexi_config_reader.Types.{
  Config, config_struct, config_proto, config_reference, of_struct, of_struct_in_proto, Fields, end,
  field, data_of, with_data,
}
use flexi_config_reader.Types.Map.{at, insert_all_sorted}
use flexi_config_reader.Parser.{struct_from_reference}
use flexi_config_reader.Vars.{Services, replace_proto_var}

module _ (services : Services) (protos : Fields) where
  -- `replaceProtoVar` and `resolveReferences` of the content of a struct; `resume` is the recursive call
  unfoldable pub resolve_content : (Fields → Run Fields) → Fields → Config → Run Config
  unfolding replace_proto_var data_of with_data
  resolve_content resume ref_vars v = elim (data_of v) [
    | none ↦ some (throw undefined)
    | some d ↦ some (replace_proto_var services d ref_vars) >>>= λ d'.
        resume d' >>>= λ d''. some (ok (with_data d'' v))
  ]

  -- The branch for a reference, of these `name`, `proto`, `depth`, `ref_vars` and `data`. The call that
  -- resumes takes the variables, the protos that are referred to already, and the content.
  unfoldable pub resolve_reference :
      (Fields → List Text → Fields → Run Fields)
      → Fields
      → List Text
      → Text
      → Text
      → ℕ
      → Fields
      → Fields
      → Run Config
  unfolding resolve_content struct_from_reference insert_all_sorted at data_of has text_dec
  resolve_reference resume ref_vars refd_protos name proto depth new_vars ref_data =
      elim (at proto protos) [
        | none ↦ some (throw undefined_proto)
        | some p ↦ elim (has text_dec proto refd_protos) [
          | true ↦ some (throw cyclic_reference)
          | false ↦ elim (data_of p) [
            | none ↦ some (throw undefined)
            | some proto_data ↦
                let updated_ref_vars = insert_all_sorted ref_vars new_vars in
                some (struct_from_reference name depth ref_data proto_data)
                >>>= resolve_content (resume updated_ref_vars (refd_protos ++ proto ∷ []))
                    updated_ref_vars
          ]
        ]
      ]

  -- the body of the loop, for the value at one key
  unfoldable pub resolve_entry :
      (Text → Fields → List Text → Fields → Run Fields)
      → Text
      → Fields
      → List Text
      → Config
      → Run Config
  unfolding resolve_content resolve_reference
  resolve_entry resume new_name ref_vars refd_protos (config_reference n p d r f) =
      resolve_reference (resume new_name) ref_vars refd_protos n p d r f
  resolve_entry resume new_name ref_vars refd_protos (config_struct of_struct_in_proto n d f) =
      resolve_content (resume new_name ref_vars refd_protos) ref_vars
        (config_struct of_struct_in_proto n d f)
  resolve_entry resume new_name ref_vars refd_protos (config_struct of_struct n d f) =
      resume new_name ref_vars refd_protos f >>>= λ f'. some (ok (config_struct of_struct n d f'))
  resolve_entry resume new_name ref_vars refd_protos v = some (ok v)

  -- the loop
  unfoldable pub resolve_each :
      (Text → Fields → List Text → Fields → Run Fields)
      → Text
      → Fields
      → List Text
      → Fields
      → Run Fields
  unfolding make_name resolve_entry
  resolve_each resume base_name ref_vars refd_protos end = some (ok end)
  resolve_each resume base_name ref_vars refd_protos (field k v f) =
      some (make_name base_name k) >>>= λ new_name.
      resolve_entry resume new_name ref_vars refd_protos v >>>= λ v'.
      resolve_each resume base_name ref_vars refd_protos f >>>= λ f'. some (ok (field k v' f'))

  -- on fuel, which each recursive call takes one of
  unfoldable pub resolve_references : ℕ → Text → Fields → List Text → Fields → Run Fields
  unfolding resolve_each
  resolve_references zero base_name ref_vars refd_protos cfg_map = none
  resolve_references (suc fuel) base_name ref_vars refd_protos cfg_map =
      resolve_each (resolve_references fuel) base_name ref_vars refd_protos cfg_map
