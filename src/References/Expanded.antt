-- ===== src/References/Expanded.antt =====
-- What a reference to a proto becomes whose content has no struct.
use flexi_config_reader.Common.{
  ℕ, suc, Text, text_dec, List, [], ◌∷◌, ◌++◌, none, some, false, ◌≡◌, refl, arith, ap,
  Option-cases, inl, inr, has,
}
use flexi_config_reader.Result.{ok, Run, ◌>>>=◌}
use flexi_config_reader.Utils.{make_name}
use flexi_config_reader.Types.{
  Config, config_list, config_var, config_struct, config_proto, config_reference, of_struct, Fields,
  end, field, data_of, with_data,
}
use flexi_config_reader.Types.Map.{at, insert_all_sorted}
use flexi_config_reader.Parser.{struct_from_reference}
use flexi_config_reader.Vars.{Services}
use flexi_config_reader.Vars.Filled.{
  filled, filled_fields, filled_entry, AllFillable, replace_proto_var-filled_fields,
}
use flexi_config_reader.References.{
  resolve_content, resolve_reference, resolve_entry, resolve_each, resolve_references,
}
use flexi_config_reader.References.Low.{IsFlat}
use flexi_config_reader.References.Copied.{AreDistinct, at-struct_from_reference}

abbrev pub NoStructs : Fields → Type 0
NoStructs end = Unit
NoStructs (field k v f) = (data_of v ≡ none) × NoStructs f

data_of-filled_entry :
    (vars : Fields) (v : Config)
    → IsFlat vars
    → data_of v ≡ none
    → data_of (filled_entry vars v) ≡ none
unfolding filled_entry filled data_of
data_of-filled_entry vars (config_var name) flat e = elim (Option-cases (at name vars)) [
  | inl absent ↦ rw (absent, filled_entry, filled, data_of) refl
  | inr (w, there) ↦ rw (there, filled_entry, filled) (flat name w there)
]
data_of-filled_entry vars (config_struct t n d f) flat e = absurd (ground arith)
data_of-filled_entry vars (config_proto n d f) flat e = absurd (ground arith)
data_of-filled_entry vars (config_reference n p d r f) flat e = absurd (ground arith)
data_of-filled_entry vars (config_list t es) flat e = refl
data_of-filled_entry vars v flat e = refl

NoStructs-filled_fields :
    (vars f : Fields) → IsFlat vars → NoStructs f → NoStructs (filled_fields vars f)
unfolding filled_fields
NoStructs-filled_fields vars end flat h = tt
NoStructs-filled_fields vars (field k v f) flat h =
    (data_of-filled_entry vars v flat h.0, NoStructs-filled_fields vars f flat h.1)

module _ (services : Services) (protos : Fields) where
  resolve_entry-data_of :
      (resume : Text → Fields → List Text → Fields → Run Fields) (name : Text) (vars : Fields)
      (refd : List Text) (v : Config)
      → data_of v ≡ none
      → resolve_entry services protos resume name vars refd v ≡ some (ok v)
  unfolding resolve_entry data_of
  resolve_entry-data_of resume name vars refd (config_struct t n d f) e = absurd (ground arith)
  resolve_entry-data_of resume name vars refd (config_reference n p d r f) e = absurd (ground arith)
  resolve_entry-data_of resume name vars refd v e = refl

  resolve_each-NoStructs :
      (resume : Text → Fields → List Text → Fields → Run Fields) (c : ℕ) (base : Text)
      (vars : Fields) (refd : List Text) (f : Fields)
      → NoStructs f
      → resolve_each services protos resume (c ∷ base) vars refd f ≡ some (ok f)
  unfolding resolve_each make_name
  resolve_each-NoStructs resume c base vars refd end h = refl
  resolve_each-NoStructs resume c base vars refd (field [] v f) h =
      rw
        (
          resolve_entry-data_of resume (c ∷ base) vars refd v h.0,
          resolve_each-NoStructs resume c base vars refd f h.1,
        )
        refl
  resolve_each-NoStructs resume c base vars refd (field (b ∷ k) v f) h =
      rw
        (
          resolve_entry-data_of resume (c ∷ (base ++ b'.' ∷ b ∷ k)) vars refd v h.0,
          resolve_each-NoStructs resume c base vars refd f h.1,
        )
        refl

  -- A reference becomes a struct of its name and depth, whose content has at each key the entry of the
  -- proto, or else its own, each variable replaced by its definition: this where `structFromReference`
  -- does not throw, no key is twice in the proto, neither has a struct, the definitions are values,
  -- every variable of the content has a definition, and no `$` stands in another text.
  pub resolve_reference-filled_fields :
      (fuel c : ℕ) (base : Text) (ref_vars : Fields) (refd : List Text)
      (name proto proto_name : Text) (depth proto_depth : ℕ)
      (new_vars ref_data proto_data content : Fields)
      → at proto protos ≡ some (config_proto proto_name proto_depth proto_data)
      → has text_dec proto refd ≡ false
      → struct_from_reference name depth ref_data proto_data
        ≡ ok (config_struct of_struct name depth content)
      → AreDistinct proto_data
      → NoStructs content
      → IsFlat (insert_all_sorted ref_vars new_vars)
      → AllFillable (insert_all_sorted ref_vars new_vars) content
      → (resolve_reference services protos
            (resolve_references services protos (suc fuel) (c ∷ base))
            ref_vars
            refd
            name
            proto
            depth
            new_vars
            ref_data
          ≡ some (
              ok (
                config_struct of_struct name depth
                  (filled_fields (insert_all_sorted ref_vars new_vars) content))))
        × ((q : Text)
            → at q content ≡ elim (at q proto_data) [ none ↦ at q ref_data | some v ↦ some v ])
  unfolding resolve_reference resolve_content resolve_references data_of with_data
  resolve_reference-filled_fields fuel c base ref_vars refd name proto proto_name depth proto_depth
        new_vars ref_data proto_data content there new copied distinct no_structs flat fillable =
      let vars = insert_all_sorted ref_vars new_vars in
      let below : resolve_references services protos (suc fuel) (c ∷ base) vars (refd ++ proto ∷ [])
            (filled_fields vars content)
          ≡ some (ok (filled_fields vars content)) =
        resolve_each-NoStructs (resolve_references services protos fuel) c base vars
          (refd ++ proto ∷ []) (filled_fields vars content)
          (NoStructs-filled_fields vars content flat no_structs) in
      let replaced = replace_proto_var-filled_fields vars services content fillable in
      (
        rw (there, resolve_reference)
            (rw (new, copied, resolve_content)
              (rw (replaced, resolve_content)
                (ap (λ m. m >>>= λ d. some (ok (config_struct of_struct name depth d))) below))),
        λ q. at-struct_from_reference q name depth ref_data proto_data content copied distinct,
      )
