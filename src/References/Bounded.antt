-- ===== src/References/Bounded.antt =====
-- The passes that make a struct from a reference keep the bound on its depth.
use flexi_config_reader.Common.{ℕ, zero, suc, Text, List, refl, Option-cases, inl, inr}
use flexi_config_reader.Result.{
  ok, ◌>>=◌, Ensures, Ensures-bind, Ensures-map, Ensures-any, Ensures-option, Ensures-if,
}
use flexi_config_reader.Types.{
  Config, config_value, config_list, config_expression, config_value_lookup, config_var,
  config_struct, config_proto, config_reference, of_string, ConfigType, Items, Fields, end, field,
  data_of,
}
use flexi_config_reader.Types.Map.{at}
use flexi_config_reader.Lookup.{var_of}
use flexi_config_reader.Vars.{
  Services, replace_var_in_str, replace_value, replace_items, replace_expression, replace_lookup,
  replace_proto_var, replace_entry,
}
use flexi_config_reader.Vars.Replaced.{ParsesExpressions}
use flexi_config_reader.References.Low.{IsFlat, Low, LowEntry, LowEntry-flat}

module _ (services : Services) (parses : ParsesExpressions services) (vars : Fields)
    (flat : IsFlat vars) where
  open services use {parse_expression, contains_var}

  replace_var-LowEntry :
      (n : ℕ) (name : Text) → Ensures (LowEntry n) (replace_value services vars (config_var name))
  unfolding replace_value
  replace_var-LowEntry n name = elim (Option-cases (at name vars)) [
    | inl e ↦ rw (e, Ensures) tt
    | inr (v, s) ↦ rw (s, Ensures) (LowEntry-flat n v (flat name v s))
  ]

  replace_text-LowEntry :
      (n : ℕ) (text : Text)
      → Ensures (LowEntry n) (replace_value services vars (config_value text of_string))
  unfolding replace_value data_of
  replace_text-LowEntry n text =
      Ensures-bind (λ _. Unit) (LowEntry n) (replace_var_in_str services text vars) _
        (Ensures-any _)
        (λ out u.
          Ensures-option (LowEntry n) out _ _ (LowEntry-flat n (config_value text of_string) refl)
            (λ text'. LowEntry-flat n (config_value text' of_string) refl))

  replace_expression-LowEntry :
      (n : ℕ) (text : Text) (lookups : Fields)
      → Ensures (LowEntry n) (replace_expression services vars text lookups)
  unfolding replace_expression data_of
  replace_expression-LowEntry n text lookups =
      Ensures-bind (λ _. Unit) (LowEntry n) (replace_var_in_str services text vars) _
        (Ensures-any _)
        (λ out u.
          Ensures-option (LowEntry n) out _ _
            (LowEntry-flat n (config_expression text lookups) refl)
            (λ text'.
              Ensures-bind (LowEntry n) (LowEntry n) (parse_expression text') _
                (Ensures-map _ (LowEntry n) (parse_expression text')
                  (λ v e. LowEntry-flat n v (rw e.2 refl)) (parses text'))
                (λ v one. Ensures-if (LowEntry n) (contains_var text') _ v one)))

  replace_lookup-LowEntry :
      (n : ℕ) (ks : List Text) → Ensures (LowEntry n) (replace_lookup services vars ks)
  unfolding replace_lookup data_of
  replace_lookup-LowEntry n ks =
      Ensures-bind (λ _. Unit) (LowEntry n) (replace_var_in_str services (var_of ks) vars) _
        (Ensures-any _)
        (λ out u.
          Ensures-option (LowEntry n) out _ _ (LowEntry-flat n (config_value_lookup ks) refl)
            (λ text'. LowEntry-flat n (config_value_lookup _) refl))

  replace_each_list-LowEntry :
      (n : ℕ) (t : ConfigType) (es : Items)
      → Ensures (LowEntry n) (replace_items services vars t es >>= λ l. ok (config_list l.0 l.1))
  unfolding data_of
  replace_each_list-LowEntry n t es =
      Ensures-bind (λ _. Unit) (LowEntry n) (replace_items services vars t es) _ (Ensures-any _)
        (λ l _. LowEntry-flat n (config_list l.0 l.1) refl)

  mutual
    unfolding replace_proto_var Low data_of

    Low-replace_each :
        (n : ℕ) (f : Fields) → Low n f → Ensures (Low n) (replace_proto_var services f vars)
    Low-replace_each n end h = tt
    Low-replace_each n (field k v f) h =
        Ensures-bind (LowEntry n) (Low n) (replace_entry services v vars) _
          (LowEntry-replace_entry n v h.0)
          (λ w one.
            Ensures-bind (Low n) (Low n) (replace_proto_var services f vars) _
              (Low-replace_each n f h.1) (λ g rest. (one, rest)))

    LowEntry-replace_entry :
        (n : ℕ) (v : Config) → LowEntry n v → Ensures (LowEntry n) (replace_entry services v vars)
    LowEntry-replace_entry zero (config_struct t name d f) h = absurd h
    LowEntry-replace_entry zero (config_proto name d f) h = absurd h
    LowEntry-replace_entry zero (config_reference name p d r f) h = absurd h
    LowEntry-replace_entry (suc n) (config_struct t name d f) h =
        Ensures-bind (Low n) (LowEntry (suc n)) (replace_proto_var services f vars) _
          (Low-replace_each n f h) (λ g rest. rest)
    LowEntry-replace_entry (suc n) (config_proto name d f) h =
        Ensures-bind (Low n) (LowEntry (suc n)) (replace_proto_var services f vars) _
          (Low-replace_each n f h) (λ g rest. rest)
    LowEntry-replace_entry (suc n) (config_reference name p d r f) h =
        Ensures-bind (Low n) (LowEntry (suc n)) (replace_proto_var services f vars) _
          (Low-replace_each n f h.1) (λ g rest. (h.0, rest))
    LowEntry-replace_entry n (config_list t es) h = replace_each_list-LowEntry n t es
    LowEntry-replace_entry n (config_expression text lookups) h =
        replace_expression-LowEntry n text lookups
    LowEntry-replace_entry n (config_value_lookup ks) h = replace_lookup-LowEntry n ks
    LowEntry-replace_entry n (config_var name) h = replace_var-LowEntry n name
    LowEntry-replace_entry n (config_value text of_string) h = replace_text-LowEntry n text
    LowEntry-replace_entry n (config_value text t) h = LowEntry-flat n (config_value text t) refl

  -- `replaceProtoVar` keeps the bound
  pub Low-replace_proto_var :
      (n : ℕ) (f : Fields) → Low n f → Ensures (Low n) (replace_proto_var services f vars)
  Low-replace_proto_var n f h = Low-replace_each n f h
