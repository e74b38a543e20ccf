-- ===== src/Vars/Replaced.antt =====
-- What `replaceProtoVar` leaves: no variable, under the same keys.
use flexi_config_reader.Common.{
  Text, text_dec, List, ◌∷◌, some, Bool, true, false, ◌≡◌, refl, ap, arith, Option-cases, inl, inr,
}
use flexi_config_reader.Result.{
  ok, Ensures, Ensures-bind, Ensures-map, Ensures-bool, Ensures-any, Ensures-option, Ensures-ok,
  Ensures-if,
}
use flexi_config_reader.Types.{
  Config, config_value, config_list, config_expression, config_value_lookup, config_var,
  config_struct, config_proto, config_reference, of_string, ConfigType, Items, nil, cons, Fields,
  end, field, type_of,
}
use flexi_config_reader.Types.Map.{at, keys}
use flexi_config_reader.Elements.{list_element_valid}
use flexi_config_reader.Vars.{
  Services, replace_var_in_str, replace_value, replace_items, replace_expression, replace_lookup,
  replace_proto_var, replace_entry,
}
use flexi_config_reader.Lookup.{var_of}

unfoldable pub is_var : Config → Bool
is_var (config_var name) = true
is_var v = false

-- no element of the list is a variable
abbrev pub NoVarItem : Items → Type 0
NoVarItem nil = Unit
NoVarItem (cons e es) = (is_var e ≡ false) × NoVarItem es

-- No entry is a variable or a list with one as an element, nor is one below a struct-like entry.
unfoldable mutual
  pub NoVars : Fields → Type 0
  NoVars end = Unit
  NoVars (field k v f) = NoVarEntry v × NoVars f

  pub NoVarEntry : Config → Type 0
  NoVarEntry (config_var name) = ⊥
  NoVarEntry (config_list t es) = NoVarItem es
  NoVarEntry (config_struct t n d f) = NoVars f
  NoVarEntry (config_proto n d f) = NoVars f
  NoVarEntry (config_reference n p d r f) = NoVars f
  NoVarEntry (config_value _ _) = Unit
  NoVarEntry (config_expression _ _) = Unit
  NoVarEntry (config_value_lookup _) = Unit

at-NoVars : (k : Text) (v : Config) (f : Fields) → NoVars f → at k f ≡ some v → NoVarEntry v
unfolding NoVars at
at-NoVars k v end h e = cc
at-NoVars k v (field j w f) h e = elim (text_dec k j) [
  | yes p ↦ let same : w ≡ v = ground (arith, e, p) in rw (← same) h.0
  | no n ↦ let rest : at k f ≡ some v = ground (arith, e, n) in at-NoVars k v f h.1 rest
]

NoVarEntry-is_var : (v : Config) → NoVarEntry v → is_var v ≡ false
unfolding NoVars is_var
NoVarEntry-is_var (config_var name) h = absurd h
NoVarEntry-is_var v h = refl

module _ (services : Services) where
  open services use {parse_expression, contains_var}

  -- what PEGTL makes of an expression is no variable and no list
  abbrev pub ParsesExpressions : Type 0
  ParsesExpressions =
      (text : Text)
      → Ensures (λ v. (t : Text) × (lookups : Fields) × (v ≡ config_expression t lookups))
          (parse_expression text)

  module _ (vars : Fields) (no_vars : NoVars vars) where
    replace_var-NoVarEntry :
        (name : Text) → Ensures NoVarEntry (replace_value services vars (config_var name))
    unfolding replace_value
    replace_var-NoVarEntry name = elim (Option-cases (at name vars)) [
      | inl n ↦ rw (n, Ensures) tt
      | inr (v, s) ↦ rw (s, Ensures) (at-NoVars name v vars no_vars s)
    ]

    replace_text-NoVarEntry :
        (text : Text)
        → Ensures NoVarEntry (replace_value services vars (config_value text of_string))
    unfolding replace_value NoVars
    replace_text-NoVarEntry text =
        Ensures-bind (λ _. Unit) NoVarEntry (replace_var_in_str services text vars) _
          (Ensures-any _) (λ out u. Ensures-option NoVarEntry out _ _ tt (λ text'. tt))

    replace_value-is_var :
        (v : Config) → Ensures (λ w. is_var w ≡ false) (replace_value services vars v)
    unfolding replace_value is_var
    replace_value-is_var (config_var name) =
        Ensures-map NoVarEntry (λ w. is_var w ≡ false)
          (replace_value services vars (config_var name)) NoVarEntry-is_var
          (replace_var-NoVarEntry name)
    replace_value-is_var (config_value text of_string) =
        Ensures-map NoVarEntry (λ w. is_var w ≡ false)
          (replace_value services vars (config_value text of_string)) NoVarEntry-is_var
          (replace_text-NoVarEntry text)
    replace_value-is_var (config_value text t) = refl
    replace_value-is_var v = refl

    replace_items-NoVarItem :
        (t : ConfigType) (es : Items)
        → Ensures (λ l. NoVarItem l.1) (replace_items services vars t es)
    unfolding replace_items
    replace_items-NoVarItem t nil = tt
    replace_items-NoVarItem t (cons e es) =
        Ensures-bind (λ w. is_var w ≡ false) (λ l. NoVarItem l.1) (replace_value services vars e) _
          (replace_value-is_var e)
          (λ w clean.
            Ensures-bool (λ l. NoVarItem l.1) (list_element_valid t (type_of w)).0 _ _ tt
              (Ensures-bind (λ l. NoVarItem l.1) (λ l. NoVarItem l.1)
                (replace_items services vars (list_element_valid t (type_of w)).1 es) _
                (replace_items-NoVarItem (list_element_valid t (type_of w)).1 es)
                (λ l rest. (clean, rest))))

    module _ (parses : ParsesExpressions) where
      parsed-NoVarEntry : (text : Text) → Ensures NoVarEntry (parse_expression text)
      unfolding NoVars
      parsed-NoVarEntry text =
          Ensures-map _ NoVarEntry (parse_expression text) (λ v e. rw e.2 tt) (parses text)

      replace_expression-NoVarEntry :
          (text : Text) (lookups : Fields)
          → Ensures NoVarEntry (replace_expression services vars text lookups)
      unfolding replace_expression NoVars
      replace_expression-NoVarEntry text lookups =
          Ensures-bind (λ _. Unit) NoVarEntry (replace_var_in_str services text vars) _
            (Ensures-any _)
            (λ out u. Ensures-option NoVarEntry out _ _ tt (λ text'.
              Ensures-bind NoVarEntry NoVarEntry (parse_expression text') _
                (parsed-NoVarEntry text')
                (λ v clean. Ensures-if NoVarEntry (contains_var text') _ v clean)))

      replace_lookup-NoVarEntry :
          (ks : List Text) → Ensures NoVarEntry (replace_lookup services vars ks)
      unfolding replace_lookup NoVars
      replace_lookup-NoVarEntry ks =
          Ensures-bind (λ _. Unit) NoVarEntry (replace_var_in_str services (var_of ks) vars) _
            (Ensures-any _) (λ out u. Ensures-option NoVarEntry out _ _ tt (λ text'. tt))

      mutual
        unfolding replace_proto_var NoVars keys

        replace_proto_var-vars :
            (f : Fields)
            → Ensures (λ g. NoVars g × keys g ≡ keys f) (replace_proto_var services f vars)
        replace_proto_var-vars end = (tt, refl)
        replace_proto_var-vars (field k v f) =
            Ensures-bind NoVarEntry (λ g. NoVars g × keys g ≡ keys (field k v f))
              (replace_entry services v vars) _ (replace_entry-NoVarEntry v)
              (λ w clean.
                Ensures-bind (λ g. NoVars g × keys g ≡ keys f)
                  (λ g. NoVars g × keys g ≡ keys (field k v f)) (replace_proto_var services f vars)
                  _ (replace_proto_var-vars f) (λ g rest. ((clean, rest.0), ap (◌∷◌ k) rest.1)))

        replace_entry-NoVarEntry : (v : Config) → Ensures NoVarEntry (replace_entry services v vars)
        replace_entry-NoVarEntry (config_list t es) =
            Ensures-bind (λ l. NoVarItem l.1) NoVarEntry (replace_items services vars t es) _
              (replace_items-NoVarItem t es) (λ l clean. clean)
        replace_entry-NoVarEntry (config_expression text lookups) =
            replace_expression-NoVarEntry text lookups
        replace_entry-NoVarEntry (config_value_lookup ks) = replace_lookup-NoVarEntry ks
        replace_entry-NoVarEntry (config_struct t n d f) =
            Ensures-bind (λ g. NoVars g × keys g ≡ keys f) NoVarEntry
              (replace_proto_var services f vars) _ (replace_proto_var-vars f) (λ g clean. clean.0)
        replace_entry-NoVarEntry (config_proto n d f) =
            Ensures-bind (λ g. NoVars g × keys g ≡ keys f) NoVarEntry
              (replace_proto_var services f vars) _ (replace_proto_var-vars f) (λ g clean. clean.0)
        replace_entry-NoVarEntry (config_reference n p d r f) =
            Ensures-bind (λ g. NoVars g × keys g ≡ keys f) NoVarEntry
              (replace_proto_var services f vars) _ (replace_proto_var-vars f) (λ g clean. clean.0)
        replace_entry-NoVarEntry (config_var name) = replace_var-NoVarEntry name
        replace_entry-NoVarEntry (config_value text of_string) = replace_text-NoVarEntry text
        replace_entry-NoVarEntry (config_value text t) = tt

      -- Where a reference defines no key by a variable, which the grammar provides for, and an expression
      -- that is read again is an expression, `replaceProtoVar` throws, or it leaves no variable in the
      -- proto's content: not at an entry, not in a list, and not below a struct. The keys stay.
      pub replace_proto_var-NoVars :
          (f f' : Fields)
          → replace_proto_var services f vars ≡ ok f'
          → NoVars f' × (keys f' ≡ keys f)
      replace_proto_var-NoVars f f' e =
          Ensures-ok (λ g. NoVars g × keys g ≡ keys f) e (replace_proto_var-vars f)
