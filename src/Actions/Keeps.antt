-- ===== src/Actions/Keeps.antt =====
-- The files that are read, and the directory that an include starts from, are changed by no action but
-- the includes.
use flexi_config_reader.Common.{Text, List, ◌∷◌, Bool, ◌≡◌, refl, arith, ◌∙◌, ltb, length}
use flexi_config_reader.Result.{
  Result, ok, throw, ◌>>=◌, throw_if, logic_error, Ensures, Ensures-bind, Ensures-after,
  Ensures-list, Ensures-option, Ensures-map, Ensures-choice,
}
use flexi_config_reader.Types.{ConfigType, Fields, type_of, k_value, k_reference}
use flexi_config_reader.Elements.{is_type}
use flexi_config_reader.Types.Map.{set}
use flexi_config_reader.Actions.{ActionData, IncludeData, top, value_of, current, with_current}
use flexi_config_reader.Actions.Values.{
  Conversions, on_value, on_hex, on_float, on_integer, on_flat_key, pop_keys, pending, on_filename,
  on_optional, on_once,
}
use flexi_config_reader.Actions.Lists.{add_element, on_list_element, on_list_end}
use flexi_config_reader.Actions.Pairs.{
  store_override, store, fmt_join, on_pair, flat_map, on_full_pair, store_in_object, of_proto,
  on_proto_pair, on_ref_add_kvp, on_ref_vardef,
}
use flexi_config_reader.Actions.Objects.{
  on_parent_name, on_struct_start, on_proto_start, on_reference_start, store_object, pop_key,
  leave_proto, on_struct, on_proto, on_reference,
}
use flexi_config_reader.Utils.{split}
use flexi_config_reader.Actions.Rules.{
  Rule, act, hex, float, integer, flat_key, filename, value_end, list_element, list_end,
  parent_name, optional_mark, once_mark, pair, full_pair, proto_pair, ref_add_kvp, ref_vardef,
  struct_start, proto_start, reference_start, struct_end, proto_end, reference_end,
}

abbrev pub Keeps : ActionData → ActionData → Type 0
Keeps out o = (o.all_files ≡ out.all_files) × (o.base_dir ≡ out.base_dir)

with_current-Keeps : (f : Fields) (out : ActionData) → Keeps out (with_current f out)
unfolding with_current
with_current-Keeps f out = (ground arith, ground arith)

store_override-Keeps : (k : Text) (out : ActionData) → Ensures (Keeps out) (store_override k out)
unfolding store_override
store_override-Keeps k out =
    Ensures-after (Keeps out) (throw_if _ _) _
      (λ _. Ensures-after (Keeps out) (value_of out.obj_res) _ (λ v. (refl, refl)))

store-Keeps : (k : Text) (f : Fields) (out : ActionData) → Ensures (Keeps out) (store k f out)
unfolding store
store-Keeps k f out =
    Ensures-after (Keeps out) (value_of out.obj_res) _ (λ v. with_current-Keeps (set k v f) out)

on_value-Keeps : (out : ActionData) → Ensures (Keeps out) (on_value out)
unfolding on_value
on_value-Keeps out = Ensures-option (Keeps out) out.obj_res _ _ tt (λ v.
    Ensures-choice (Keeps out) (is_type (type_of v) k_value) (throw logic_error) (ok out) tt
      (refl, refl))

on_pair-Keeps : (out : ActionData) → Ensures (Keeps out) (on_pair out)
unfolding on_pair
on_pair-Keeps out = Ensures-list (Keeps out) out.keys _ _ tt (λ k keys.
    Ensures-after (Keeps out) (current out) _ (λ content.
      Ensures-after (Keeps out) (throw_if _ _) _ (λ _.
        Ensures-bind (Keeps out) (Keeps out) _ _
          (Ensures-choice (Keeps out) out.is_override _ _
            (store_override-Keeps (fmt_join (k ∷ keys)) out) (store-Keeps k content out))
          (λ o kept. kept))))

store_in_object-Keeps :
    (expected : ConfigType → Bool) (out : ActionData)
    → Ensures (Keeps out) (store_in_object expected out)
unfolding store_in_object
store_in_object-Keeps expected out = Ensures-after (Keeps out) (top out.objects) _ (λ x.
    Ensures-after (Keeps out) (throw_if _ _) _ (λ _.
      Ensures-after (Keeps out) (top out.keys) _ (λ y.
        Ensures-after (Keeps out) (throw_if _ _) _
          (λ _. Ensures-after (Keeps out) (value_of out.obj_res) _ (λ v. (refl, refl))))))

store_object-Keeps : (out : ActionData) → Ensures (Keeps out) (store_object out)
unfolding store_object
store_object-Keeps out = Ensures-after (Keeps out) (top out.objects) _ (λ x.
    Ensures-after (Keeps out) (current (record out { objects = x.1 })) _ (λ content.
      Ensures-after (Keeps out) (top out.keys) _ (λ y.
        Ensures-after (Keeps out) (throw_if _ _) _ (λ _.
          let kept = with_current-Keeps (set y.0 x.0 content) (record out { objects = x.1 }) in
          Ensures-list (Keeps out) x.1 _ _ kept (λ _ _. kept)))))

pop_key-Keeps : (out : ActionData) → Ensures (Keeps out) (pop_key out)
unfolding pop_key
pop_key-Keeps out = Ensures-after (Keeps out) (top out.keys) _ (λ x. (refl, refl))

Keeps-trans : (a b c : ActionData) → Keeps a b → Keeps b c → Keeps a c
Keeps-trans a b c (p, q) (r, s) = (r ∙ p, s ∙ q)

popped-Keeps : (out o : ActionData) → Keeps out o → Ensures (Keeps out) (pop_key o)
popped-Keeps out o kept =
    Ensures-map (Keeps o) (Keeps out) (pop_key o) (λ a done. Keeps-trans out o a kept done)
      (pop_key-Keeps o)

on_struct-Keeps : (out : ActionData) → Ensures (Keeps out) (on_struct out)
unfolding on_struct
on_struct-Keeps out =
    Ensures-bind (Keeps out) (Keeps out) (store_object out) pop_key (store_object-Keeps out)
      (λ o kept. popped-Keeps out o kept)

leave_proto-Keeps : (out : ActionData) → Keeps out (leave_proto out)
leave_proto-Keeps out = (ground arith, ground arith)

on_proto-Keeps : (out : ActionData) → Ensures (Keeps out) (on_proto out)
unfolding on_proto
on_proto-Keeps out =
    Ensures-bind (Keeps out) (Keeps out) (store_object out) _ (store_object-Keeps out) (λ o kept.
      popped-Keeps out (leave_proto o)
        (Keeps-trans out o (leave_proto o) kept (leave_proto-Keeps o)))

on_reference-Keeps : (out : ActionData) → Ensures (Keeps out) (on_reference out)
unfolding on_reference
on_reference-Keeps out =
    Ensures-bind (Keeps out) (Keeps out) (store_object out) _ (store_object-Keeps out) (λ o kept.
      Ensures-bind (Keeps out) (Keeps out) (pop_key o) _ (popped-Keeps out o kept)
        (λ a done. Ensures-after (Keeps out) (top a.flat_keys) _ (λ x. done)))

on_full_pair-Keeps : (out : ActionData) → Ensures (Keeps out) (on_full_pair out)
unfolding on_full_pair
on_full_pair-Keeps out = Ensures-list (Keeps out) out.flat_keys _ _ tt (λ k flat_keys.
    Ensures-list (Keeps out) out.objects _ _
      (Ensures-bind (Keeps out) (Keeps out) _ _
        (Ensures-choice (Keeps out) out.is_override _ _ (store_override-Keeps k out) (
          Ensures-after (Keeps out) (value_of out.obj_res) _
            (λ v. Ensures-after (Keeps out) (flat_map (split k b'.') v) _ (λ f. (refl, refl)))))
        (λ o kept. kept))
      (λ _ _. tt))

on_ref_vardef-Keeps : (out : ActionData) → Ensures (Keeps out) (on_ref_vardef out)
unfolding on_ref_vardef
on_ref_vardef-Keeps out = Ensures-after (Keeps out) (top out.objects) _ (λ x.
    Ensures-after (Keeps out) (throw_if _ _) _
      (λ _. Ensures-after (Keeps out) (value_of out.obj_res) _ (λ v. (refl, refl))))

on_flat_key-Keeps : (text : Text) (out : ActionData) → Ensures (Keeps out) (on_flat_key text out)
unfolding on_flat_key
on_flat_key-Keeps text out =
    Ensures-choice (Keeps out) (ltb (length out.keys) (length (split text b'.'))) (ok out)
      (ok (record out {
        keys = pop_keys (length (split text b'.')) out.keys;
        flat_keys = text ∷ out.flat_keys;
      }))
      (refl, refl) (refl, refl)

pending-Keeps :
    (f : IncludeData → IncludeData) (out : ActionData) → Ensures (Keeps out) (pending f out)
unfolding pending
pending-Keeps f out = Ensures-option (Keeps out) out.include_pending _ _ tt (λ i. (refl, refl))

on_list_element-Keeps : (out : ActionData) → Ensures (Keeps out) (on_list_element out)
unfolding on_list_element
on_list_element-Keeps out = Ensures-list (Keeps out) out.lists _ _ tt (λ l lists.
    Ensures-after (Keeps out) (value_of out.obj_res) _
      (λ v. Ensures-after (Keeps out) (add_element l.0 l.1 v) _ (λ m. (refl, refl))))

on_list_end-Keeps : (out : ActionData) → Ensures (Keeps out) (on_list_end out)
unfolding on_list_end
on_list_end-Keeps out = Ensures-list (Keeps out) out.lists _ _ tt (λ l lists. (refl, refl))

-- an object begins
opened-Keeps :
    {A : Type 0} (out : ActionData) (list : List A) (next : A × List A → Result ActionData)
    → ((x : A × List A) → Ensures (Keeps out) (next x))
    → Ensures (Keeps out) (top list >>= next)
opened-Keeps out list next step = Ensures-after (Keeps out) (top list) next step

module _ (library : Conversions) where
  pub act-Keeps : (r : Rule) (out : ActionData) → Ensures (Keeps out) (act library r out)
  unfolding act on_hex on_float on_integer on_filename on_optional on_once on_proto_pair
      on_ref_add_kvp on_parent_name on_struct_start on_proto_start on_reference_start
  act-Keeps (hex text) out = Ensures-after (Keeps out) (library.stoull text) _ (λ _. (refl, refl))
  act-Keeps (float text) out = Ensures-after (Keeps out) (library.stod text) _ (λ _. (refl, refl))
  act-Keeps (integer text) out = Ensures-after (Keeps out) (library.stoi text) _ (λ _. (refl, refl))
  act-Keeps (flat_key text) out = on_flat_key-Keeps text out
  act-Keeps (filename text) out = pending-Keeps _ out
  act-Keeps value_end out = on_value-Keeps out
  act-Keeps list_element out = on_list_element-Keeps out
  act-Keeps list_end out = on_list_end-Keeps out
  act-Keeps parent_name out = opened-Keeps out out.objects _ (λ x. (refl, refl))
  act-Keeps optional_mark out = pending-Keeps _ out
  act-Keeps once_mark out = pending-Keeps _ out
  act-Keeps pair out = on_pair-Keeps out
  act-Keeps full_pair out = on_full_pair-Keeps out
  act-Keeps proto_pair out =
      Ensures-bind (Keeps out) (Keeps out) (store_in_object of_proto out) _
        (store_in_object-Keeps of_proto out) (λ o kept. kept)
  act-Keeps ref_add_kvp out = store_in_object-Keeps (λ t. is_type t k_reference) out
  act-Keeps ref_vardef out = on_ref_vardef-Keeps out
  act-Keeps struct_start out = opened-Keeps out out.keys _ (λ x. (refl, refl))
  act-Keeps proto_start out = opened-Keeps out out.keys _ (λ x. (refl, refl))
  act-Keeps reference_start out =
      opened-Keeps out out.keys _ (λ x. opened-Keeps out out.flat_keys _ (λ y. (refl, refl)))
  act-Keeps struct_end out = on_struct-Keeps out
  act-Keeps proto_end out = on_proto-Keeps out
  act-Keeps reference_end out = on_reference-Keeps out
  act-Keeps r out = (refl, refl)
