-- ===== src/Actions/Rules/Blocks.antt =====
-- A document of pairs without `[override]` and of nested structs: the rules that the grammar applies to read it, and the maps
-- that the actions build.
use flexi_config_reader.Common.{
  ℕ, suc, Text, List, [], ◌∷◌, none, false, ◌≡◌, refl, sym, ◌∙◌, inl, inr, Option-cases, pos,
}
use flexi_config_reader.Result.{
  Result, ok, ◌>>=◌, ◌>>◌, throw_if, duplicate_key, bind_assoc, bind_ext,
}
use flexi_config_reader.Types.{Config, config_struct, of_struct, Fields, end}
use flexi_config_reader.Types.Map.{at, contains, set}
use flexi_config_reader.Actions.{ActionData, initial}
use flexi_config_reader.Actions.Values.{Conversions, on_close}
use flexi_config_reader.Actions.Pairs.{on_pair}
use flexi_config_reader.Actions.Objects.{on_struct}
use flexi_config_reader.Actions.Rules.{
  Rule, key, pair, struct_start, struct_end, close_bracket, act, act_all,
}
use flexi_config_reader.Actions.Rules.Values.{
  Value, value_rules, node, with_value, act_all-value_rules,
}

-- the content of a struct, or of the top level
pub data Entries : Type 0 where
  done : Entries
  -- `key = value`
  assigned : Text → Value → Entries → Entries
  -- `struct key { … }`
  block : Text → Entries → Entries → Entries

-- the rules of the entries, in front of those that follow
unfoldable pub entries_rules : Entries → List Rule → List Rule
unfolding value_rules
entries_rules done rest = rest
entries_rules (assigned k v es) rest = key k ∷ value_rules v (pair ∷ entries_rules es rest)
entries_rules (block k inner es) rest =
    key k ∷ struct_start ∷ entries_rules inner (close_bracket ∷ struct_end ∷ entries_rules es rest)

-- a new key
unfoldable pub add : Text → Config → Fields → Result Fields
unfolding set
add k v f = throw_if (contains k f) duplicate_key >> ok (set k v f)

-- The map with the entries added, in a struct of this depth. Each key must be new.
unfoldable pub content : Conversions → ℕ → Entries → Fields → Result Fields
unfolding add node
content library depth done f = ok f
content library depth (assigned k v es) f =
    node library v >>= λ c. add k c f >>= λ f'. content library depth es f'
content library depth (block k inner es) f = content library (suc depth) inner end >>= λ g.
    add k (config_struct of_struct k depth g) f >>= λ f'. content library depth es f'

-- The maps of the results, from the last one: each struct at the top level ends one.
unfoldable pub maps : Conversions → Entries → Fields → List Fields → Result (List Fields)
unfolding add node content
maps library done f fs = ok (f ∷ fs)
maps library (assigned k v es) f fs =
    node library v >>= λ c. add k c f >>= λ f'. maps library es f' fs
maps library (block k inner es) f fs = content library 1 inner end >>= λ g.
    add k (config_struct of_struct k 0 g) f >>= λ f'. maps library es end (f' ∷ fs)

module _ (library : Conversions) where
  -- the state in a struct of depth `depth - 1`, between two entries
  abbrev inside : ℕ → Text → ℕ → Fields → List Config → ActionData → ActionData
  inside depth name d f objects out = record out {
    depth = pos depth;
    objects = config_struct of_struct name d f ∷ objects;
    is_override = false;
    in_proto = false;
    obj_res = none;
    value_lookups = end;
  }

  pair_lem :
      (k : Text) (c : Config) (rest : List Rule) (depth : ℕ) (name : Text) (d : ℕ) (f : Fields)
      (objects : List Config) (out : ActionData)
      → act_all library
          (pair ∷ rest)
          (with_value c (record (inside depth name d f objects out) { keys = k ∷ out.keys }))
        ≡ (add k c f >>= λ f'. act_all library rest (inside depth name d f' objects out))
  unfolding act_all act on_pair add
  pair_lem k c rest depth name d f objects out = elim (Option-cases (at k f)) [
    | inl new ↦ rw (new, act_all, act, on_pair, add) refl
    | inr (v, old) ↦ rw (old, act_all, act, on_pair, add) refl
  ]

  struct_end_lem :
      (k : Text) (g : Fields) (rest : List Rule) (depth : ℕ) (name : Text) (d : ℕ) (f : Fields)
      (objects : List Config) (out : ActionData)
      → act_all library (close_bracket ∷ struct_end ∷ rest) (
          inside
            (suc depth)
            k
            depth
            g
            (config_struct of_struct name d f ∷ objects)
            (record out { keys = k ∷ out.keys }))
        ≡ (add k (config_struct of_struct k depth g) f >>= λ f'.
            act_all library rest (inside depth name d f' objects out))
  unfolding act_all act on_close on_struct add
  struct_end_lem k g rest depth name d f objects out = elim (Option-cases (at k f)) [
    | inl new ↦ rw (new, act_all, act, on_struct, add) refl
    | inr (v, old) ↦ rw (old, act_all, act, on_struct, add) refl
  ]

  -- the rules of the entries of a struct add them to its map
  act_all-inside :
      (es : Entries) (rest : List Rule) (depth : ℕ) (name : Text) (d : ℕ) (f : Fields)
      (objects : List Config) (out : ActionData)
      → act_all library (entries_rules es rest) (inside depth name d f objects out) ≡ (
          content library depth es f >>= λ f'.
          act_all library rest (inside depth name d f' objects out))
  unfolding act_all act entries_rules content
  act_all-inside done rest depth name d f objects out = refl
  act_all-inside (assigned k v es) rest depth name d f objects out =
      let final : Fields → Result ActionData =
        λ f'. act_all library rest (inside depth name d f' objects out) in
      act_all-value_rules library v (pair ∷ entries_rules es rest)
        (record (inside depth name d f objects out) { keys = k ∷ out.keys })
      ∙ bind_ext (node library v) _ _ (λ c.
        pair_lem k c (entries_rules es rest) depth name d f objects out
        ∙ bind_ext (add k c f) _ _ (λ f'. act_all-inside es rest depth name d f' objects out)
        ∙ sym (bind_assoc (add k c f) (λ f'. content library depth es f') final))
      ∙ sym
          (bind_assoc (node library v) (λ c. add k c f >>= λ f'. content library depth es f') final)
  act_all-inside (block k inner es) rest depth name d f objects out =
      let final : Fields → Result ActionData =
        λ f'. act_all library rest (inside depth name d f' objects out) in
      let made : Fields → Config = λ g. config_struct of_struct k depth g in
      act_all-inside inner (close_bracket ∷ struct_end ∷ entries_rules es rest) (suc depth) k depth
        end (config_struct of_struct name d f ∷ objects) (record out { keys = k ∷ out.keys })
      ∙ bind_ext (content library (suc depth) inner end) _ _ (λ g.
        struct_end_lem k g (entries_rules es rest) depth name d f objects out
        ∙ bind_ext (add k (made g) f) _ _ (λ f'. act_all-inside es rest depth name d f' objects out)
        ∙ sym (bind_assoc (add k (made g) f) (λ f'. content library depth es f') final))
      ∙ sym (
          bind_assoc (content library (suc depth) inner end)
            (λ g. add k (made g) f >>= λ f'. content library depth es f') final)

  abbrev outside : Fields → List Fields → ActionData → ActionData
  outside f fs out = record out {
    depth = pos 0;
    cfg_res = f ∷ fs;
    objects = [];
    is_override = false;
    in_proto = false;
    obj_res = none;
    value_lookups = end;
  }

  pair_top :
      (k : Text) (c : Config) (rest : List Rule) (f : Fields) (fs : List Fields) (out : ActionData)
      → act_all library
          (pair ∷ rest)
          (with_value c (record (outside f fs out) { keys = k ∷ out.keys }))
        ≡ (add k c f >>= λ f'. act_all library rest (outside f' fs out))
  unfolding act_all act on_pair add
  pair_top k c rest f fs out = elim (Option-cases (at k f)) [
    | inl new ↦ rw (new, act_all, act, on_pair, add) refl
    | inr (v, old) ↦ rw (old, act_all, act, on_pair, add) refl
  ]

  struct_end_top :
      (k : Text) (g : Fields) (rest : List Rule) (f : Fields) (fs : List Fields) (out : ActionData)
      → act_all library
          (close_bracket ∷ struct_end ∷ rest)
          (inside 1 k 0 g [] (record (outside f fs out) { keys = k ∷ out.keys }))
        ≡ (add k (config_struct of_struct k 0 g) f >>= λ f'.
            act_all library rest (outside end (f' ∷ fs) out))
  unfolding act_all act on_close on_struct add
  struct_end_top k g rest f fs out = elim (Option-cases (at k f)) [
    | inl new ↦ rw (new, act_all, act, on_struct, add) refl
    | inr (v, old) ↦ rw (old, act_all, act, on_struct, add) refl
  ]

  act_all-outside :
      (es : Entries) (rest : List Rule) (f : Fields) (fs : List Fields) (out : ActionData)
      → act_all library (entries_rules es rest) (outside f fs out) ≡ (
          maps library es f fs >>= λ gs.
          act_all library rest (record (outside f fs out) { cfg_res = gs }))
  unfolding act_all act entries_rules maps
  act_all-outside done rest f fs out = refl
  act_all-outside (assigned k v es) rest f fs out =
      let final : List Fields → Result ActionData =
        λ gs. act_all library rest (record (outside f fs out) { cfg_res = gs }) in
      act_all-value_rules library v (pair ∷ entries_rules es rest)
        (record (outside f fs out) { keys = k ∷ out.keys })
      ∙ bind_ext (node library v) _ _ (λ c.
        pair_top k c (entries_rules es rest) f fs out
        ∙ bind_ext (add k c f) _ _ (λ f'. act_all-outside es rest f' fs out)
        ∙ sym (bind_assoc (add k c f) (λ f'. maps library es f' fs) final))
      ∙ sym (bind_assoc (node library v) (λ c. add k c f >>= λ f'. maps library es f' fs) final)
  act_all-outside (block k inner es) rest f fs out =
      let final : List Fields → Result ActionData =
        λ gs. act_all library rest (record (outside f fs out) { cfg_res = gs }) in
      let made : Fields → Config = λ g. config_struct of_struct k 0 g in
      act_all-inside inner (close_bracket ∷ struct_end ∷ entries_rules es rest) 1 k 0 end []
        (record (outside f fs out) { keys = k ∷ out.keys })
      ∙ bind_ext (content library 1 inner end) _ _ (λ g.
        struct_end_top k g (entries_rules es rest) f fs out
        ∙ bind_ext (add k (made g) f) _ _ (λ f'. act_all-outside es rest end (f' ∷ fs) out)
        ∙ sym (bind_assoc (add k (made g) f) (λ f'. maps library es end (f' ∷ fs)) final))
      ∙ sym (
          bind_assoc (content library 1 inner end)
            (λ g. add k (made g) f >>= λ f'. maps library es end (f' ∷ fs)) final)

  -- A document of pairs and structs, whose values are strings, truth values, numbers, lists, and
  -- expressions without lookups and variables: its actions, from the state that the parser starts with,
  -- end with the maps that the document denotes as the results and the rest of the state as it was. They
  -- throw what the document does: what a conversion throws for a number, also for one in an expression,
  -- `InvalidTypeException` for a list whose elements clash, and `DuplicateKeyException` for a key that is
  -- twice in a struct or in a map of the top level.
  pub act_all-entries_rules :
      (es : Entries) (base : Text)
      → act_all library (entries_rules es []) (initial base)
        ≡ (maps library es end [] >>= λ fs. ok (record (initial base) { cfg_res = fs }))
  unfolding act_all
  act_all-entries_rules es base = act_all-outside es [] end [] (initial base)
