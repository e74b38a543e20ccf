-- ===== src/Merge/Several.antt =====
-- `mergeNested` of all the maps of a file.
use flexi_config_reader.Common.{
  Text, List, [], ◌∷◌, Option, none, some, ◌≡◌, refl, arith, ◌∙◌, ap, sym,
}
use flexi_config_reader.Result.{ok, >>=-eq-ok}
use flexi_config_reader.Types.Map.{at}
use flexi_config_reader.Types.{Config, Fields, end}
use flexi_config_reader.Merge.{merge_nested_maps, merge_rest, merge_nested}
use flexi_config_reader.Merge.Leaves.{leaf_at, leaf_at-merge_nested_maps}

-- the first choice, if there is one
abbrev or_else : Option Config → Option Config → Option Config
or_else none b = b
or_else (some v) b = some v

or_else_assoc : (a b c : Option Config) → or_else (or_else a b) c ≡ or_else a (or_else b c)
or_else_assoc none b c = refl
or_else_assoc (some v) b c = refl

or_else-none : (a : Option Config) → or_else a none ≡ a
or_else-none none = refl
or_else-none (some v) = refl

or_else_lem :
    (a b : Option Config)
    → elim a as (λ _. Option Config) [ none ↦ b | some v ↦ some v ] ≡ or_else a b
or_else_lem none b = refl
or_else_lem (some v) b = refl

leaf_at-end : (path : List Text) → leaf_at path end ≡ none
unfolding leaf_at at
leaf_at-end [] = refl
leaf_at-end (k ∷ ks) = refl

-- the leaf of the first map that has one there
unfoldable pub first_leaf : List Text → List Fields → Option Config
unfolding leaf_at
first_leaf path [] = none
first_leaf path (f ∷ fs) = or_else (leaf_at path f) (first_leaf path fs)

leaf_at-merge_rest :
    (path : List Text) (squashed : Fields) (fs : List Fields) (h : Fields)
    → merge_rest squashed fs ≡ ok h
    → leaf_at path h ≡ or_else (leaf_at path squashed) (first_leaf path fs)
unfolding merge_rest first_leaf
leaf_at-merge_rest path squashed [] h e =
    let same : squashed ≡ h = ground arith in
    rw (← same) (sym (or_else-none (leaf_at path squashed)))
leaf_at-merge_rest path squashed (f ∷ fs) h e =
    let (s, merged, rest) = >>=-eq-ok (merge_nested_maps squashed f) _ e in
    leaf_at-merge_rest path s fs h rest
    ∙ ap (λ a. or_else a (first_leaf path fs))
        (leaf_at-merge_nested_maps path squashed f s merged
          ∙ or_else_lem (leaf_at path squashed) (leaf_at path f))
    ∙ or_else_assoc (leaf_at path squashed) (leaf_at path f) (first_leaf path fs)

-- If `mergeNested` of the maps succeeds, the result has at every path of keys the value that the first
-- map with a value there has, and no value where none has one.
pub leaf_at-merge_nested :
    (path : List Text) (fs : List Fields) (h : Fields)
    → merge_nested fs ≡ ok h
    → leaf_at path h ≡ first_leaf path fs
unfolding merge_nested first_leaf
leaf_at-merge_nested path [] h e =
    let same : end ≡ h = ground arith in rw (← same) (leaf_at-end path)
leaf_at-merge_nested path (f ∷ fs) h e = leaf_at-merge_rest path f fs h e
