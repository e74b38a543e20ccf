-- ===== src/Merge/Leaves.antt =====
-- What a successful merge holds: every entry of either map, and nothing else.
use flexi_config_reader.Common.{
  Text, text_dec, List, [], ◌∷◌, Option, none, some, ◌≡◌, refl, arith, inl, inr, ◌⊎◌, Option-cases,
  ◌∙◌, ap,
}
use flexi_config_reader.Result.{Result, ok, throw, ◌>>=◌, ◌>>◌, >>=-eq-ok}
use flexi_config_reader.Types.{
  Config, config_struct, config_proto, config_reference, Fields, end, field, is_struct_like-data_of,
  data_of, with_data,
}
use flexi_config_reader.Types.Map.{at, insert_all, at-insert_all}
use flexi_config_reader.Merge.{check_common, merge_walk, merge_entry, merge_nested_maps}
use flexi_config_reader.Merge.Checks.{check_values_lem, check_common-agree}

-- the plain value at a path of keys; a struct-like node is no leaf
unfoldable pub leaf_at : List Text → Fields → Option Config
leaf_at [] f = none
leaf_at (k ∷ ks) f = elim (at k f) [
  | none ↦ none
  | some v ↦ elim (data_of v) [
    | some d ↦ leaf_at ks d
    | none ↦ elim ks [ [] ↦ some v | _ ∷ _ ↦ none ]
  ]
]

bind_twice {ℓ κ μ} :
    {A : Type ℓ} {B : Type κ} {C : Type μ} (m : Result A) (f : A → B) (g : B → C)
    → (m >>= λ a. ok (g (f a))) ≡ (m >>= (λ a. ok (f a)) >>= λ b. ok (g b))
bind_twice (ok a) f g = refl
bind_twice (throw e) f g = refl

-- an entry with content is merged content by content
merge_entry_lem :
    (v w : Config) (f g : Fields)
    → data_of v ≡ some f
    → data_of w ≡ some g
    → merge_entry v w ≡ (merge_nested_maps f g >>= λ d. ok (with_data d v))
unfolding merge_entry merge_nested_maps data_of with_data
merge_entry_lem (config_struct t n d x) w f g p q =
    let same : x ≡ f = ground arith in
    rw (q, merge_entry)
      (bind_twice (check_common x g >> merge_walk x g) _ _
        ∙ ap (λ y. merge_nested_maps y g >>= λ d'. ok (with_data d' (config_struct t n d x))) same)
merge_entry_lem (config_proto n d x) w f g p q =
    let same : x ≡ f = ground arith in
    rw (q, merge_entry)
      (bind_twice (check_common x g >> merge_walk x g) _ _
        ∙ ap (λ y. merge_nested_maps y g >>= λ d'. ok (with_data d' (config_proto n d x))) same)
merge_entry_lem (config_reference n pr d r x) w f g p q =
    let same : x ≡ f = ground arith in
    rw (q, merge_entry)
      (bind_twice (check_common x g >> merge_walk x g) _ _
        ∙ ap (λ y. merge_nested_maps y g >>= λ d'. ok (with_data d' (config_reference n pr d r x)))
            same)
merge_entry_lem v w f g p q = absurd (ground arith)

-- what becomes of an entry of the first map
merged : Config → Option Config → Result Config
merged v none = ok v
merged v (some w) = merge_entry v w

merge_walk_step :
    (j : Text) (v : Config) (f g : Fields)
    → merge_walk (field j v f) g
      ≡ (merged v (at j g) >>= λ v'. merge_walk f g >>= λ rest. ok (field j v' rest))
unfolding merge_walk merged
merge_walk_step j v f g = elim (Option-cases (at j g)) [
  | inl alone ↦ rw (alone, merge_walk) refl
  | inr (w, shared) ↦ rw (shared, merge_walk) refl
]

at-merge_walk :
    (k : Text) (f g h : Fields)
    → merge_walk f g ≡ ok h
    → ((at k f ≡ none) × (at k h ≡ none))
      ⊎ ((v : Config) × (v' : Config) × (at k f ≡ some v)
          × (merged v (at k g) ≡ ok v')
          × (at k h ≡ some v'))
unfolding merge_walk at
at-merge_walk k end g h e = inl (refl, ground arith)
at-merge_walk k (field j v f) g h e =
    let (v', first, later) = >>=-eq-ok (merged v (at j g)) _ (rw merge_walk_step at e) in
    let (rest, walked, out) = >>=-eq-ok (merge_walk f g) _ later in
    let shape : h ≡ field j v' rest = cc in
    elim (text_dec k j) [
      | yes p ↦ inr (v, v', ground arith, rw p first, ground arith)
      | no n ↦ elim (at-merge_walk k f g rest walked) [
        | inl (a, b) ↦ inl (ground arith, ground arith)
        | inr (x, x', a, b, c) ↦ inr (x, x', ground arith, b, ground arith)
      ]
    ]

merge-eq-ok :
    (f g h : Fields)
    → merge_nested_maps f g ≡ ok h
    → (check_common f g ≡ ok tt)
      × ((walked : Fields) × (merge_walk f g ≡ ok walked) × (h ≡ insert_all walked g))
unfolding merge_nested_maps
merge-eq-ok f g h e =
    let (walked, both, out) = >>=-eq-ok (check_common f g >> merge_walk f g) _ e in
    let (u, checked, walk) = >>=-eq-ok (check_common f g) _ both in (checked, (walked, walk, cc))

-- the content of both entries
both_data :
    (f g : Fields) (k : Text) (v w : Config)
    → check_common f g ≡ ok tt
    → at k f ≡ some v
    → at k g ≡ some w
    → (a : Fields) × (b : Fields) × (data_of v ≡ some a) × (data_of w ≡ some b)
both_data f g k v w e p q = elim (Option-cases (data_of v)) [
  | inl n ↦ absurd (
      ground
        (arith, check_common-agree f g k v w e p q, check_values_lem v w, is_struct_like-data_of v))
  | inr (a, x) ↦ elim (Option-cases (data_of w)) [
    | inl n ↦ absurd (
        ground (
          arith,
          check_common-agree f g k v w e p q,
          check_values_lem v w,
          is_struct_like-data_of w,
        ))
    | inr (b, y) ↦ (a, b, x, y)
  ]
]

at_shared :
    (k : Text) (f g h : Fields) (v v' : Config)
    → check_common f g ≡ ok tt
    → at k f ≡ some v
    → merged v (at k g) ≡ ok v'
    → at k h ≡ some v'
    → ((at k g ≡ none) × (at k h ≡ some v))
      ⊎ ((w : Config) × (a : Fields) × (b : Fields) × (d : Fields) × (at k g ≡ some w)
          × (data_of v ≡ some a)
          × (data_of w ≡ some b)
          × (merge_nested_maps a b ≡ ok d)
          × (at k h ≡ some (with_data d v)))
unfolding merged
at_shared k f g h v v' checked p m stored = elim (Option-cases (at k g)) [
  | inl alone ↦ let kept : ok v ≡ ok v' = rw alone at m in inl (alone, ground arith)
  | inr (w, shared) ↦
      let (a, b, x, y) = both_data f g k v w checked p shared in
      let made : merge_entry v w ≡ ok v' = rw shared at m in
      let (d, inner, out) =
        >>=-eq-ok (merge_nested_maps a b) _ (rw (merge_entry_lem v w a b x y) at made) in
      inr (w, a, b, d, shared, x, y, inner, cc)
]

-- the entry of a key in a merged map
pub at-merge_nested_maps :
    (k : Text) (f g h : Fields)
    → merge_nested_maps f g ≡ ok h
    → ((at k f ≡ none) × (at k h ≡ at k g))
      ⊎ ((v : Config) × (at k f ≡ some v)
          × (((at k g ≡ none) × (at k h ≡ some v))
              ⊎ ((w : Config) × (a : Fields) × (b : Fields) × (d : Fields) × (at k g ≡ some w)
                  × (data_of v ≡ some a)
                  × (data_of w ≡ some b)
                  × (merge_nested_maps a b ≡ ok d)
                  × (at k h ≡ some (with_data d v)))))
at-merge_nested_maps k f g h e =
    let (checked, (walked, walk, out)) = merge-eq-ok f g h e in
    elim (at-merge_walk k f g walked walk) [
      | inl (a, b) ↦ inl (a, rw out (ground (arith, at-insert_all k walked g)))
      | inr (v, v', a, m, b) ↦
          let stored : at k h ≡ some v' = rw out (ground (arith, at-insert_all k walked g)) in
          inr (v, a, at_shared k f g h v v' checked a m stored)
    ]

data_of-with_data :
    (d a : Fields) (v : Config) → data_of v ≡ some a → data_of (with_data d v) ≡ some d
unfolding data_of with_data
data_of-with_data d a (config_struct t n e f) h = refl
data_of-with_data d a (config_proto n e f) h = refl
data_of-with_data d a (config_reference n p e r f) h = refl
data_of-with_data d a v h = absurd (ground arith)

-- A merge that succeeds holds, at every path, the value of the first map, or else that of the second:
-- no value of either is lost, and none is made up.
pub leaf_at-merge_nested_maps :
    (path : List Text) (f g h : Fields)
    → merge_nested_maps f g ≡ ok h
    → leaf_at path h ≡ elim (leaf_at path f) [ none ↦ leaf_at path g | some v ↦ some v ]
unfolding leaf_at
leaf_at-merge_nested_maps [] f g h e = refl
leaf_at-merge_nested_maps (k ∷ ks) f g h e = elim (at-merge_nested_maps k f g h e) [
  | inl (absent, same) ↦ rw (absent, same, leaf_at) refl
  | inr (v, first, inl (alone, kept)) ↦ ground arith
  | inr (v, first, inr (w, a, b, d, shared, x, y, inner, out)) ↦
      ground (arith, data_of-with_data d a v x, leaf_at-merge_nested_maps ks a b d inner)
]
