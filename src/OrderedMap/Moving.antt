-- ===== src/OrderedMap/Moving.antt =====
-- The members of `ordered_map` that construct or move entries: `emplace`, `emplace_hint`, the assignment
-- of a list, and the `merge` of a map that is about to go.
use mathlib.Core.List.{map}
use flexi_config_reader.Common.{
  ℕ, List, [], ◌∷◌, ◌++◌, none, some, Bool, true, false, ◌≡◌, refl, arith, has, distinct,
  drop_first, distinct-drop_first, if◌then◌else◌, sym, ◌∙◌, ap,
}
use flexi_config_reader.Assoc
use flexi_config_reader.Assoc.{get}
use flexi_config_reader.OrderedMap.{OrderedMap, fill, get_index, find, merge, merge_loop, drop_each}
use flexi_config_reader.OrderedMap.Invariant.{IsValid}

module _ {K : Type 0} (dec : Discrete K) where
  -- the keys that are not in the set
  unfoldable pub keep_keys : List K → List K → List K
  unfolding has
  keep_keys removed [] = []
  keep_keys removed (k ∷ ks) =
      let rest = keep_keys removed ks in if has dec k removed then rest else k ∷ rest

  keep_keys-nil : (l : List K) → keep_keys [] l ≡ l
  unfolding keep_keys has
  keep_keys-nil [] = refl
  keep_keys-nil (x ∷ l) = ap (◌∷◌ x) (keep_keys-nil l)

  keep_keys-absent :
      (k : K) (ks l : List K) → has dec k l ≡ false → keep_keys (k ∷ ks) l ≡ keep_keys ks l
  unfolding keep_keys
  keep_keys-absent k ks [] h = refl
  keep_keys-absent k ks (x ∷ l) h = elim (dec k x) [
    | yes p ↦ absurd (ground (arith, h, p))
    | no n ↦ elim (dec x k) [
      | yes p ↦ absurd (n (sym p))
      | no m ↦ ground (arith, m, keep_keys-absent k ks l (ground (arith, h, n)))
    ]
  ]

  keep_keys-drop_first :
      (k : K) (ks l : List K)
      → distinct dec l ≡ true
      → keep_keys (k ∷ ks) l ≡ keep_keys ks (drop_first dec k l)
  unfolding keep_keys distinct drop_first
  keep_keys-drop_first k ks [] h = refl
  keep_keys-drop_first k ks (x ∷ l) h = elim (dec k x) [
    | yes p ↦
        let absent : has dec k l ≡ false = ground (arith, h, p) in
        ground (arith, p, keep_keys-absent k ks l absent)
    | no n ↦ elim (dec x k) [
      | yes p ↦ absurd (n (sym p))
      | no m ↦ ground (arith, n, m, keep_keys-drop_first k ks l (ground (arith, h)))
    ]
  ]

  -- erasing one key after the other is keeping the others, where no key stands twice
  drop_each-keep_keys :
      (ks l : List K) → distinct dec l ≡ true → drop_each dec ks l ≡ keep_keys ks l
  unfolding drop_each
  drop_each-keep_keys [] l h = sym (keep_keys-nil l)
  drop_each-keep_keys (k ∷ ks) l h =
      drop_each-keep_keys ks (drop_first dec k l) (distinct-drop_first dec k l h)
      ∙ sym (keep_keys-drop_first k ks l h)

  keys-drop_each :
      (moved l : List K)
      → distinct dec l ≡ true
      → elim moved as (λ _. List K) [ [] ↦ l | k ∷ ks ↦ keep_keys (k ∷ ks) l ]
        ≡ drop_each dec moved l
  unfolding drop_each
  keys-drop_each [] l h = refl
  keys-drop_each (k ∷ ks) l h = sym (drop_each-keep_keys (k ∷ ks) l h)

module _ {K V : Type 0} (dec : Discrete K) where
  -- for arguments that make this key and this value
  unfoldable pub emplace : K → V → OrderedMap K V → OrderedMap K V × ℕ × Bool
  unfolding get_index
  emplace k v m =
      if Assoc.contains dec k m.table
      then (m, find dec k m, false)
      else (let m' : OrderedMap K V = record {
        table = Assoc.insert dec k v m.table;
        keys = m.keys ++ k ∷ [];
      } in
          (m', find dec k m', true))

  -- the hint is not used
  unfoldable pub emplace_hint : ℕ → K → V → OrderedMap K V → OrderedMap K V × ℕ
  unfolding get_index
  emplace_hint hint k v m = elim (get dec k m.table) [
    | some w ↦ (m, find dec k m)
    | none ↦
        let m' : OrderedMap K V = record {
          table = Assoc.insert dec k v m.table;
          keys = m.keys ++ k ∷ [];
        } in
        (m', find dec k m')
  ]

  -- `m = { … }`
  unfoldable pub assign_list : List (K × V) → OrderedMap K V → OrderedMap K V
  unfolding fill
  assign_list xs m = record { table = fill dec [] xs; keys = map (λ e. e.0) xs }

  -- `merge(ordered_map&&)`, of another map: both maps change
  unfoldable pub merge_moved : OrderedMap K V → OrderedMap K V → OrderedMap K V × OrderedMap K V
  unfolding merge_loop keep_keys
  merge_moved this source =
      let (t, s, moved) = merge_loop dec source.keys this source.table in
      (
        t,
        record {
          table = s;
          keys = elim moved [ [] ↦ source.keys | k ∷ ks ↦ keep_keys dec (k ∷ ks) source.keys ];
        },
      )

  -- Merging a map that is about to go and merging one that stays make the same two maps, though the one
  -- filters the source's keys by a set and the other erases them one by one, where the source is well
  -- formed.
  pub merge_moved-merge :
      (this source : OrderedMap K V)
      → IsValid dec source
      → merge_moved this source ≡ merge dec this source
  unfolding merge_moved merge
  merge_moved-merge this source h =
      let (t, s, moved) = merge_loop dec source.keys this source.table in
      ap {A = List K} (λ ks. (t, record { table = s; keys = ks }))
        (keys-drop_each dec moved source.keys h.distinct_keys)
