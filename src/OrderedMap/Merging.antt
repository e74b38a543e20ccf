-- ===== src/OrderedMap/Merging.antt =====
-- `ordered_map::merge`: the entries whose keys the target lacks move, and the others stay behind.
use flexi_config_reader.Common.{
  List, [], ◌∷◌, none, some, true, false, not, ◌&&◌, ◌≡◌, refl, ite, arith, has, distinct,
  drop_first, has-drop_first, distinct-drop_first, if◌then◌else◌, Option-cases, inl, inr,
}
use flexi_config_reader.Assoc
use flexi_config_reader.Assoc.{get, get-insert, get-erase}
use flexi_config_reader.OrderedMap.{
  OrderedMap, at, insert, insert_node, merge, merge_loop, drop_each,
}
use flexi_config_reader.OrderedMap.Invariant.{IsValid, insert-IsValid}

module _ {K : Type 0} (dec : Discrete K) where
  distinct-drop_each :
      (ks l : List K) → distinct dec l ≡ true → distinct dec (drop_each dec ks l) ≡ true
  unfolding drop_each
  distinct-drop_each [] l h = h
  distinct-drop_each (k ∷ ks) l h =
      distinct-drop_each ks (drop_first dec k l) (distinct-drop_first dec k l h)

  has-drop_each :
      (q : K) (ks l : List K)
      → distinct dec l ≡ true
      → has dec q (drop_each dec ks l) ≡ (if has dec q ks then false else has dec q l)
  unfolding drop_each has
  has-drop_each q [] l h = refl
  has-drop_each q (k ∷ ks) l h = ground (
    arith,
    has-drop_each q ks (drop_first dec k l) (distinct-drop_first dec k l h),
    has-drop_first dec q k l h,
  )

module _ {K V : Type 0} (dec : Discrete K) where
  get-insert_node :
      (q k : K) (v : V) (t : OrderedMap K V)
      → get dec q (insert_node dec (some (k, v)) t).0.table
        ≡ (elim (get dec q t.table) [ none ↦ ite (dec q k) (some v) none | some w ↦ some w ])
  unfolding insert_node
  get-insert_node q k v t = ground (arith, get-insert dec q k v t.table)

  insert_node-IsValid :
      (k : K) (v : V) (t : OrderedMap K V)
      → IsValid dec t
      → IsValid dec (insert_node dec (some (k, v)) t).0
  unfolding insert_node insert
  insert_node-IsValid k v t h = ground (arith, insert-IsValid dec k v t h)

  -- what the loop leaves in the target and in the source's table, and which keys it moved
  merge_loop_lem :
      (q : K) (ks : List K) (t : OrderedMap K V) (s : List (K × V))
      → (get dec q (merge_loop dec ks t s).0.table ≡ (elim (get dec q t.table) [
        | none ↦ if has dec q ks then get dec q s else none
        | some w ↦ some w
      ]))
        × (get dec q (merge_loop dec ks t s).1
            ≡ (if has dec q ks && not (Assoc.contains dec q t.table) then none else get dec q s))
        × (has dec q (merge_loop dec ks t s).2
            ≡ (has dec q ks && not (Assoc.contains dec q t.table) && Assoc.contains dec q s))
  unfolding merge_loop has
  merge_loop_lem q [] t s = (ground arith, ground arith, ground arith)
  merge_loop_lem q (k ∷ ks) t s = elim (Option-cases (get dec k t.table)) [
    | inr (w, stays) ↦ (
      ground (arith, merge_loop_lem q ks t s),
      ground (arith, merge_loop_lem q ks t s),
      ground (arith, merge_loop_lem q ks t s),
    )
    | inl moves ↦ elim (Option-cases (get dec k s)) [
      | inl gone ↦ (
        ground (arith, merge_loop_lem q ks t s),
        ground (arith, merge_loop_lem q ks t s),
        ground (arith, merge_loop_lem q ks t s),
      )
      | inr (v, there) ↦
          let ih = merge_loop_lem q ks (insert_node dec (some (k, v)) t).0 (Assoc.erase dec k s) in
          let grown = get-insert_node q k v t in
          let shrunk = get-erase dec q k s in (ground arith, ground arith, ground arith)
    ]
  ]

  merge_loop-IsValid :
      (ks : List K) (t : OrderedMap K V) (s : List (K × V))
      → IsValid dec t
      → IsValid dec (merge_loop dec ks t s).0
  unfolding merge_loop
  merge_loop-IsValid [] t s h = h
  merge_loop-IsValid (k ∷ ks) t s h = elim (Option-cases (get dec k t.table)) [
    | inr (w, stays) ↦ rw (stays, merge_loop) (merge_loop-IsValid ks t s h)
    | inl moves ↦ elim (Option-cases (get dec k s)) [
      | inl gone ↦ rw (moves, gone, merge_loop) (merge_loop-IsValid ks t s h)
      | inr (v, there) ↦
          rw (moves, there, merge_loop)
            (merge_loop-IsValid ks (insert_node dec (some (k, v)) t).0 (Assoc.erase dec k s)
              (insert_node-IsValid k v t h))
    ]
  ]

  -- After `target.merge(source)` both maps are well formed. The target reads its own value of a key
  -- first, and the source's where it had none; the source keeps exactly the entries whose keys the
  -- target had before.
  pub merge_lem :
      (this source : OrderedMap K V)
      → IsValid dec this
      → IsValid dec source
      → IsValid dec (merge dec this source).0
        × IsValid dec (merge dec this source).1
        × ((q : K)
            → (at dec q (merge dec this source).0
                ≡ (elim (at dec q this) [ none ↦ at dec q source | some w ↦ some w ]))
              × (at dec q (merge dec this source).1
                  ≡ (elim (at dec q this) [ none ↦ none | some _ ↦ at dec q source ])))
  unfolding merge at
  merge_lem this source h g =
      let moved = (merge_loop dec source.keys this source.table).2 in
      let loop = λ (q : K). merge_loop_lem q source.keys this source.table in
      (
        merge_loop-IsValid source.keys this source.table h,
        record {
          distinct_keys = distinct-drop_each dec moved source.keys g.distinct_keys;
          agree = λ q.
              ground
                (arith, loop q, has-drop_each dec q moved source.keys g.distinct_keys, g.agree q);
        },
        λ q. (ground (arith, loop q, g.agree q), ground (arith, loop q, g.agree q)),
      )
