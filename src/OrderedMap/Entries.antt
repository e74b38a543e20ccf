-- ===== src/OrderedMap/Entries.antt =====
-- The abstract view of an `ordered_map`: its entries in the order of iteration. Every operation
-- is the one of the same name on the list of entries.
use mathlib.Core.List.{lookup}
use flexi_config_reader.Common.{
  List, [], ◌∷◌, ◌++◌, none, some, true, false, not, ◌≡◌, refl, sym, ite, arith, ap, ◌∙◌, has,
  distinct, drop_first, if◌then◌else◌, Option-cases, inl, inr,
}
use flexi_config_reader.Assoc
use flexi_config_reader.Assoc.{get, get-set, get-insert, get-erase}
use flexi_config_reader.OrderedMap.{OrderedMap, assign, insert, erase, at}
use flexi_config_reader.OrderedMap.Invariant.{IsValid}

module _ {K V : Type 0} (dec : Discrete K) where
  -- the entries of the keys, in order; a key that the table lacks has none
  unfoldable pub collect : List K → List (K × V) → List (K × V)
  collect [] t = []
  collect (k ∷ ks) t = elim (get dec k t) [ none ↦ collect ks t | some v ↦ (k, v) ∷ collect ks t ]

  unfoldable pub entries : OrderedMap K V → List (K × V)
  unfolding collect
  entries m = collect m.keys m.table

  pub get-collect :
      (q : K) (ks : List K) (t : List (K × V))
      → get dec q (collect ks t) ≡ (if has dec q ks then get dec q t else none)
  unfolding collect has lookup
  get-collect q [] t = refl
  get-collect q (k ∷ ks) t = ground (arith, get-collect q ks t)

  collect-append :
      (ks : List K) (k : K) (v : V) (t : List (K × V))
      → get dec k t ≡ some v
      → collect (ks ++ k ∷ []) t ≡ collect ks t ++ (k, v) ∷ []
  unfolding collect
  collect-append [] k v t h = ground arith
  collect-append (j ∷ ks) k v t h = ground (arith, collect-append ks k v t h)

  -- a change of the table at a key that does not stand among the keys does not show
  collect_congr :
      (k : K) (ks : List K) (t u : List (K × V))
      → has dec k ks ≡ false
      → ((q : K) → get dec q u ≡ ite (dec q k) (get dec k u) (get dec q t))
      → collect ks u ≡ collect ks t
  unfolding collect has
  collect_congr k [] t u h e = refl
  collect_congr k (j ∷ ks) t u h e = ground (arith, collect_congr k ks t u, e j)

  collect-set_absent :
      (k : K) (v : V) (ks : List K) (t : List (K × V))
      → has dec k ks ≡ false
      → collect ks (Assoc.set dec k v t) ≡ collect ks t
  collect-set_absent k v ks t h =
      collect_congr k ks t _ h (λ q. ground (arith, get-set dec q k v t, get-set dec k k v t))

  collect-erase_absent :
      (k : K) (ks : List K) (t : List (K × V))
      → has dec k ks ≡ false
      → collect ks (Assoc.erase dec k t) ≡ collect ks t
  collect-erase_absent k ks t h =
      collect_congr k ks t _ h (λ q. ground (arith, get-erase dec q k t, get-erase dec k k t))

  collect-set :
      (k : K) (v : V) (ks : List K) (t : List (K × V))
      → distinct dec ks ≡ true
      → Assoc.contains dec k t ≡ true
      → has dec k ks ≡ true
      → collect ks (Assoc.set dec k v t) ≡ Assoc.set dec k v (collect ks t)
  unfolding collect has distinct Assoc.set
  collect-set k v [] t d c h = cc
  collect-set k v (j ∷ ks) t d c h =
      ground (arith, collect-set k v ks t, get-set dec j k v t, collect-set_absent k v ks t)

  pub erase_absent : (k : K) (m : List (K × V)) → get dec k m ≡ none → Assoc.erase dec k m ≡ m
  unfolding Assoc.erase lookup
  erase_absent k [] h = refl
  erase_absent k ((j, w) ∷ m) h = ground (arith, erase_absent k m)

  collect-erase :
      (k : K) (ks : List K) (t : List (K × V))
      → distinct dec ks ≡ true
      → collect (drop_first dec k ks) (Assoc.erase dec k t) ≡ Assoc.erase dec k (collect ks t)
  unfolding collect has distinct drop_first Assoc.erase
  collect-erase k [] t d = refl
  collect-erase k (j ∷ ks) t d = ground (
    arith,
    collect-erase k ks t,
    get-erase dec j k t,
    collect-erase_absent k ks t,
    erase_absent k (collect ks t),
    get-collect k ks t,
  )

  set_new :
      (k : K) (v : V) (m : List (K × V))
      → get dec k m ≡ none
      → Assoc.set dec k v m ≡ m ++ (k, v) ∷ []
  unfolding Assoc.set lookup
  set_new k v [] h = refl
  set_new k v ((j, w) ∷ m) h = ground (arith, set_new k v m)

  pub set-insert_new :
      (k : K) (v : V) (m : List (K × V))
      → get dec k m ≡ none
      → Assoc.insert dec k v m ≡ Assoc.set dec k v m
  unfolding Assoc.set Assoc.insert lookup
  set-insert_new k v [] h = refl
  set-insert_new k v ((j, w) ∷ m) h = ground (arith, set-insert_new k v m)

  insert_present :
      (k : K) (v w : V) (m : List (K × V)) → get dec k m ≡ some w → Assoc.insert dec k v m ≡ m
  unfolding Assoc.insert lookup
  insert_present k v w [] h = cc
  insert_present k v w ((j, x) ∷ m) h = ground (arith, insert_present k v w m)

  -- A lookup in the map is a lookup in its entries.
  pub at-entries : (m : OrderedMap K V) (k : K) → IsValid dec m → at dec k m ≡ get dec k (entries m)
  unfolding at entries
  at-entries m k h = ground (arith, get-collect k m.keys m.table, h.agree k)

  entries_grow :
      (k : K) (v : V) (m : OrderedMap K V)
      → IsValid dec m
      → get dec k m.table ≡ none
      → collect (m.keys ++ k ∷ []) (Assoc.set dec k v m.table) ≡ Assoc.set dec k v (entries m)
  unfolding entries
  entries_grow k v m h n =
      let absent : has dec k m.keys ≡ false = ground (arith, h.agree k) in
      let fresh : get dec k (collect m.keys m.table) ≡ none =
        ground (arith, get-collect k m.keys m.table) in
      collect-append m.keys k v (Assoc.set dec k v m.table)
        (ground (arith, get-set dec k k v m.table))
      ∙ ap (λ l. l ++ (k, v) ∷ []) (collect-set_absent k v m.keys m.table absent)
      ∙ sym (set_new k v _ fresh)

  -- `m[k] = v` replaces the value of `k` in its place, and puts a new key at the end.
  pub entries-assign :
      (m : OrderedMap K V) (k : K) (v : V)
      → IsValid dec m
      → entries (assign dec k v m) ≡ Assoc.set dec k v (entries m)
  unfolding assign entries
  entries-assign m k v h = elim (Option-cases (get dec k m.table)) [
    | inl absent ↦ rw (absent, assign) (entries_grow k v m h absent)
    | inr (w, present) ↦
        rw (present, assign)
          (collect-set k v m.keys m.table h.distinct_keys (rw present) (ground (arith, h.agree k)))
  ]

  -- `insert` leaves a key that is there alone, and puts a new one at the end. It says which it did.
  pub entries-insert :
      (m : OrderedMap K V) (k : K) (v : V)
      → IsValid dec m
      → (entries (insert dec k v m).0 ≡ Assoc.insert dec k v (entries m))
        × ((insert dec k v m).2 ≡ not (Assoc.contains dec k (entries m)))
  unfolding insert entries
  entries-insert m k v h = elim (Option-cases (get dec k m.table)) [
    | inl absent ↦
        let fresh : get dec k (collect m.keys m.table) ≡ none =
          ground (arith, get-collect k m.keys m.table) in
        (
          rw (absent, insert, set-insert_new k v m.table absent, set-insert_new k v _ fresh)
              (entries_grow k v m h absent),
          rw (absent, insert, fresh) refl,
        )
    | inr (w, present) ↦
        let old : get dec k (collect m.keys m.table) ≡ some w =
          ground (arith, get-collect k m.keys m.table, h.agree k) in
        (
          rw (present, insert) (sym (insert_present k v w (collect m.keys m.table) old)),
          rw (present, insert, old) refl,
        )
  ]

  -- `erase` by key removes the entry, keeps the order of the others, and counts what it removed.
  pub entries-erase :
      (m : OrderedMap K V) (k : K)
      → IsValid dec m
      → (entries (erase dec k m).0 ≡ Assoc.erase dec k (entries m))
        × ((erase dec k m).1 ≡ (if Assoc.contains dec k (entries m) then 1 else 0))
  unfolding erase entries
  entries-erase m k h = elim (Option-cases (get dec k m.table)) [
    | inl absent ↦
        let fresh : get dec k (collect m.keys m.table) ≡ none =
          ground (arith, get-collect k m.keys m.table) in
        (
          rw (absent, erase) (sym (erase_absent k (collect m.keys m.table) fresh)),
          rw (absent, erase, fresh) refl,
        )
    | inr (w, present) ↦
        let old : get dec k (collect m.keys m.table) ≡ some w =
          ground (arith, get-collect k m.keys m.table, h.agree k) in
        (
          rw (present, erase) (collect-erase k m.keys m.table h.distinct_keys),
          rw (present, erase, old) refl,
        )
  ]
