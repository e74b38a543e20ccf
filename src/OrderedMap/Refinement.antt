-- ===== src/OrderedMap/Refinement.antt =====
-- `ordered_map` implements the abstract ordered list of entries, in any sequence of calls.
use flexi_config_reader.Common.{
  ℕ, none, some, List, [], ◌∷◌, false, ◌≡◌, refl, arith, ap, ◌∙◌, has, drop_first,
}
use flexi_config_reader.Assoc
use flexi_config_reader.Assoc.{get}
use flexi_config_reader.OrderedMap.{
  OrderedMap, clear, index, assign, Node, insert, insert_or_assign, try_emplace, erase, extract,
  insert_range, insert_node,
}
use flexi_config_reader.OrderedMap.Invariant.{
  IsValid, new-IsValid, assign-IsValid, insert-IsValid, insert_or_assign-IsValid, erase-IsValid,
  extract-IsValid,
}
use flexi_config_reader.OrderedMap.Moving.{emplace, emplace_hint}
use flexi_config_reader.OrderedMap.Entries.{
  collect, entries, erase_absent, set-insert_new, entries-assign, entries-insert, entries-erase,
}

-- A call that changes the map: in their order `m[k] = v`, `insert`, `insert_or_assign`, `try_emplace`,
-- `emplace`, `emplace_hint`, `insert` of a range and of a node, `operator[]`, `erase` of a key, `extract`
-- and `clear`.
pub data Change (K V : Type 0) : Type 0 where
  assigned : K → V → Change K V
  inserted : K → V → Change K V
  inserted_or_assigned : K → V → Change K V
  emplaced : K → V → Change K V
  placed : K → V → Change K V
  placed_near : ℕ → K → V → Change K V
  inserted_all : List (K × V) → Change K V
  inserted_node : Node K V → Change K V
  indexed : V → K → Change K V
  erased : K → Change K V
  extracted : K → Change K V
  cleared : Change K V

module _ {K : Type 0} (dec : Discrete K) where
  drop_first_absent : (k : K) (ks : List K) → has dec k ks ≡ false → drop_first dec k ks ≡ ks
  unfolding drop_first has
  drop_first_absent k [] h = refl
  drop_first_absent k (x ∷ ks) h = ground (arith, drop_first_absent k ks)

module _ {K V : Type 0} (dec : Discrete K) where
  unfoldable pub perform : Change K V → OrderedMap K V → OrderedMap K V
  perform (assigned k v) m = assign dec k v m
  perform (inserted k v) m = (insert dec k v m).0
  perform (inserted_or_assigned k v) m = (insert_or_assign dec k v m).0
  perform (emplaced k v) m = (try_emplace dec k v m).0
  perform (placed k v) m = (emplace dec k v m).0
  perform (placed_near hint k v) m = (emplace_hint dec hint k v m).0
  perform (inserted_all xs) m = insert_range dec xs m
  perform (inserted_node node) m = (insert_node dec node m).0
  perform (indexed d k) m = (index dec d k m).0
  perform (erased k) m = (erase dec k m).0
  perform (extracted k) m = (extract dec k m).0
  perform cleared m = clear m

  -- the entries with a new key go to the end, one after the other
  unfoldable pub insert_each : List (K × V) → List (K × V) → List (K × V)
  insert_each [] l = l
  insert_each (x ∷ xs) l = insert_each xs (Assoc.insert dec x.0 x.1 l)

  -- the same call on a list of entries
  unfoldable pub perform_list : Change K V → List (K × V) → List (K × V)
  perform_list (assigned k v) l = Assoc.set dec k v l
  perform_list (inserted k v) l = Assoc.insert dec k v l
  perform_list (inserted_or_assigned k v) l = Assoc.set dec k v l
  perform_list (emplaced k v) l = Assoc.insert dec k v l
  perform_list (placed k v) l = Assoc.insert dec k v l
  perform_list (placed_near hint k v) l = Assoc.insert dec k v l
  perform_list (inserted_all xs) l = insert_each xs l
  perform_list (inserted_node none) l = l
  perform_list (inserted_node (some x)) l = Assoc.insert dec x.0 x.1 l
  perform_list (indexed d k) l = Assoc.insert dec k d l
  perform_list (erased k) l = Assoc.erase dec k l
  perform_list (extracted k) l = Assoc.erase dec k l
  perform_list cleared l = []

  unfoldable pub run : List (Change K V) → OrderedMap K V → OrderedMap K V
  unfolding perform
  run [] m = m
  run (c ∷ cs) m = run cs (perform c m)

  unfoldable pub run_list : List (Change K V) → List (K × V) → List (K × V)
  unfolding perform_list
  run_list [] l = l
  run_list (c ∷ cs) l = run_list cs (perform_list c l)

  insert_or_assign-assign :
      (k : K) (v : V) (m : OrderedMap K V) → (insert_or_assign dec k v m).0 ≡ assign dec k v m
  unfolding insert_or_assign assign
  insert_or_assign-assign k v m = ground arith

  try_emplace-insert :
      (k : K) (v : V) (m : OrderedMap K V) → (try_emplace dec k v m).0 ≡ (insert dec k v m).0
  unfolding try_emplace insert
  try_emplace-insert k v m = ground arith

  emplace-insert :
      (k : K) (v : V) (m : OrderedMap K V) → (emplace dec k v m).0 ≡ (insert dec k v m).0
  unfolding emplace insert
  emplace-insert k v m = ground arith

  emplace_hint-insert :
      (hint : ℕ) (k : K) (v : V) (m : OrderedMap K V)
      → (emplace_hint dec hint k v m).0 ≡ (insert dec k v m).0
  unfolding emplace_hint insert
  emplace_hint-insert hint k v m = ground arith

  insert_node-insert :
      (x : K × V) (m : OrderedMap K V) → (insert_node dec (some x) m).0 ≡ (insert dec x.0 x.1 m).0
  unfolding insert_node insert
  insert_node-insert (k, v) m = ground arith

  insert_range-refines :
      (xs : List (K × V)) (m : OrderedMap K V)
      → IsValid dec m
      → IsValid dec (insert_range dec xs m)
        × (entries dec (insert_range dec xs m) ≡ insert_each xs (entries dec m))
  unfolding insert_range insert_each
  insert_range-refines [] m h = (h, refl)
  insert_range-refines ((k, v) ∷ xs) m h =
      let (valid, same) =
        insert_range-refines xs (insert dec k v m).0 (insert-IsValid dec k v m h) in
      (valid, same ∙ ap (insert_each xs) (entries-insert dec m k v h).0)

  -- a call that does to the map what `insert` does
  inserts :
      (k : K) (v : V) (m n : OrderedMap K V)
      → IsValid dec m
      → n ≡ (insert dec k v m).0
      → IsValid dec n × (entries dec n ≡ Assoc.insert dec k v (entries dec m))
  inserts k v m n h same = rw same (insert-IsValid dec k v m h, (entries-insert dec m k v h).0)

  index-insert : (d : V) (k : K) (m : OrderedMap K V) → (index dec d k m).0 ≡ (insert dec k d m).0
  unfolding index insert
  index-insert d k m = ground (arith, set-insert_new dec k d m.table)

  extract-erase :
      (k : K) (m : OrderedMap K V) → IsValid dec m → (extract dec k m).0 ≡ (erase dec k m).0
  unfolding extract erase
  extract-erase k m h =
      ground (arith, h.agree k, drop_first_absent dec k m.keys, erase_absent dec k m.table)

  perform-refines :
      (c : Change K V) (m : OrderedMap K V)
      → IsValid dec m
      → IsValid dec (perform c m) × (entries dec (perform c m) ≡ perform_list c (entries dec m))
  unfolding perform perform_list entries clear collect insert_node
  perform-refines (assigned k v) m h = (assign-IsValid dec k v m h, entries-assign dec m k v h)
  perform-refines (inserted k v) m h = (insert-IsValid dec k v m h, (entries-insert dec m k v h).0)
  perform-refines (inserted_or_assigned k v) m h = (
    insert_or_assign-IsValid dec k v m h,
    ap (entries dec) (insert_or_assign-assign k v m) ∙ entries-assign dec m k v h,
  )
  perform-refines (emplaced k v) m h = inserts k v m _ h (try_emplace-insert k v m)
  perform-refines (placed k v) m h = inserts k v m _ h (emplace-insert k v m)
  perform-refines (placed_near hint k v) m h = inserts k v m _ h (emplace_hint-insert hint k v m)
  perform-refines (inserted_all xs) m h = insert_range-refines xs m h
  perform-refines (inserted_node none) m h = (h, refl)
  perform-refines (inserted_node (some x)) m h = inserts x.0 x.1 m _ h (insert_node-insert x m)
  perform-refines (indexed d k) m h = inserts k d m _ h (index-insert d k m)
  perform-refines (erased k) m h = (erase-IsValid dec k m h, (entries-erase dec m k h).0)
  perform-refines (extracted k) m h = (
    extract-IsValid dec k m h,
    ap (entries dec) (extract-erase k m h) ∙ (entries-erase dec m k h).0,
  )
  perform-refines cleared m h = (new-IsValid dec, refl)

  -- From a well-formed map, any sequence of these calls (writes of one entry, `insert` of a range or a
  -- node, `erase` of a key, `extract` and `clear`) leaves a well-formed map, whose entries, in the order
  -- of iteration, are those that the same calls leave in a plain ordered list of entries.
  pub run-refines :
      (cs : List (Change K V)) (m : OrderedMap K V)
      → IsValid dec m
      → IsValid dec (run cs m) × (entries dec (run cs m) ≡ run_list cs (entries dec m))
  unfolding run run_list
  run-refines [] m h = (h, refl)
  run-refines (c ∷ cs) m h =
      let (valid, same) = perform-refines c m h in
      let (valid', same') = run-refines cs (perform c m) valid in
      (valid', same' ∙ ap (run_list cs) same)
