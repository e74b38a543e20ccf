-- ===== src/OrderedMap.antt =====
-- The insertion-ordered map of include/flexi_cfg/details/ordered_map.h: a hash table `map_` beside
-- the vector `keys_` of the keys in the order of their insertion. An iterator is its `index_`, since
-- its pointers are those of the map that made it, and it reads the key at that index.
-- What the C++ leaves undefined (a read through an iterator that is not dereferenceable) is `none`.
pub mod Iteration
pub mod Invariant
pub mod Entries
pub mod Merging
pub mod Refinement
pub mod Moving
pub mod Cursor
use mathlib.Core.List.{map}
use flexi_config_reader.Common.{
  ℕ, zero, suc, ◌+◌, ◌-◌, List, [], ◌∷◌, ◌++◌, Option, none, some, Bool, true, false, ite, is_some,
  length, get_elem?, take, drop, has, drop_first, ltb, if◌then◌else◌, ◌==◌,
}
use flexi_config_reader.Assoc
use flexi_config_reader.Assoc.{get}

pub record OrderedMap (K V : Type 0) : Type 0 where
  pub table : List (K × V)
  pub keys : List K

-- A node handle, empty or with the entry that was extracted.
abbrev pub Node : Type 0 → Type 0 → Type 0
Node K V = Option (K × V)

module _ {K V : Type 0} where
  abbrev pub new : OrderedMap K V
  new = record { table = []; keys = [] }

  unfoldable pub empty : OrderedMap K V → Bool
  empty m = elim m.table [ [] ↦ true | _ ∷ _ ↦ false ]

  unfoldable pub size : OrderedMap K V → ℕ
  size m = length m.keys

  unfoldable pub clear : OrderedMap K V → OrderedMap K V
  clear m = record { table = []; keys = [] }

  unfoldable pub swap : OrderedMap K V → OrderedMap K V → OrderedMap K V × OrderedMap K V
  swap m n =
      (record m { table = n.table; keys = n.keys }, record n { table = m.table; keys = m.keys })

module _ {K : Type 0} (dec : Discrete K) where
  -- `std::distance(begin, std::find(begin, end, key))`
  find_index : K → List K → ℕ
  find_index k [] = 0
  find_index k (x ∷ xs) = ite (dec k x) 0 (suc (find_index k xs))

  drop_each : List K → List K → List K
  drop_each [] keys = keys
  drop_each (k ∷ ks) keys = drop_each ks (drop_first dec k keys)

module _ {K V : Type 0} (dec : Discrete K) where
  -- the range constructor of `std::unordered_map`: the first value of a key stays
  fill : List (K × V) → List (K × V) → List (K × V)
  fill t [] = t
  fill t ((k, v) ∷ xs) = fill (Assoc.insert dec k v t) xs

  unfoldable pub from_range : List (K × V) → OrderedMap K V
  unfolding fill
  from_range xs = record { table = fill [] xs; keys = map (λ e. e.0) xs }

  unfoldable pub get_index : K → OrderedMap K V → ℕ
  unfolding find_index
  get_index k m = elim (get dec k m.table) [
    | none ↦ length m.keys
    | some _ ↦ find_index dec k m.keys
  ]

  -- `*it` for the iterator at an index
  unfoldable pub deref : OrderedMap K V → ℕ → Option (K × V)
  deref m i = elim (get_elem? m.keys i) [
    | none ↦ none
    | some k ↦ elim (get dec k m.table) [ none ↦ none | some v ↦ some (k, v) ]
  ]

  abbrev pub find : K → OrderedMap K V → ℕ
  find k m = get_index k m

  unfoldable pub contains : K → OrderedMap K V → Bool
  contains k m = Assoc.contains dec k m.table

  unfoldable pub count : K → OrderedMap K V → ℕ
  count k m = if Assoc.contains dec k m.table then 1 else 0

  -- `none` is the `std::out_of_range` of `at`
  unfoldable pub at : K → OrderedMap K V → Option V
  at k m = get dec k m.table

  -- `m[key]`, which makes the entry with the default value if it is not there
  unfoldable pub index : V → K → OrderedMap K V → OrderedMap K V × V
  index default k m = elim (get dec k m.table) [
    | none ↦ (record { table = Assoc.set dec k default m.table; keys = m.keys ++ k ∷ [] }, default)
    | some v ↦ (m, v)
  ]

  -- `m[key] = v`
  unfoldable pub assign : K → V → OrderedMap K V → OrderedMap K V
  assign k v m = record {
    table = Assoc.set dec k v m.table;
    keys = if Assoc.contains dec k m.table then m.keys else m.keys ++ k ∷ [];
  }

  unfoldable pub insert : K → V → OrderedMap K V → OrderedMap K V × ℕ × Bool
  unfolding get_index
  insert k v m =
      if Assoc.contains dec k m.table
      then (m, find k m, false)
      else (let m' : OrderedMap K V = record {
        table = Assoc.insert dec k v m.table;
        keys = m.keys ++ k ∷ [];
      } in
          (m', find k m', true))

  unfoldable pub insert_range : List (K × V) → OrderedMap K V → OrderedMap K V
  unfolding insert
  insert_range [] m = m
  insert_range ((k, v) ∷ xs) m = insert_range xs (insert k v m).0

  unfoldable pub insert_or_assign : K → V → OrderedMap K V → OrderedMap K V × ℕ × Bool
  unfolding get_index
  insert_or_assign k v m =
      if Assoc.contains dec k m.table
      then (let m' : OrderedMap K V = record m { table = Assoc.set dec k v m.table } in
          (m', find k m', false))
      else (let m' : OrderedMap K V = record {
        table = Assoc.set dec k v m.table;
        keys = m.keys ++ k ∷ [];
      } in
          (m', find k m', true))

  -- A key that is there keeps its value, and `v` is built only for a new key.
  unfoldable pub try_emplace : K → V → OrderedMap K V → OrderedMap K V × ℕ × Bool
  unfolding get_index
  try_emplace k v m = elim (get dec k m.table) [
    | some _ ↦ (m, find k m, false)
    | none ↦
        let m' : OrderedMap K V = record {
          table = Assoc.insert dec k v m.table;
          keys = m.keys ++ k ∷ [];
        } in
        (m', find k m', true)
  ]

  -- by key: how many entries went
  unfoldable pub erase : K → OrderedMap K V → OrderedMap K V × ℕ
  erase k m = elim (get dec k m.table) [
    | none ↦ (m, 0)
    | some _ ↦ (record { table = Assoc.erase dec k m.table; keys = drop_first dec k m.keys }, 1)
  ]

  -- by iterator: the entry at the index goes, and the iterator to the next one is returned
  unfoldable pub erase_at : ℕ → OrderedMap K V → Option (OrderedMap K V × ℕ)
  erase_at i m = elim (get_elem? m.keys i) [
    | none ↦ none
    | some k ↦ some (
      record { table = Assoc.erase dec k m.table; keys = take i m.keys ++ drop (i + 1) m.keys },
      i,
    )
  ]

  erase_all : List K → List (K × V) → List (K × V)
  erase_all [] t = t
  erase_all (k ∷ ks) t = erase_all ks (Assoc.erase dec k t)

  -- by a range of iterators
  unfoldable pub erase_range : ℕ → ℕ → OrderedMap K V → OrderedMap K V × ℕ
  unfolding erase_all
  erase_range first last m = if first == last then (m, first) else (
    record {
      table = erase_all (take (last - first) (drop first m.keys)) m.table;
      keys = take first m.keys ++ drop last m.keys;
    },
    first,
  )

  unfoldable pub extract : K → OrderedMap K V → OrderedMap K V × Node K V
  extract k m = (
    record { table = Assoc.erase dec k m.table; keys = drop_first dec k m.keys },
    elim (get dec k m.table) [ none ↦ none | some v ↦ some (k, v) ],
  )

  -- the node comes back if the key was there
  unfoldable pub insert_node : Node K V → OrderedMap K V → OrderedMap K V × ℕ × Bool × Node K V
  unfolding get_index
  insert_node none m = (m, length m.keys, false, none)
  insert_node (some (k, v)) m =
      if Assoc.contains dec k m.table
      then (m, find k m, false, some (k, v))
      else (let m' : OrderedMap K V = record {
        table = Assoc.insert dec k v m.table;
        keys = m.keys ++ k ∷ [];
      } in
          (m', find k m', true, none))

  -- The past-the-end of the key, or the end of the map.
  unfoldable pub upper_bound : K → OrderedMap K V → ℕ
  unfolding get_index
  upper_bound k m = if find k m == length m.keys then find k m else find k m + 1

  unfoldable pub equal_range : K → OrderedMap K V → ℕ × ℕ
  unfolding get_index
  equal_range k m =
      if find k m == length m.keys then (length m.keys, length m.keys) else (find k m, find k m + 1)

  -- The loop of `merge`: the keys of the source in order, the target, and the source's table.
  -- Each key that the target lacks is extracted and inserted; the keys that moved are returned.
  merge_loop : List K → OrderedMap K V → List (K × V) → OrderedMap K V × List (K × V) × List K
  unfolding insert_node
  merge_loop [] this table = (this, table, [])
  merge_loop (k ∷ ks) this table = elim (get dec k this.table) [
    | some _ ↦ merge_loop ks this table
    | none ↦ elim (get dec k table) [
      | none ↦ merge_loop ks this table
      | some v ↦
          let (t, s, moved) =
            merge_loop ks (insert_node (some (k, v)) this).0 (Assoc.erase dec k table) in
          (t, s, k ∷ moved)
    ]
  ]

  -- `merge(ordered_map&)`: both maps change
  unfoldable pub merge : OrderedMap K V → OrderedMap K V → OrderedMap K V × OrderedMap K V
  unfolding merge_loop drop_each
  merge this source =
      let (t, s, moved) = merge_loop source.keys this source.table in
      (t, record { table = s; keys = drop_each dec moved source.keys })
