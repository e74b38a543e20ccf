-- ===== src/OrderedMap/Iteration.antt =====
-- Iterators of `ordered_map`: indices into the entries.
use flexi_config_reader.Common.{
  ℕ, zero, suc, ◌+◌, List, [], ◌∷◌, none, some, true, ◌≡◌, refl, arith, length, get_elem?, has,
  if◌then◌else◌, is_some, ◌<◌,
}
use flexi_config_reader.Assoc
use flexi_config_reader.Assoc.{get}
use flexi_config_reader.OrderedMap.{OrderedMap, deref, find_index, get_index, at, size, upper_bound}
use flexi_config_reader.OrderedMap.Invariant.{IsValid}
use flexi_config_reader.OrderedMap.Entries.{collect, entries}

module _ {K : Type 0} (dec : Discrete K) where
  find_index_lem :
      (k : K) (ks : List K) → has dec k ks ≡ true → get_elem? ks (find_index dec k ks) ≡ some k
  unfolding has find_index
  find_index_lem k [] h = cc
  find_index_lem k (x ∷ ks) h = ground (arith, find_index_lem k ks)

  find_index-lt : (k : K) (ks : List K) → has dec k ks ≡ true → find_index dec k ks < length ks
  unfolding has find_index
  find_index-lt k [] h = cc
  find_index-lt k (x ∷ ks) h = ground (arith, find_index-lt k ks)

module _ {K V : Type 0} (dec : Discrete K) where
  -- every key of the list is in the table
  Covers : List K → List (K × V) → Type 0
  Covers ks t = (q : K) → has dec q ks ≡ true → Assoc.contains dec q t ≡ true

  length-collect :
      (ks : List K) (t : List (K × V)) → Covers ks t → length (collect dec ks t) ≡ length ks
  unfolding Covers collect has
  length-collect [] t c = refl
  length-collect (k ∷ ks) t c = ground (arith, length-collect ks t (λ q h. c q (ground arith)), c k)

  get_elem?-collect :
      (i : ℕ) (ks : List K) (t : List (K × V))
      → Covers ks t
      → get_elem? (collect dec ks t) i ≡ elim (get_elem? ks i) [
        | none ↦ none
        | some k ↦ elim (get dec k t) [ none ↦ none | some v ↦ some (k, v) ]
      ]
  unfolding Covers collect has
  get_elem?-collect i [] t c = refl
  get_elem?-collect zero (k ∷ ks) t c = ground (arith, c k)
  get_elem?-collect (suc i) (k ∷ ks) t c =
      ground (arith, get_elem?-collect i ks t (λ q h. c q (ground arith)), c k)

  module _ (m : OrderedMap K V) (h : IsValid dec m) where
    covered : Covers m.keys m.table
    unfolding Covers
    covered q e = ground (arith, h.agree q)

    -- The size is the number of entries, and the iterator at an index reads the entry there: a
    -- walk from `begin` to `end` meets each entry once, in the order of insertion.
    pub deref-entries :
        (i : ℕ) → (size m ≡ length (entries dec m)) × (deref dec m i ≡ get_elem? (entries dec m) i)
    unfolding size deref entries
    deref-entries i = (
      ground (arith, length-collect m.keys m.table covered),
      ground (arith, get_elem?-collect i m.keys m.table covered),
    )

  -- `find` returns an iterator to the entry of the key, or `end` where the key is not there; and
  -- `upper_bound` returns the one after it, or `end`.
  pub deref-get_index :
      (m : OrderedMap K V) (k : K)
      → IsValid dec m
      → ((v : V) → at dec k m ≡ some v → deref dec m (get_index dec k m) ≡ some (k, v))
        × (at dec k m ≡ none → get_index dec k m ≡ size m)
        × (upper_bound dec k m ≡ (if is_some (at dec k m) then get_index dec k m + 1 else size m))
  unfolding deref get_index at size upper_bound
  deref-get_index m k h = (
    λ v e. ground (arith, find_index_lem dec k m.keys, h.agree k),
    λ e. ground arith,
    ground (arith, find_index-lt dec k m.keys, h.agree k),
  )
