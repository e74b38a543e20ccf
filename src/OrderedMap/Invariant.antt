-- ===== src/OrderedMap/Invariant.antt =====
-- The invariant of `ordered_map`: `keys_` holds no key twice, and holds exactly the keys of `map_`.
use mathlib.Core.List.{lookup}
use flexi_config_reader.Common.{
  ℕ, zero, suc, List, [], ◌∷◌, ◌++◌, some, true, false, ◌≡◌, refl, ite, arith, subst, get_elem?,
  take, drop, has, distinct, drop_first, has-append, has-drop_first, distinct-append_new,
  distinct-drop_first, Bool-cases, Option-cases, inl, inr, ◌+◌,
}
use flexi_config_reader.Assoc
use flexi_config_reader.Assoc.{get, get-set, get-insert, get-erase}
use flexi_config_reader.OrderedMap.{
  OrderedMap, new, index, assign, insert, insert_or_assign, try_emplace, erase, erase_at, extract,
}

has_of_get_elem? :
    {K : Type 0} (dec : Discrete K) (i : ℕ) (k : K) (ks : List K)
    → get_elem? ks i ≡ some k
    → has dec k ks ≡ true
unfolding has
has_of_get_elem? dec i k [] e = cc
has_of_get_elem? dec zero k (x ∷ ks) e = ground arith
has_of_get_elem? dec (suc i) k (x ∷ ks) e = ground (arith, has_of_get_elem? dec i k ks e)

-- to cut the index of a key out is to drop the key, as no key stands twice
drop_at :
    {K : Type 0} (dec : Discrete K) (i : ℕ) (k : K) (ks : List K)
    → distinct dec ks ≡ true
    → get_elem? ks i ≡ some k
    → take i ks ++ drop (i + 1) ks ≡ drop_first dec k ks
unfolding distinct drop_first
drop_at dec i k [] d e = cc
drop_at dec zero k (x ∷ ks) d e = ground arith
drop_at dec (suc i) k (x ∷ ks) d e =
    ground (arith, drop_at dec i k ks, has_of_get_elem? dec i k ks e)

module _ {K V : Type 0} (dec : Discrete K) where
  pub record IsValid (m : OrderedMap K V) : Type 0 where
    pub distinct_keys : distinct dec m.keys ≡ true
    pub agree : (k : K) → has dec k m.keys ≡ Assoc.contains dec k m.table

  pub new-IsValid : IsValid new
  unfolding distinct lookup
  new-IsValid = record { distinct_keys = refl; agree = λ k. refl }

  -- a table that gains exactly the key `k`, which goes to the end of the keys
  pub grow-IsValid :
      (k : K) (m : OrderedMap K V) (t : List (K × V))
      → IsValid m
      → Assoc.contains dec k m.table ≡ false
      → ((q : K) → Assoc.contains dec q t ≡ ite (dec q k) true (Assoc.contains dec q m.table))
      → IsValid (record { table = t; keys = m.keys ++ k ∷ [] })
  unfolding has
  grow-IsValid k m t h absent grown = record {
    distinct_keys = ground (arith, distinct-append_new dec k m.keys, h.agree k);
    agree = λ q. ground (arith, grown q, h.agree q, has-append dec q m.keys (k ∷ []));
  }

  -- a table that loses exactly the key `k`, which goes from the keys
  pub shrink-IsValid :
      (k : K) (m : OrderedMap K V)
      → IsValid m
      → IsValid (record { table = Assoc.erase dec k m.table; keys = drop_first dec k m.keys })
  shrink-IsValid k m h = record {
    distinct_keys = distinct-drop_first dec k m.keys h.distinct_keys;
    agree = λ q. ground (
      arith,
      h.agree q,
      has-drop_first dec q k m.keys,
      get-erase dec q k m.table,
      h.distinct_keys,
    );
  }

  -- a table that keeps its keys
  pub keep-IsValid :
      (m : OrderedMap K V) (t : List (K × V))
      → IsValid m
      → ((q : K) → Assoc.contains dec q t ≡ Assoc.contains dec q m.table)
      → IsValid (record { table = t; keys = m.keys })
  keep-IsValid m t h same = record {
    distinct_keys = h.distinct_keys;
    agree = λ q. ground (arith, same q, h.agree q);
  }

  pub assign-IsValid : (k : K) (v : V) (m : OrderedMap K V) → IsValid m → IsValid (assign dec k v m)
  unfolding assign
  assign-IsValid k v m h = elim (Bool-cases (Assoc.contains dec k m.table)) [
    | inl present ↦
        rw present (keep-IsValid m _ h (λ q. ground (arith, get-set dec q k v m.table, present)))
    | inr absent ↦
        rw absent (grow-IsValid k m _ h absent (λ q. ground (arith, get-set dec q k v m.table)))
  ]

  pub insert-IsValid :
      (k : K) (v : V) (m : OrderedMap K V) → IsValid m → IsValid (insert dec k v m).0
  unfolding insert
  insert-IsValid k v m h = elim (Bool-cases (Assoc.contains dec k m.table)) [
    | inl present ↦ rw present h
    | inr absent ↦
        rw absent (grow-IsValid k m _ h absent (λ q. ground (arith, get-insert dec q k v m.table)))
  ]

  pub insert_or_assign-IsValid :
      (k : K) (v : V) (m : OrderedMap K V) → IsValid m → IsValid (insert_or_assign dec k v m).0
  unfolding insert_or_assign
  insert_or_assign-IsValid k v m h = elim (Bool-cases (Assoc.contains dec k m.table)) [
    | inl present ↦
        rw present (keep-IsValid m _ h (λ q. ground (arith, get-set dec q k v m.table, present)))
    | inr absent ↦
        rw absent (grow-IsValid k m _ h absent (λ q. ground (arith, get-set dec q k v m.table)))
  ]

  pub try_emplace-IsValid :
      (k : K) (v : V) (m : OrderedMap K V) → IsValid m → IsValid (try_emplace dec k v m).0
  unfolding try_emplace
  try_emplace-IsValid k v m h = elim (Option-cases (get dec k m.table)) [
    | inl absent ↦
        rw (absent, try_emplace)
          (grow-IsValid k m _ h (rw absent) (λ q. ground (arith, get-insert dec q k v m.table)))
    | inr (w, present) ↦ rw (present, try_emplace) h
  ]

  pub index-IsValid :
      (default : V) (k : K) (m : OrderedMap K V) → IsValid m → IsValid (index dec default k m).0
  unfolding index
  index-IsValid default k m h = elim (Option-cases (get dec k m.table)) [
    | inl absent ↦
        rw (absent, index)
          (grow-IsValid k m _ h (rw absent) (λ q. ground (arith, get-set dec q k default m.table)))
    | inr (w, present) ↦ rw (present, index) h
  ]

  pub erase-IsValid : (k : K) (m : OrderedMap K V) → IsValid m → IsValid (erase dec k m).0
  unfolding erase
  erase-IsValid k m h = elim (Option-cases (get dec k m.table)) [
    | inl absent ↦ rw (absent, erase) h
    | inr (w, present) ↦ rw (present, erase) (shrink-IsValid k m h)
  ]

  pub extract-IsValid : (k : K) (m : OrderedMap K V) → IsValid m → IsValid (extract dec k m).0
  unfolding extract
  extract-IsValid = shrink-IsValid

  pub erase_at-IsValid :
      (i : ℕ) (m n : OrderedMap K V) {j : ℕ}
      → IsValid m
      → erase_at dec i m ≡ some (n, j)
      → IsValid n
  unfolding erase_at
  erase_at-IsValid i m n h e = elim (Option-cases (get_elem? m.keys i)) [
    | inl out ↦ absurd (ground arith)
    | inr (k, at) ↦
        subst IsValid (ground (arith, drop_at dec i k m.keys h.distinct_keys at))
          (shrink-IsValid k m h)
  ]
