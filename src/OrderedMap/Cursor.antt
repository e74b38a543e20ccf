-- ===== src/OrderedMap/Cursor.antt =====
-- The iterators of `ordered_map` as objects: an index of 64 bits beside the key that it had when the index
-- was set last.
use Prim.Native.Nat.{◌^◌, ◌%◌}
use flexi_config_reader.Common.{
  ℕ, zero, suc, ◌+◌, ◌-◌, ◌<◌, ◌≤◌, List, [], ◌∷◌, Option, none, some, Bool, true, false, ◌≡◌, refl,
  arith, length, get_elem?, drop, ltb, ◌==◌, if◌then◌else◌, Bool-cases, inl, inr, sym, ◌∙◌, ap,
}
use flexi_config_reader.Assoc.{get}
use flexi_config_reader.OrderedMap.{OrderedMap, size, deref}
use flexi_config_reader.OrderedMap.Invariant.{IsValid}
use flexi_config_reader.OrderedMap.Entries.{entries}
use flexi_config_reader.OrderedMap.Iteration.{deref-entries}

-- `iterator_base` without its pointers, which are those of the map
pub record Cursor (K : Type 0) : Type 0 where
  pub index : ℕ
  pub key : Option K

-- `std::size_t` wraps around
abbrev pub wrap : ℕ → ℕ
wrap i = i % 2 ^ 64

module _ {K V : Type 0} where
  -- `update_key_from_index` after the index is set
  unfoldable pub refresh : OrderedMap K V → ℕ → Cursor K
  refresh m i = record { index = i; key = get_elem? m.keys i }

  -- the constructor; `none` is `std::out_of_range`
  unfoldable pub cursor : OrderedMap K V → ℕ → Option (Cursor K)
  unfolding refresh
  cursor m i = if ltb (length m.keys) i then none else some (refresh m i)

  unfoldable pub begin : OrderedMap K V → Cursor K
  unfolding refresh
  begin m = refresh m 0

  unfoldable pub past_end : OrderedMap K V → Cursor K
  unfolding refresh
  past_end m = refresh m (length m.keys)

  -- `++it`
  unfoldable pub increment : OrderedMap K V → Cursor K → Cursor K
  unfolding refresh
  increment m it = refresh m (wrap (it.index + 1))

  -- `--it`
  unfoldable pub decrement : OrderedMap K V → Cursor K → Cursor K
  unfolding refresh
  decrement m it = refresh m (wrap (it.index + 2 ^ 64 - 1))

  -- `it + n` and `it - n`, which go through the constructor, for a number of 64 bits
  unfoldable pub plus : OrderedMap K V → Cursor K → ℕ → Option (Cursor K)
  unfolding cursor
  plus m it n = cursor m (wrap (it.index + n))

  unfoldable pub minus : OrderedMap K V → Cursor K → ℕ → Option (Cursor K)
  unfolding cursor
  minus m it n = cursor m (wrap (it.index + 2 ^ 64 - n))

  -- `it += n` and `it -= n`
  unfoldable pub plus_assign : OrderedMap K V → Cursor K → ℕ → Cursor K
  unfolding refresh
  plus_assign m it n = refresh m (wrap (it.index + n))

  unfoldable pub minus_assign : OrderedMap K V → Cursor K → ℕ → Cursor K
  unfolding refresh
  minus_assign m it n = refresh m (wrap (it.index + 2 ^ 64 - n))

-- `it == other`
unfoldable pub same : {K : Type 0} → Cursor K → Cursor K → Bool
same it other = it.index == other.index

drop-get_elem? :
    {A : Type 0} (xs : List A) (i : ℕ)
    → i < length xs
    → (x : A) × (get_elem? xs i ≡ some x) × (drop i xs ≡ x ∷ drop (suc i) xs)
drop-get_elem? [] i h = absurd (omega arith)
drop-get_elem? (x ∷ xs) zero h = (x, refl, refl)
drop-get_elem? (x ∷ xs) (suc i) h = drop-get_elem? xs i (omega arith)

drop-length : {A : Type 0} (xs : List A) → drop (length xs) xs ≡ []
drop-length [] = refl
drop-length (x ∷ xs) = drop-length xs

module _ {K V : Type 0} (dec : Discrete K) where
  -- `*it`; `none` is `std::bad_optional_access`, or the table's `end` read
  unfoldable pub read : OrderedMap K V → Cursor K → Option (K × V)
  read m it = elim it.key [
    | none ↦ none
    | some k ↦ elim (get dec k m.table) [ none ↦ none | some v ↦ some (k, v) ]
  ]

  -- the loop `for (auto& e : m)` from an iterator on, on fuel: what it meets
  unfoldable pub for_each : ℕ → OrderedMap K V → Cursor K → Option (List (K × V))
  unfolding read increment past_end same
  for_each zero m it = none
  for_each (suc fuel) m it = elim (same it (past_end m)) [
    | true ↦ some []
    | false ↦ elim (read m it) [
      | none ↦ none
      | some e ↦ elim (for_each fuel m (increment m it)) [ none ↦ none | some es ↦ some (e ∷ es) ]
    ]
  ]

  at_end_lem :
      (m : OrderedMap K V) (i : ℕ) → same (refresh m i) (past_end m) ≡ true → i ≡ length m.keys
  unfolding same refresh past_end
  at_end_lem m i h = ground (arith, h)

  before_end_lem :
      (m : OrderedMap K V) (i : ℕ)
      → i ≤ length m.keys
      → same (refresh m i) (past_end m) ≡ false
      → i < length m.keys
  unfolding same refresh past_end
  before_end_lem m i le h = ground (arith, h, le)

  read-refresh : (m : OrderedMap K V) (i : ℕ) → read m (refresh m i) ≡ deref dec m i
  unfolding read refresh deref
  read-refresh m i = refl

  increment-refresh :
      (m : OrderedMap K V) (i : ℕ) → suc i < 2 ^ 64 → increment m (refresh m i) ≡ refresh m (suc i)
  unfolding increment refresh
  increment-refresh m i h = let next : wrap (i + 1) ≡ suc i = omega arith in ap (refresh m) next

  for_each-refresh :
      (fuel : ℕ) (m : OrderedMap K V) (i : ℕ)
      → IsValid dec m
      → length m.keys < 2 ^ 64
      → i ≤ length m.keys
      → length m.keys < fuel + i
      → for_each fuel m (refresh m i) ≡ some (drop i (entries dec m))
  unfolding for_each same past_end size
  for_each-refresh zero m i h small le enough = absurd (omega arith)
  for_each-refresh (suc fuel) m i h small le enough =
      let (sizes, there) = deref-entries dec m h i in
      elim (Bool-cases (same (refresh m i) (past_end m))) [
        | inl done ↦
            let at_end : i ≡ length (entries dec m) = at_end_lem m i done ∙ sizes in
            rw (done, for_each) (rw at_end (ap some (sym (drop-length (entries dec m)))))
        | inr more ↦
            let below = before_end_lem m i le more in
            let (e, found, rest) = drop-get_elem? (entries dec m) i (rw (← sizes) below) in
            let met : read m (refresh m i) ≡ some e = read-refresh m i ∙ (there ∙ found) in
            let after =
              for_each-refresh fuel m (suc i) h small (omega (arith, below))
                (omega (arith, enough)) in
            let stepped = increment-refresh m i (omega (arith, below, small)) in
            rw (more, for_each) (rw met (rw stepped (rw after (ap some (sym rest)))))
      ]

  -- The range-based `for` over a well-formed map of less than 2 ^ 64 entries ends, after it has met
  -- the entries in the order of their insertion, each once.
  pub for_each-entries :
      (fuel : ℕ) (m : OrderedMap K V)
      → IsValid dec m
      → size m < 2 ^ 64
      → size m < fuel
      → for_each fuel m (begin m) ≡ some (entries dec m)
  unfolding begin size
  for_each-entries fuel m h small enough =
      for_each-refresh fuel m 0 h small (omega arith) (omega (arith, enough))
