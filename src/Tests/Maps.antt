-- ===== src/Tests/Maps.antt =====
-- `ordered_map` at concrete inputs, with numbers for keys and values.
use native.Mathlib.Decide.{ℕ_discrete}
use flexi_config_reader.Common.{
  ℕ, List, [], ◌∷◌, none, some, ◌≡◌, refl, drop_first, arith, if◌then◌else◌, is_some, ◌+◌,
}
use mathlib.Core.List.{lookup}
use flexi_config_reader.Assoc
use flexi_config_reader.OrderedMap.{
  OrderedMap, new, merge, erase, insert, try_emplace, assign, at, deref, get_index, size,
  upper_bound,
}
use flexi_config_reader.OrderedMap.Invariant.{IsValid, new-IsValid}
use flexi_config_reader.OrderedMap.Entries.{entries}
use flexi_config_reader.OrderedMap.Moving.{merge_moved, merge_moved-merge}
use flexi_config_reader.OrderedMap.Cursor.{for_each, begin, for_each-entries}
use flexi_config_reader.OrderedMap.Merging.{merge_lem}
use flexi_config_reader.OrderedMap.Iteration.{deref-get_index}
use flexi_config_reader.OrderedMap.Refinement.{
  Change, assigned, inserted, erased, emplaced, run, run_list, run-refines,
}

abbrev calls : List (Change ℕ ℕ)
calls = inserted 1 10 ∷ assigned 2 20 ∷ emplaced 1 11 ∷ inserted 3 30 ∷ erased 2 ∷ []

run-refines_example :
    IsValid ℕ_discrete (run ℕ_discrete calls new)
    × (entries ℕ_discrete (run ℕ_discrete calls new)
        ≡ run_list ℕ_discrete calls (entries ℕ_discrete new))
run-refines_example = run-refines ℕ_discrete calls new (new-IsValid ℕ_discrete)

abbrev filled : OrderedMap ℕ ℕ
filled = run ℕ_discrete calls new

filled-IsValid : IsValid ℕ_discrete filled
filled-IsValid = (run-refines ℕ_discrete calls new (new-IsValid ℕ_discrete)).0

abbrev other : OrderedMap ℕ ℕ
other = run ℕ_discrete (inserted 3 33 ∷ inserted 4 44 ∷ []) new

other-IsValid : IsValid ℕ_discrete other
other-IsValid =
    (run-refines ℕ_discrete (inserted 3 33 ∷ inserted 4 44 ∷ []) new (new-IsValid ℕ_discrete)).0

merge_example :
    IsValid ℕ_discrete (merge ℕ_discrete filled other).0
    × IsValid ℕ_discrete (merge ℕ_discrete filled other).1
    × ((q : ℕ)
        → (at ℕ_discrete q (merge ℕ_discrete filled other).0
            ≡ (elim (at ℕ_discrete q filled) [ none ↦ at ℕ_discrete q other | some w ↦ some w ]))
          × (at ℕ_discrete q (merge ℕ_discrete filled other).1
              ≡ (elim (at ℕ_discrete q filled) [ none ↦ none | some _ ↦ at ℕ_discrete q other ])))
merge_example = merge_lem ℕ_discrete filled other filled-IsValid other-IsValid

deref-get_index_example :
    ((v : ℕ)
      → at ℕ_discrete 3 filled ≡ some v
      → deref ℕ_discrete filled (get_index ℕ_discrete 3 filled) ≡ some (3, v))
    × (at ℕ_discrete 3 filled ≡ none → get_index ℕ_discrete 3 filled ≡ size filled)
    × (upper_bound ℕ_discrete 3 filled ≡ (
        if is_some (at ℕ_discrete 3 filled)
        then get_index ℕ_discrete 3 filled + 1
        else size filled))
deref-get_index_example = deref-get_index ℕ_discrete filled 3 filled-IsValid

merge_moved_example : merge_moved ℕ_discrete filled other ≡ merge ℕ_discrete filled other
merge_moved_example = merge_moved-merge ℕ_discrete filled other other-IsValid

size-filled : size filled ≡ 2
unfolding size run erase lookup insert try_emplace assign Assoc.set Assoc.insert ℕ_discrete
    drop_first
size-filled = refl

for_each_example : for_each ℕ_discrete 5 filled (begin filled) ≡ some (entries ℕ_discrete filled)
for_each_example =
    for_each-entries ℕ_discrete 5 filled filled-IsValid (omega (arith, size-filled))
      (omega (arith, size-filled))
