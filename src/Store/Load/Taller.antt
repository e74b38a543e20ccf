-- ===== src/Store/Load/Taller.antt =====
-- A store reads as the same tree from its height on.
use flexi_config_reader.Common.{
  ℕ, zero, suc, ◌≤◌, List, [], ◌∷◌, some, Option, ◌≡◌, arith, Option-cases, inl, inr,
}
use flexi_config_reader.Types.{Config, Items, Fields}
use flexi_config_reader.Store.{
  Links, Cell, cell_value, cell_list, cell_expression, cell_lookup, cell_var, cell_struct, Cells,
  cell_at,
}
use flexi_config_reader.Store.Load.{read_items, read_links, read_cell, unload}

module _ (read more : ℕ → Option Config)
    (extends : (a : ℕ) (v : Config) → read a ≡ some v → more a ≡ some v) where
  read_items-more :
      (elements : List ℕ) (es : Items)
      → read_items read elements ≡ some es
      → read_items more elements ≡ some es
  unfolding read_items
  read_items-more [] es h = h
  read_items-more (a ∷ elements) es h = elim (Option-cases (read a)) [
    | inl absent ↦ absurd (ground (arith, h, absent))
    | inr (e, there) ↦ elim (Option-cases (read_items read elements)) [
      | inl n ↦ absurd (ground (arith, h, there, n))
      | inr (rest, all) ↦
          ground (arith, h, there, all, extends a e there, read_items-more elements rest all)
    ]
  ]

  read_links-more :
      (links : Links) (f : Fields) → read_links read links ≡ some f → read_links more links ≡ some f
  unfolding read_links
  read_links-more [] f h = h
  read_links-more ((k, a) ∷ links) f h = elim (Option-cases (read a)) [
    | inl absent ↦ absurd (ground (arith, h, absent))
    | inr (e, there) ↦ elim (Option-cases (read_links read links)) [
      | inl n ↦ absurd (ground (arith, h, there, n))
      | inr (rest, all) ↦
          ground (arith, h, there, all, extends a e there, read_links-more links rest all)
    ]
  ]

  read_cell-more : (c : Cell) (v : Config) → read_cell read c ≡ some v → read_cell more c ≡ some v
  unfolding read_cell
  read_cell-more (cell_value text t) v h = h
  read_cell-more (cell_lookup keys) v h = h
  read_cell-more (cell_var name) v h = h
  read_cell-more (cell_list t elements) v h = elim (Option-cases (read_items read elements)) [
    | inl n ↦ absurd (ground (arith, h, n))
    | inr (es, all) ↦ ground (arith, h, all, read_items-more elements es all)
  ]
  read_cell-more (cell_expression text links) v h = elim (Option-cases (read_links read links)) [
    | inl n ↦ absurd (ground (arith, h, n))
    | inr (f, all) ↦ ground (arith, h, all, read_links-more links f all)
  ]
  read_cell-more (cell_struct kind name depth links) v h =
      elim (Option-cases (read_links read links)) [
        | inl n ↦ absurd (ground (arith, h, n))
        | inr (f, all) ↦ ground (arith, h, all, read_links-more links f all)
      ]

pub unload-more :
    (tall height : ℕ) (cells : Cells) (a : ℕ) (tree : Config)
    → tall ≤ height
    → unload tall cells a ≡ some tree
    → unload height cells a ≡ some tree
unfolding unload
unload-more zero height cells a tree le h = absurd (ground (arith, h))
unload-more (suc tall) zero cells a tree le h = absurd (omega arith)
unload-more (suc tall) (suc height) cells a tree le h = elim (Option-cases (cell_at cells a)) [
  | inl absent ↦ absurd (ground (arith, h, absent))
  | inr (c, there) ↦
      let read : read_cell (λ b. unload tall cells b) c ≡ some tree = ground (arith, h, there) in
      rw (there, unload)
        (read_cell-more (λ b. unload tall cells b) (λ b. unload height cells b)
          (λ b v e. unload-more tall height cells b v (omega arith) e) c tree read)
]
