-- ===== src/Store.antt =====
-- The nodes as the program shares them: a `shared_ptr<ConfigBase>` is an address in a store of cells,
-- and a map or a list holds addresses. `resolveVarRefs` needs this, since it makes entries share nodes.
pub mod Load
pub mod Follow
pub mod Resolve
pub mod Written
pub mod Kept
pub mod Standing
pub mod Visited
use flexi_config_reader.Common.{
  ℕ, zero, suc, ◌+◌, Text, text_dec, List, [], ◌∷◌, ◌++◌, Option, none, some, Bool, true, false,
  ite, length, get_elem?,
}
use flexi_config_reader.Types.{
  Config, config_value, config_list, config_expression, config_value_lookup, config_var,
  config_struct, config_proto, config_reference, ValueType, StructType, ConfigType, Items, nil,
  cons, Fields, end, field, type_of,
}

-- the entries of a map
abbrev pub Links : Type 0
Links = List (Text × ℕ)

-- what is said of a struct-like beside its name, depth and content
pub data Kind : Type 0 where
  struct_kind : StructType → Kind
  proto_kind : Kind
  reference_kind : Text → Fields → Kind

pub data Cell : Type 0 where
  cell_value : Text → ValueType → Cell
  cell_list : ConfigType → List ℕ → Cell
  cell_expression : Text → Links → Cell
  cell_lookup : List Text → Cell
  cell_var : Text → Cell
  cell_struct : Kind → Text → ℕ → Links → Cell

abbrev pub Cells : Type 0
Cells = List Cell

-- the cell at an address
abbrev pub cell_at : Cells → ℕ → Option Cell
cell_at cells a = get_elem? cells a

unfoldable pub write : ℕ → Cell → Cells → Cells
write a c [] = []
write zero c (d ∷ cells) = c ∷ cells
write (suc a) c (d ∷ cells) = d ∷ write a c cells

-- the entry of a key
unfoldable pub link_at : Text → Links → Option ℕ
link_at k [] = none
link_at k ((j, b) ∷ links) = ite (text_dec k j) (some b) (link_at k links)

-- `m[k] = p`, for a key that is there
unfoldable pub set_link : Text → ℕ → Links → Links
set_link k a [] = []
set_link k a ((j, b) ∷ links) = ite (text_dec k j) ((j, a) ∷ links) ((j, b) ∷ set_link k a links)

-- The node that a cell stands for, without what its addresses lead to: its type and its text are those
-- of the cell.
unfoldable pub surface : Cell → Config
surface (cell_value text t) = config_value text t
surface (cell_list t elements) = config_list t nil
surface (cell_expression text lookups) = config_expression text end
surface (cell_lookup keys) = config_value_lookup keys
surface (cell_var name) = config_var name
surface (cell_struct (struct_kind t) name depth links) = config_struct t name depth end
surface (cell_struct proto_kind name depth links) = config_proto name depth end
surface (cell_struct (reference_kind p r) name depth links) = config_reference name p depth r end

-- the address that a new cell gets
abbrev pub fresh : Cells → ℕ
fresh cells = length cells

-- The store with one more cell, and its address.
abbrev pub allocate : Cell → Cells → Cells × ℕ
allocate c cells = (cells ++ c ∷ [], fresh cells)

-- the entries of a struct-like; `none` is a failed cast
unfoldable pub links_of : Cell → Option Links
links_of (cell_struct kind name depth links) = some links
links_of _ = none

-- the map of the struct-like at an address
unfoldable pub content_at : Cells → ℕ → Option Links
unfolding links_of
content_at cells a = elim (cell_at cells a) [ none ↦ none | some c ↦ links_of c ]

-- the address that an entry of a struct-like holds
unfoldable pub entry_of : Text → Cell → Option ℕ
unfolding links_of link_at
entry_of k c = elim (links_of c) [ none ↦ none | some links ↦ link_at k links ]

unfoldable pub entry_at : Cells → ℕ → Text → Option ℕ
unfolding entry_of
entry_at cells s k = elim (cell_at cells s) [ none ↦ none | some c ↦ entry_of k c ]

-- the cell with another address at a key
unfoldable pub relinked : Text → ℕ → Cell → Cell
unfolding set_link
relinked k a (cell_struct kind name depth links) = cell_struct kind name depth (set_link k a links)
relinked k a (cell_expression text links) = cell_expression text (set_link k a links)
relinked k a c = c

-- `sub_tree[k] = a` of the struct-like at `s`, or `value_lookups[k] = a` of the expression there
unfoldable pub relink : ℕ → Text → ℕ → Cells → Cells
unfolding write relinked
relink s k a cells = elim (cell_at cells s) [
  | none ↦ cells
  | some c ↦ write s (relinked k a c) cells
]
