-- ===== src/Store/Load.antt =====
-- A tree of nodes put into a store, each node in a cell of its own, and read from one.
pub mod Placed
pub mod Taller
use flexi_config_reader.Common.{ℕ, zero, suc, Text, List, [], ◌∷◌, Option, none, some}
use flexi_config_reader.Types.{
  Config, config_value, config_list, config_expression, config_value_lookup, config_var,
  config_struct, config_proto, config_reference, of_struct, Items, nil, cons, Fields, end, field,
}
use flexi_config_reader.Store.{
  Links, Kind, struct_kind, proto_kind, reference_kind, Cell, cell_value, cell_list,
  cell_expression, cell_lookup, cell_var, cell_struct, Cells, cell_at, allocate,
}

-- what stands below a node comes before it
unfoldable mutual
  pub load : Fields → Cells → Cells × Links
  load end cells = (cells, [])
  load (field k v f) cells =
      let (cells', a) = load_node v cells in
      let (cells'', links) = load f cells' in (cells'', (k, a) ∷ links)

  pub load_node : Config → Cells → Cells × ℕ
  load_node (config_value text t) cells = allocate (cell_value text t) cells
  load_node (config_list t es) cells =
      let (cells', elements) = load_items es cells in allocate (cell_list t elements) cells'
  load_node (config_expression text lookups) cells =
      let (cells', links) = load lookups cells in allocate (cell_expression text links) cells'
  load_node (config_value_lookup keys) cells = allocate (cell_lookup keys) cells
  load_node (config_var name) cells = allocate (cell_var name) cells
  load_node (config_struct t n d f) cells =
      let (cells', links) = load f cells in allocate (cell_struct (struct_kind t) n d links) cells'
  load_node (config_proto n d f) cells =
      let (cells', links) = load f cells in allocate (cell_struct proto_kind n d links) cells'
  load_node (config_reference n p d r f) cells =
      let (cells', links) = load f cells in
      allocate (cell_struct (reference_kind p r) n d links) cells'

  pub load_items : Items → Cells → Cells × List ℕ
  load_items nil cells = (cells, [])
  load_items (cons e es) cells =
      let (cells', a) = load_node e cells in
      let (cells'', elements) = load_items es cells' in (cells'', a ∷ elements)

-- the root map, which stands in a struct of its own
unfoldable pub load_root : Fields → Cells × ℕ
unfolding load
load_root cfg = load_node (config_struct of_struct [] 0 cfg) []

-- The node that a struct-like cell stands for.
unfoldable pub struct_node : Kind → Text → ℕ → Fields → Config
struct_node (struct_kind t) name depth content = config_struct t name depth content
struct_node proto_kind name depth content = config_proto name depth content
struct_node (reference_kind p r) name depth content = config_reference name p depth r content

-- what stands in a list, or behind the entries of a map, given how an address is read
unfoldable pub read_items : (ℕ → Option Config) → List ℕ → Option Items
read_items read [] = some nil
read_items read (a ∷ elements) = elim (read a) [
  | none ↦ none
  | some e ↦ elim (read_items read elements) [ none ↦ none | some es ↦ some (cons e es) ]
]

unfoldable pub read_links : (ℕ → Option Config) → Links → Option Fields
read_links read [] = some end
read_links read ((k, a) ∷ links) = elim (read a) [
  | none ↦ none
  | some v ↦ elim (read_links read links) [ none ↦ none | some f ↦ some (field k v f) ]
]

unfoldable pub read_cell : (ℕ → Option Config) → Cell → Option Config
unfolding read_items read_links struct_node
read_cell read (cell_value text t) = some (config_value text t)
read_cell read (cell_list t elements) = elim (read_items read elements) [
  | none ↦ none
  | some es ↦ some (config_list t es)
]
read_cell read (cell_expression text links) = elim (read_links read links) [
  | none ↦ none
  | some f ↦ some (config_expression text f)
]
read_cell read (cell_lookup keys) = some (config_value_lookup keys)
read_cell read (cell_var name) = some (config_var name)
read_cell read (cell_struct kind name depth links) = elim (read_links read links) [
  | none ↦ none
  | some f ↦ some (struct_node kind name depth f)
]

-- The tree below an address, on fuel for its height: `none` means that the fuel ran out or that there is
-- no such cell. A node that several addresses lead to is read several times.
unfoldable pub unload : ℕ → Cells → ℕ → Option Config
unfolding read_cell
unload zero cells a = none
unload (suc fuel) cells a = elim (cell_at cells a) [
  | none ↦ none
  | some c ↦ read_cell (λ b. unload fuel cells b) c
]
