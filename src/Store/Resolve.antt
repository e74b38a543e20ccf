-- ===== src/Store/Resolve.antt =====
-- `resolveVarRefs` of src/config_helpers.cpp on a store: the entries, the elements and the variables of
-- expressions that are lookups come to hold the address of the node that the lookup leads to.
pub mod Keeps
pub mod Turn
pub mod Cleared
pub mod Returns
pub mod Redirected
use flexi_config_reader.Common.{
  ℕ, Text, List, [], ◌∷◌, Option, none, some, Bool, true, false, if◌then◌else◌,
}
use flexi_config_reader.Result.{Result, Run, ok, throw, ◌>>=◌, ◌>>>=◌, invalid_type, undefined}
use flexi_config_reader.Utils.{make_name}
use flexi_config_reader.Types.{
  Config, config_value, config_struct, config_proto, config_reference, ConfigType, k_number, Fields,
  end, field, type_of,
}
use flexi_config_reader.Elements.{list_element_valid, is_type}
use flexi_config_reader.Math.{Arithmetic}
use flexi_config_reader.Expressions.{Reading, evaluate_expression}
use flexi_config_reader.Store.{
  Links, Cell, cell_value, cell_list, cell_expression, cell_lookup, cell_struct, Cells, cell_at,
  surface, allocate, entry_at, write, relink,
}
use flexi_config_reader.Store.Load.{load_root}
use flexi_config_reader.Store.Follow.{keys_at, follow}

-- the node at an address: what of it can be read without following an address
unfoldable pub surface_at : Cells → ℕ → Result Config
unfolding surface
surface_at cells a = elim (cell_at cells a) [ none ↦ throw undefined | some c ↦ ok (surface c) ]

-- the `value_lookups` of an expression
unfoldable pub surfaces : Cells → Links → Result Fields
unfolding surface_at
surfaces cells [] = ok end
surfaces cells ((k, a) ∷ links) =
    surface_at cells a >>= λ v. surfaces cells links >>= λ f. ok (field k v f)

-- the cell of a new `ConfigValue`
unfoldable pub value_cell : Config → Result Cell
value_cell (config_value text t) = ok (cell_value text t)
value_cell v = throw undefined

module _ (arithmetic : Arithmetic) (reading : Reading arithmetic) where
  -- an expression is evaluated, which makes a new node; another node stands for itself
  unfoldable pub number_cell : Cells → ℕ → Cell → Result (Cells × ℕ)
  unfolding surfaces evaluate_expression value_cell
  number_cell cells a (cell_expression text links) = surfaces cells links >>= λ lookups.
      evaluate_expression arithmetic reading text lookups >>= λ v.
      value_cell v >>= λ c. ok (allocate c cells)
  number_cell cells a c = ok (cells, a)

  unfoldable pub number_at : Cells → ℕ → Result (Cells × ℕ)
  unfolding number_cell
  number_at cells a = elim (cell_at cells a) [
    | none ↦ throw undefined
    | some c ↦ number_cell cells a c
  ]

  -- The value must be a number to become that of a variable of the expression at `e`.
  unfoldable pub assign : ℕ → Text → Cells → ℕ → Result Cells
  unfolding surface_at type_of relink
  assign e k cells a = surface_at cells a >>= λ v.
      if is_type (type_of v) k_number then ok (relink e k a cells) else throw invalid_type

  -- one turn of the loop of `resolve_expression_vars`
  unfoldable pub resolve_variable : ℕ → Text → ℕ → Text → ℕ → Cells → Run Cells
  unfolding surface_at type_of keys_at follow number_at assign
  resolve_variable root src_key e k a cells = some (surface_at cells a) >>>= λ v.
      elim (is_type (type_of v) k_number) [
        | true ↦ some (ok cells)
        | false ↦ elim (keys_at cells a) [
          | none ↦ some (throw undefined)
          | some keys ↦ follow cells root src_key keys >>>= λ b.
              some (number_at cells b >>= λ r. assign e k r.0 r.1)
        ]
      ]

  -- `resolve_expression_vars` of the expression at `e`, with these entries. An entry changes in its own
  -- turn only.
  unfoldable pub resolve_expression : ℕ → Text → ℕ → Links → Cells → Run Cells
  unfolding resolve_variable
  resolve_expression root src_key e [] cells = some (ok cells)
  resolve_expression root src_key e ((k, a) ∷ links) cells =
      resolve_variable root src_key e k a cells >>>= λ cells'.
      resolve_expression root src_key e links cells'

  -- one element of a list of type `t`: the store, the list's type and the element afterwards
  unfoldable pub resolve_element :
      ℕ → Text → ConfigType → ℕ → Cells → Cell → Run (Cells × ConfigType × ℕ)
  unfolding follow surface_at list_element_valid type_of resolve_expression
  resolve_element root src_key t a cells (cell_lookup keys) =
      follow cells root src_key keys >>>= λ b. some (
        surface_at cells b >>= λ v.
        if (list_element_valid t (type_of v)).0
        then ok (cells, (list_element_valid t (type_of v)).1, b)
        else throw invalid_type)
  resolve_element root src_key t a cells (cell_expression text links) =
      resolve_expression root src_key a links cells >>>= λ cells'. some (ok (cells', t, a))
  resolve_element root src_key t a cells c = some (ok (cells, t, a))

  -- the loop over the elements of a list of type `t`
  unfoldable pub resolve_elements :
      ℕ → Text → ConfigType → List ℕ → Cells → Run (Cells × ConfigType × List ℕ)
  unfolding resolve_element
  resolve_elements root src_key t [] cells = some (ok (cells, t, []))
  resolve_elements root src_key t (a ∷ elements) cells = elim (cell_at cells a) [
    | none ↦ some (throw undefined)
    | some c ↦ resolve_element root src_key t a cells c >>>= λ r.
        resolve_elements root src_key r.1 elements r.0 >>>= λ q. some (ok (q.0, q.1, r.2 ∷ q.2))
  ]

  -- The list at `a`. Nothing reads it while the loop runs, so it is written once.
  unfoldable pub resolve_list : ℕ → Text → ConfigType → List ℕ → ℕ → Cells → Run Cells
  unfolding resolve_elements write
  resolve_list root src_key t elements a cells =
      resolve_elements root src_key t elements cells >>>= λ r.
      some (ok (write a (cell_list r.1 r.2) r.0))

  -- The branches for the node `c` at `a` that the entry `k` of the map at `s` holds; `inside` goes on
  -- below a struct-like.
  unfoldable pub resolve_node :
      ℕ → (ℕ → Cells → Run Cells) → ℕ → Text → Text → Cells → ℕ → Cell → Run Cells
  unfolding follow relink resolve_expression resolve_list
  resolve_node root inside s k src_key cells a (cell_lookup keys) =
      follow cells root src_key keys >>>= λ b. some (ok (relink s k b cells))
  resolve_node root inside s k src_key cells a (cell_expression text links) =
      resolve_expression root src_key a links cells
  resolve_node root inside s k src_key cells a (cell_list t elements) =
      resolve_list root src_key t elements a cells
  resolve_node root inside s k src_key cells a (cell_struct kind name depth links) = inside a cells
  resolve_node root inside s k src_key cells a c = some (ok cells)

  unfoldable pub resolve_at : ℕ → (ℕ → Cells → Run Cells) → ℕ → Text → Text → Cells → Run Cells
  unfolding entry_at resolve_node
  resolve_at root inside s k src_key cells = elim (entry_at cells s k) [
    | none ↦ some (throw undefined)
    | some a ↦ elim (cell_at cells a) [
      | none ↦ some (throw undefined)
      | some c ↦ resolve_node root inside s k src_key cells a c
    ]
  ]

  -- The loop over the map at `s`, which `load` made of a tree. The map keeps its keys, and an entry
  -- changes in its own turn only, so the loop goes into the structs that the tree has.
  unfoldable mutual
    unfolding resolve_at make_name

    pub resolve_tree : ℕ → Fields → ℕ → Text → Cells → Run Cells
    resolve_tree root end s parent_key cells = some (ok cells)
    resolve_tree root (field k v f) s parent_key cells =
        some (make_name parent_key k) >>>= λ src_key.
        resolve_entry root v s k src_key cells >>>= λ cells'.
        resolve_tree root f s parent_key cells'

    pub resolve_entry : ℕ → Config → ℕ → Text → Text → Cells → Run Cells
    resolve_entry root (config_struct t n d f) s k src_key cells =
        resolve_at root (λ a c. resolve_tree root f a src_key c) s k src_key cells
    resolve_entry root (config_proto n d f) s k src_key cells =
        resolve_at root (λ a c. resolve_tree root f a src_key c) s k src_key cells
    resolve_entry root (config_reference n p d r f) s k src_key cells =
        resolve_at root (λ a c. resolve_tree root f a src_key c) s k src_key cells
    resolve_entry root v s k src_key cells =
        resolve_at root (λ a c. some (throw undefined)) s k src_key cells

  -- `resolveVarRefs` of a whole tree: the store afterwards, and where its root is
  unfoldable pub resolve_root : Fields → Run (Cells × ℕ)
  unfolding resolve_tree load_root
  resolve_root cfg =
      resolve_tree (load_root cfg).1 cfg (load_root cfg).1 [] (load_root cfg).0 >>>= λ cells.
      some (ok (cells, (load_root cfg).1))
