-- ===== src/Visitor.antt =====
-- `visitValue` and `visitStruct` of include/flexi_cfg/visitor-internal.h, for a visitor that takes every
-- call of include/flexi_cfg/visitor.h.
pub mod Json
pub mod Printed
pub mod Pretty
use flexi_config_reader.Common.{ℕ, ℤ, Text, List, [], ◌∷◌, Bool, ◌==◌, if◌then◌else◌}

-- What `value_any` holds of the types that are tried: one of the signed and of the unsigned integer
-- types, one of the floating types, or a `bool`.
pub data Any (Double : Type 0) : Type 0 where
  any_signed : ℤ → Any Double
  any_unsigned : ℕ → Any Double
  any_floating : Double → Any Double
  any_bool : Bool → Any Double
  any_other : Any Double

-- What the visit reads of a node, by the node's type: the text of a string, `value_any` of a number and
-- of a boolean, and the content of a struct and of a list. Any other node is not handled.
mutual
  pub data Node (Double : Type 0) : Type 0 where
    string_node : Text → Node Double
    number_node : Any Double → Node Double
    boolean_node : Any Double → Node Double
    struct_node : Entries Double → Node Double
    list_node : Nodes Double → Node Double
    other_node : Node Double

  pub data Nodes (Double : Type 0) : Type 0 where
    none_left : Nodes Double
    next : Node Double → Nodes Double → Nodes Double

  pub data Entries (Double : Type 0) : Type 0 where
    no_entry : Entries Double
    entry : Text → Node Double → Entries Double → Entries Double

-- the visitor's calls, as functions of its state
pub record Visitor (Double : Type 0) : Type 1 where
  pub State : Type 0
  pub on_key : Text → State → State
  pub on_string : Text → State → State
  pub on_signed : ℤ → State → State
  pub on_unsigned : ℕ → State → State
  pub on_double : Double → State → State
  pub on_bool : Bool → State → State
  pub begin_struct : State → State
  pub end_struct : State → State
  pub begin_list : State → State
  pub end_list : State → State

-- `std::remove` of the double quotes
unfoldable pub without_quotes : Text → Text
without_quotes [] = []
without_quotes (c ∷ s) = let rest = without_quotes s in if c == b'"' then rest else c ∷ rest

module _ {Double : Type 0} (visitor : Visitor Double) where
  open visitor use {
    State, on_key, on_string, on_signed, on_unsigned, on_double, on_bool, begin_struct, end_struct,
    begin_list, end_list,
  }

  -- the case `kBoolean`, which a number that no type fits falls into; nothing fits after it
  unfoldable pub visit_boolean : Any Double → State → State
  visit_boolean (any_bool b) s = on_bool b s
  visit_boolean _ s = s

  -- the case `kNumber`
  unfoldable pub visit_number : Any Double → State → State
  unfolding visit_boolean
  visit_number (any_signed i) s = on_signed i s
  visit_number (any_unsigned u) s = on_unsigned u s
  visit_number (any_floating d) s = on_double d s
  visit_number any s = visit_boolean any s

  -- The keys of a map are distinct, so `cfg.at(key)` is the value of the entry.
  unfoldable mutual
    unfolding visit_number visit_boolean without_quotes

    pub visit_value : Node Double → State → State
    visit_value (string_node text) s = on_string (without_quotes text) s
    visit_value (number_node any) s = visit_number any s
    visit_value (boolean_node any) s = visit_boolean any s
    visit_value (struct_node entries) s = end_struct (visit_entries entries (begin_struct s))
    visit_value (list_node nodes) s = end_list (visit_nodes nodes (begin_list s))
    visit_value other_node s = s

    pub visit_nodes : Nodes Double → State → State
    visit_nodes none_left s = s
    visit_nodes (next v vs) s = visit_nodes vs (visit_value v s)

    pub visit_entries : Entries Double → State → State
    visit_entries no_entry s = s
    visit_entries (entry k v es) s = visit_entries es (visit_value v (on_key k s))

  unfoldable pub visit_struct : Entries Double → State → State
  unfolding visit_entries
  visit_struct cfg s = end_struct (visit_entries cfg (begin_struct s))
