-- ===== src/Resolution/Protos.antt =====
-- The protos that `resolveConfig` finds are no deeper than the files.
use flexi_config_reader.Common.{ℕ, zero, suc, Text, List, [], ◌∷◌, arith}
use flexi_config_reader.Types.{
  Config, config_value, config_list, config_expression, config_value_lookup, config_var,
  config_struct, config_proto, config_reference, Fields, end, field,
}
use flexi_config_reader.Parser.{full_name, flatten_and_find_protos, flatten_entry}
use flexi_config_reader.References.Low.{Low, LowEntry, Low-mono, Low-set_sorted}
use flexi_config_reader.Resolution.{flatten_all, find_protos}

mutual
  unfolding flatten_and_find_protos Low

  flatten_and_find_protos-Low :
      (n : ℕ) (f : Fields) (base_name : Text) (found : Fields × Fields)
      → Low n f
      → Low n found.1
      → Low n (flatten_and_find_protos f base_name found).1
  flatten_and_find_protos-Low n end base_name found h g = g
  flatten_and_find_protos-Low n (field k v f) base_name found h g =
      let name = full_name base_name k in
      flatten_and_find_protos-Low n f base_name (flatten_entry v name found) h.1
        (flatten_entry-Low n v name found h.0 g)

  flatten_entry-Low :
      (n : ℕ) (v : Config) (name : Text) (found : Fields × Fields)
      → LowEntry n v
      → Low n found.1
      → Low n (flatten_entry v name found).1
  flatten_entry-Low zero (config_struct t m d f) name found h g = absurd h
  flatten_entry-Low zero (config_reference m p d r f) name found h g = absurd h
  flatten_entry-Low zero (config_proto m d f) name found h g = absurd h
  flatten_entry-Low (suc n) (config_struct t m d f) name found h g =
      flatten_and_find_protos-Low (suc n) f name found (Low-mono n (suc n) f (omega arith) h) g
  flatten_entry-Low (suc n) (config_reference m p d r f) name found h g =
      flatten_and_find_protos-Low (suc n) f name found (Low-mono n (suc n) f (omega arith) h.1) g
  flatten_entry-Low (suc n) (config_proto m d f) name found h g =
      flatten_and_find_protos-Low (suc n) f name _ (Low-mono n (suc n) f (omega arith) h)
        (Low-set_sorted (suc n) name (config_proto m d f) found.1 h g)
  flatten_entry-Low n (config_value _ _) name found h g = g
  flatten_entry-Low n (config_list _ _) name found h g = g
  flatten_entry-Low n (config_expression _ _) name found h g = g
  flatten_entry-Low n (config_value_lookup _) name found h g = g
  flatten_entry-Low n (config_var _) name found h g = g

-- each of the maps is no deeper than the bound
abbrev pub AllLow : ℕ → List Fields → Type 0
AllLow n [] = Unit
AllLow n (f ∷ cfg_res) = Low n f × AllLow n cfg_res

flatten_all-Low :
    (n : ℕ) (cfg_res : List Fields) (found : Fields × Fields)
    → AllLow n cfg_res
    → Low n found.1
    → Low n (flatten_all cfg_res found).1
unfolding flatten_all
flatten_all-Low n [] found h g = g
flatten_all-Low n (e ∷ cfg_res) found h g =
    flatten_all-Low n cfg_res (flatten_and_find_protos e [] found) h.1
      (flatten_and_find_protos-Low n e [] found h.0 g)

pub find_protos-Low :
    (depth : ℕ) (cfg_res : List Fields)
    → AllLow depth cfg_res
    → Low (suc depth) (find_protos cfg_res)
unfolding find_protos Low
find_protos-Low depth cfg_res h =
    Low-mono depth (suc depth) (find_protos cfg_res) (omega arith)
      (flatten_all-Low depth cfg_res (end, end) h tt)
