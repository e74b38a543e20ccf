-- ===== src/Tests/Visits.antt =====
-- A map that is printed.
use flexi_config_reader.Common.{◌++◌, ℕ, codes, [], true, ◌≡◌, arith, if◌then◌else◌, pos}
use flexi_config_reader.Visitor.{
  Entries, no_entry, entry, number_node, boolean_node, list_node, struct_node, string_node, next,
  none_left, any_signed, any_bool, visit_struct,
}
use flexi_config_reader.Visitor.Pretty.{pretty_visitor, line_end}
use flexi_config_reader.Visitor.Pretty.Printer as Printer
use flexi_config_reader.Visitor.Pretty.Printed as Pretty
use flexi_config_reader.Visitor.Json.{Format, json_visitor}
use flexi_config_reader.Visitor.Printed.{HandledMembers, print, state, visit_struct-print}

-- natural numbers in place of `double`, and a digit for each number
abbrev format : Format ℕ
format = record {
  signed = λ i. codes "1";
  unsigned = λ u. codes "1";
  floating = λ d. codes "1";
  boolean = λ b. if b then codes "true" else codes "false";
}

-- `{"a":[1,{}],"b":true,"c":"s"}`
abbrev config : Entries ℕ
config =
    entry (codes "a")
      (list_node (next (number_node (any_signed (pos 1))) (next (struct_node no_entry) none_left)))
      (entry (codes "b") (boolean_node (any_bool true))
        (entry (codes "c") (string_node (codes "\"s\"")) no_entry))

config-HandledMembers : HandledMembers format 1 config
unfolding HandledMembers
config-HandledMembers = ((tt, (tt, tt)), (tt, (tt, tt)))

visit_struct-print_example :
    visit_struct (json_visitor format) config (state format [] 0)
    ≡ state format (print format (struct_node config)) 0
visit_struct-print_example = visit_struct-print format 1 config config-HandledMembers (omega arith)

config-MembersWithin : Printer.MembersWithin format 2 config
unfolding Printer.MembersWithin
config-MembersWithin = ((tt, (tt, tt)), (tt, (tt, tt)))

visit_struct-pretty_example :
    visit_struct (pretty_visitor format) config (Pretty.state format [] [] 0)
    ≡ Pretty.state format (Printer.pretty format 0 (struct_node config) ++ line_end) [] 0
visit_struct-pretty_example =
    Pretty.visit_struct-pretty format 2 config config-MembersWithin (omega arith)
