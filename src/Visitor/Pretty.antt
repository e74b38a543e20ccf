-- ===== src/Visitor/Pretty.antt =====
-- `PrettyJsonVisitor` of include/flexi_cfg/visitor-json.h.
pub mod Printer
pub mod Printed
use Prim.Native.Nat.{◌%◌, ◌^◌}
use flexi_config_reader.Common.{
  ℕ, zero, suc, ◌+◌, ◌-◌, ◌*◌, Text, codes, List, [], ◌∷◌, ◌++◌, ◌&&◌, ◌==◌, ltb, if◌then◌else◌,
}
use flexi_config_reader.Visitor.{Visitor}
use flexi_config_reader.Visitor.Json.{Format}

-- `json_`, `indent_` and `nest_count_`, an `unsigned int`
pub record PrettyState : Type 0 where
  pub json : Text
  pub indent : Text
  pub nest_count : ℕ

-- `std::string(n, ' ')`
unfoldable pub spaces : ℕ → Text
spaces zero = []
spaces (suc n) = b' ' ∷ spaces n

unfoldable pub update_indent : PrettyState → PrettyState
unfolding spaces
update_indent s = record s { indent = spaces (s.nest_count * 2 % 2 ^ 32) }

abbrev pub line_end : Text
line_end = codes "\n"

abbrev pub comma_end : Text
comma_end = codes ",\n"

-- `if (json_.ends_with(",\n"))`, with the two `pop_back` and the `push_back`
unfoldable pub strip_line : Text → Text
strip_line [] = []
strip_line (c ∷ []) = c ∷ []
strip_line (c ∷ d ∷ []) = if c == b',' && d == b'\n' then d ∷ [] else c ∷ d ∷ []
strip_line (c ∷ d ∷ e ∷ s) = c ∷ strip_line (d ∷ e ∷ s)

module _ {Double : Type 0} (format : Format Double) where
  unfoldable pub on_key : Text → PrettyState → PrettyState
  unfolding update_indent
  on_key k s =
      let s' = update_indent s in
      record s' {
        json = s'.json ++ (s'.indent ++ (b'"' ∷ (k ++ codes "\" :")));
        indent = codes " ";
      }

  -- a value that `fmt` formats, or a string with its quotes
  unfoldable pub on_value : Text → PrettyState → PrettyState
  on_value text s = record s { json = s.json ++ (s.indent ++ (text ++ comma_end)) }

  -- `beginStruct` and `beginList`, which differ in the bracket
  unfoldable pub begin : Text → PrettyState → PrettyState
  unfolding update_indent
  begin bracket s = update_indent (record s {
    json = s.json ++ (s.indent ++ (bracket ++ line_end));
    nest_count = (s.nest_count + 1) % 2 ^ 32;
  })

  -- what the two ends have in common
  unfoldable pub leave : PrettyState → PrettyState
  unfolding strip_line update_indent
  leave s =
      update_indent
        (record s { json = strip_line s.json; nest_count = (s.nest_count + (2 ^ 32 - 1)) % 2 ^ 32 })

  unfoldable pub end_struct : PrettyState → PrettyState
  unfolding leave
  end_struct s =
      let s' = leave s in
      record s' {
        json =
            s'.json
            ++ (s'.indent ++ (codes "}" ++ (if ltb 0 s'.nest_count then comma_end else line_end)));
      }

  unfoldable pub end_list : PrettyState → PrettyState
  unfolding leave
  end_list s =
      let s' = leave s in record s' { json = s'.json ++ (s'.indent ++ (codes "]" ++ comma_end)) }

  abbrev pub pretty_visitor : Visitor Double
  pretty_visitor = record {
    State = PrettyState;
    on_key = on_key;
    on_string = λ v. on_value (b'"' ∷ (v ++ codes "\""));
    on_signed = λ i. on_value (format.signed i);
    on_unsigned = λ u. on_value (format.unsigned u);
    on_double = λ d. on_value (format.floating d);
    on_bool = λ b. on_value (format.boolean b);
    begin_struct = begin (codes "{");
    end_struct = end_struct;
    begin_list = begin (codes "[");
    end_list = end_list;
  }
