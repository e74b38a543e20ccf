-- ===== src/Visitor/Json.antt =====
-- `JsonVisitor` of include/flexi_cfg/visitor-json.h.
use Prim.Native.Nat.{◌%◌, ◌^◌}
use flexi_config_reader.Common.{
  ℕ, ◌+◌, ◌-◌, ℤ, Text, codes, [], ◌∷◌, ◌++◌, Bool, ◌==◌, ltb, if◌then◌else◌,
}
use flexi_config_reader.Visitor.{Visitor}

-- what `fmt::format` makes of a number and of a `bool`
pub record Format (Double : Type 0) : Type 0 where
  pub signed : ℤ → Text
  pub unsigned : ℕ → Text
  pub floating : Double → Text
  pub boolean : Bool → Text

-- `json_` and `struct_count_`, an `unsigned int`
pub record JsonState : Type 0 where
  pub json : Text
  pub struct_count : ℕ

abbrev pub comma : Text
comma = b',' ∷ []

-- `if (json_.back() == ',') json_.pop_back()`
unfoldable pub strip_comma : Text → Text
strip_comma [] = []
strip_comma (c ∷ []) = if c == b',' then [] else c ∷ []
strip_comma (c ∷ d ∷ s) = c ∷ strip_comma (d ∷ s)

-- `json_ += text`
abbrev pub add : Text → JsonState → JsonState
add text s = record s { json = s.json ++ text }

module _ {Double : Type 0} (format : Format Double) where
  unfoldable pub on_key : Text → JsonState → JsonState
  on_key k s = add (b'"' ∷ (k ++ codes "\":")) s

  unfoldable pub on_string : Text → JsonState → JsonState
  on_string v s = add (b'"' ∷ (v ++ codes "\",")) s

  -- a value that `fmt` formats
  unfoldable pub on_value : Text → JsonState → JsonState
  on_value text s = add (text ++ comma) s

  unfoldable pub begin_struct : JsonState → JsonState
  begin_struct s = record {
    json = s.json ++ codes "{";
    struct_count = (s.struct_count + 1) % 2 ^ 32;
  }

  unfoldable pub end_struct : JsonState → JsonState
  unfolding strip_comma
  end_struct s =
      let count = (s.struct_count + (2 ^ 32 - 1)) % 2 ^ 32 in
      record {
        json = strip_comma s.json ++ (codes "}" ++ (if ltb 0 count then comma else []));
        struct_count = count;
      }

  unfoldable pub begin_list : JsonState → JsonState
  begin_list s = add (codes "[") s

  unfoldable pub end_list : JsonState → JsonState
  unfolding strip_comma
  end_list s = record s { json = strip_comma s.json ++ codes "]," }

  abbrev pub json_visitor : Visitor Double
  json_visitor = record {
    State = JsonState;
    on_key = on_key;
    on_string = on_string;
    on_signed = λ i. on_value (format.signed i);
    on_unsigned = λ u. on_value (format.unsigned u);
    on_double = λ d. on_value (format.floating d);
    on_bool = λ b. on_value (format.boolean b);
    begin_struct = begin_struct;
    end_struct = end_struct;
    begin_list = begin_list;
    end_list = end_list;
  }
