-- ===== src/Actions/Values.antt =====
-- The actions of keys and of plain values.
use flexi_config_reader.Common.{
  ℕ, zero, suc, Text, text_dec, codes, List, [], ◌∷◌, none, some, Bool, true, false, if◌then◌else◌,
  ltb, ite, length, decrement,
}
use flexi_config_reader.Result.{Result, ok, throw, ◌>>◌, logic_error, undefined}
use flexi_config_reader.Utils.{split, trim, remove_sub_str}
use flexi_config_reader.Types.{
  config_value, config_expression, config_value_lookup, config_var, of_string, of_number,
  of_boolean, end, k_value, type_of,
}
use flexi_config_reader.Elements.{is_type}
use flexi_config_reader.Types.Map.{set}
use flexi_config_reader.Actions.{ActionData, IncludeData}

-- What `std::stoull` to the base 16, `std::stod` and `std::stoi` do with a text: the number goes into
-- `value_any` and is left out here, but they throw where it is out of range.
pub record Conversions : Type 0 where
  pub stoull : Text → Result (Unit {0})
  pub stod : Text → Result (Unit {0})
  pub stoi : Text → Result (Unit {0})

unfoldable pub on_key : Text → ActionData → Result ActionData
on_key text out = ok (record out { keys = text ∷ out.keys; is_override = false })

unfoldable pub on_override : ActionData → Result ActionData
on_override out = ok (record out { is_override = true })

-- `VALUE`, which sets only the line and the source of the value
unfoldable pub on_value : ActionData → Result ActionData
unfolding type_of
on_value out = elim out.obj_res [
  | none ↦ throw logic_error
  | some v ↦ if is_type (type_of v) k_value then throw logic_error else ok out
]

module _ (library : Conversions) where
  unfoldable pub on_hex : Text → ActionData → Result ActionData
  on_hex text out =
      library.stoull text >> ok (record out { obj_res = some (config_value text of_number) })

  unfoldable pub on_float : Text → ActionData → Result ActionData
  on_float text out =
      library.stod text >> ok (record out { obj_res = some (config_value text of_number) })

  unfoldable pub on_integer : Text → ActionData → Result ActionData
  on_integer text out =
      library.stoi text >> ok (record out { obj_res = some (config_value text of_number) })

unfoldable pub on_string : Text → ActionData → Result ActionData
on_string text out = ok (record out { obj_res = some (config_value text of_string) })

-- `TRUE` and `FALSE`
unfoldable pub on_boolean : Text → ActionData → Result ActionData
on_boolean text out = ok (record out { obj_res = some (config_value text of_boolean) })

-- `Eo`
unfoldable pub on_expression_open : ActionData → Result ActionData
on_expression_open out = ok (record out { value_lookups = end })

unfoldable pub on_expression : Text → ActionData → Result ActionData
on_expression text out =
    ok (record out {
      obj_res = some (config_expression text out.value_lookups);
      value_lookups = end;
    })

unfoldable pub on_var : Text → ActionData → Result ActionData
on_var text out = ok (record out { result = text; obj_res = some (config_var text) })

-- the loop of `FLAT_KEY`, which pops a key for each of its parts
unfoldable pub pop_keys : ℕ → List Text → List Text
pop_keys zero keys = keys
pop_keys (suc n) [] = []
pop_keys (suc n) (k ∷ keys) = pop_keys n keys

-- `FLAT_KEY`; the `assert` is left out
unfoldable pub on_flat_key : Text → ActionData → Result ActionData
unfolding split pop_keys
on_flat_key text out =
    let parts = split text b'.' in
    if ltb (length out.keys) (length parts)
    then ok out
    else ok
        (record out { keys = pop_keys (length parts) out.keys; flat_keys = text ∷ out.flat_keys })

-- the loop of `VALUE_LOOKUP`, from the last part: a key that is the part is popped
unfoldable pub consume : List Text → List Text → List Text
unfolding text_dec
consume [] keys = keys
consume (part ∷ parts) keys = elim (consume parts keys) [
  | [] ↦ []
  | key ∷ rest ↦ ite (text_dec key part) rest (key ∷ rest)
]

unfoldable pub on_value_lookup : Text → ActionData → Result ActionData
unfolding trim remove_sub_str split consume set
on_value_lookup text out =
    let var_ref = trim (remove_sub_str text (codes "$(")) (codes ")") in
    let lookup = config_value_lookup (split var_ref b'.') in
    ok (record out {
      keys = consume (split var_ref b'.') out.keys;
      obj_res = some lookup;
      value_lookups = set var_ref lookup out.value_lookups;
    })

-- the attributes of an include
unfoldable pub on_include : Bool → ActionData → Result ActionData
on_include relative out = ok (record out {
  include_pending =
      some (record { file = []; is_optional = false; is_once = false; is_relative = relative });
})

-- `assert(out.include_pending.has_value())`
unfoldable pub pending : (IncludeData → IncludeData) → ActionData → Result ActionData
pending f out = elim out.include_pending [
  | none ↦ throw undefined
  | some i ↦ ok (record out { include_pending = some (f i) })
]

unfoldable pub on_filename : Text → ActionData → Result ActionData
unfolding pending
on_filename text out = pending (λ i. record i { file = text }) out

unfoldable pub on_optional : ActionData → Result ActionData
unfolding pending
on_optional out = pending (λ i. record i { is_optional = true }) out

unfoldable pub on_once : ActionData → Result ActionData
unfolding pending
on_once out = pending (λ i. record i { is_once = true }) out

-- `CBc`
unfoldable pub on_close : ActionData → Result ActionData
unfolding decrement
on_close out = ok (record out { depth = decrement out.depth })
