-- ===== src/Tests/Objects.antt =====
-- Values that Python is given.
use flexi_config_reader.Common.{
  inl, inr, ℕ, Text, codes, [], ◌∷◌, List, Bool, true, ◌≡◌, refl, text_dec, length,
}
use flexi_config_reader.Result.{ok}
use flexi_config_reader.Types
use flexi_config_reader.Types.{
  Config, config_value, config_list, of_number, of_string, of_boolean, k_number, k_boolean, k_list,
  cons, nil, Fields, end, field,
}
use flexi_config_reader.Types.Map.{at}
use flexi_config_reader.Utils.{split}
use flexi_config_reader.Lookup.{get_config_value}
use flexi_config_reader.Reader.{Reader}
use flexi_config_reader.Python.{Python, get_value_generic}
use flexi_config_reader.Python.Lists.{values}
use flexi_config_reader.Python.Described.{AreObjects, get_value_generic-AreObjects}

-- some objects of Python
data Object : Type 0 where
  str : Text → Object
  truth : Bool → Object
  int : ℕ → Object
  map_of : Reader → Object
  list_start : Object
  append : Object → Object → Object

abbrev list_object : List Object → Object
list_object [] = list_start
list_object (o ∷ os) = append o (list_object os)

-- every text reads as 7, and `stoull` alone stops before its end
abbrev python : Python ℕ ℕ ℕ Object
python = record {
  stoull = λ text. ok (7, 0);
  stoll = λ text. ok (7, length text);
  stod = λ text. ok (7, length text);
  cast_string = str;
  cast_boolean = truth;
  cast_unsigned = int;
  cast_signed = int;
  cast_double = int;
  cast_reader = map_of;
  list = list_object;
}

-- `l = [-3, 4]`, `n = -3` and `m = [[true]]`
abbrev reader : Reader
reader = record {
  cfg_data =
      field (codes "l")
        (config_list k_number (
          cons (config_value (codes "-3") of_number)
            (cons (config_value (codes "4") of_number) nil)))
        (field (codes "n") (config_value (codes "-3") of_number) (
          field (codes "m")
            (config_list k_list (
              cons (config_list k_boolean (cons (config_value (codes "true") of_boolean) nil)) nil))
            end));
  parent_name = [];
}

get_value_generic-AreObjects_example :
    get_value_generic python reader (codes "l") ≡ ok (list_object (int 7 ∷ int 7 ∷ []))
unfolding at get_config_value split text_dec values AreObjects
get_value_generic-AreObjects_example =
    get_value_generic-AreObjects python reader (codes "l") k_number of_number (codes "-3")
      (codes "4" ∷ []) (int 7 ∷ int 7 ∷ []) refl
      (inr (inl (inl refl), inl (7 ∷ 7 ∷ [], (refl, (refl, tt)), refl)))

number_test : get_value_generic python reader (codes "n") ≡ ok (int 7)
unfolding get_value_generic text_dec Types.ConfigType-discrete at
number_test = refl

list_test :
    get_value_generic python reader (codes "l") ≡ ok (append (int 7) (append (int 7) list_start))
unfolding get_value_generic text_dec Types.ConfigType-discrete at
list_test = refl

nested_test :
    get_value_generic python reader (codes "m")
    ≡ ok (append (append (truth true) list_start) list_start)
unfolding get_value_generic text_dec Types.ConfigType-discrete at
nested_test = refl
