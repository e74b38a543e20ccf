-- ===== src/Tests/Reads.antt =====
-- Values that are read.
use flexi_config_reader.Common.{ℕ, Text, codes, [], ◌∷◌, ◌≡◌, refl, text_dec, length}
use flexi_config_reader.Result.{Result, ok}
use flexi_config_reader.Utils.{split}
use flexi_config_reader.Types
use flexi_config_reader.Types.{
  Config, config_value, config_list, of_number, k_number, cons, nil, Fields, end, field,
}
use flexi_config_reader.Types.Map.{at}
use flexi_config_reader.Lookup.{get_config_value}
use flexi_config_reader.Reader.{
  Reader, get_type, get_value, get_list, convert_number, convert_list, convert_array,
}
use flexi_config_reader.Reader.Conversions.{get_list-array, get_value-get_type}

-- `n = 12` and `l = [12]`
abbrev reader : Reader
reader = record {
  cfg_data = field (codes "n") (config_value (codes "12") of_number) (
      field (codes "l") (config_list k_number (cons (config_value (codes "12") of_number) nil))
        end);
  parent_name = [];
}

-- every text reads as 7, to its end
abbrev converter : Text → Result (ℕ × ℕ)
converter text = ok (7, length text)

get_list-array_example :
    (length {A = ℕ} (7 ∷ []) ≡ 1)
    × (get_list (convert_list (convert_number converter)) reader (codes "l") ≡ ok (7 ∷ []))
unfolding get_list convert_array convert_number text_dec Types.ConfigType-discrete at
get_list-array_example =
    get_list-array (convert_number converter) 0 1 reader (codes "l") (7 ∷ []) refl

get_value-get_type_example :
    (get_type reader (codes "n") ≡ ok k_number)
    × ((text : Text) × (get_config_value reader.cfg_data (split (codes "n") b'.')
          ≡ ok (config_value text of_number))
        × (converter text ≡ ok (7, length text)))
unfolding get_value convert_number text_dec Types.ConfigType-discrete at
get_value-get_type_example = get_value-get_type converter reader (codes "n") 7 refl
