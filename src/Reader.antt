-- ===== src/Reader.antt =====
-- `Reader` of src/config_reader.cpp and include/flexi_cfg/reader.h: the access to a resolved
-- configuration by dotted keys.
pub mod Existence
pub mod Arrays
pub mod Conversions
use Prim.Native.Char.{code}
use flexi_config_reader.Common.{
  ℕ, zero, suc, ◌+◌, Text, text_dec, codes, List, [], ◌∷◌, ◌++◌, Option, none, some, Bool, true,
  false, ite, if◌then◌else◌, is_some, length, ◌==◌,
}
use flexi_config_reader.Result.{
  Result, ok, throw, Exception, ◌>>=◌, ◌>>◌, throw_if, mismatch_type, invalid_key, invalid_type,
  plain, undefined,
}
use flexi_config_reader.Utils.{split, make_name}
use flexi_config_reader.Types.{
  Config, config_value, config_list, config_expression, config_struct, config_proto,
  config_reference, ConfigType, Items, nil, cons, Fields, end, field, k_number, k_boolean, k_string,
  k_list, k_expression, value_type, type_of, data_of, as_value,
}
use flexi_config_reader.Types.Map.{at, contains, keys}
use flexi_config_reader.Elements.{is_type}
use flexi_config_reader.Lookup.{back, get_nested_config, content_of, get_config_value}

pub record Reader : Type 0 where
  pub cfg_data : Fields
  pub parent_name : Text

-- the member `getNestedConfig`: the last key, and the map that should have it
unfoldable pub reader_nested_config : Reader → Text → Result (Text × Fields)
unfolding split get_nested_config content_of back
reader_nested_config reader key = do
  struct_like ← get_nested_config reader.cfg_data (split key b'.')
  elim (back (split key b'.')) [
    | none ↦ throw undefined
    | some k ↦ ok (k, content_of reader.cfg_data struct_like)
  ]

-- the `catch` clauses of `exists`
unfoldable pub catch_missing : Result Bool → Result Bool
catch_missing (throw invalid_key) = ok false
catch_missing (throw invalid_type) = ok false
catch_missing r = r

unfoldable pub exists : Reader → Text → Result Bool
unfolding reader_nested_config catch_missing
exists reader key =
    catch_missing (reader_nested_config reader key >>= λ found. ok (contains found.0 found.1))

unfoldable pub reader_keys : Reader → List Text
unfolding keys
reader_keys reader = keys reader.cfg_data

unfoldable pub get_type : Reader → Text → Result ConfigType
unfolding get_config_value split type_of
get_type reader key = get_config_value reader.cfg_data (split key b'.') >>= λ v. ok (type_of v)

-- `contains_key`: the roots so far, and those of a map
unfoldable mutual
  unfolding make_name text_dec

  pub structs_in : Text → Text → Fields → List Text → Result (List Text)
  structs_in key root end structs = ok structs
  structs_in key root (field k v f) structs =
      let found : List Text = ite (text_dec k key) (structs ++ root ∷ []) structs in
      structs_of key root k v found >>= λ structs'. structs_in key root f structs'

  pub structs_of : Text → Text → Text → Config → List Text → Result (List Text)
  structs_of key root k (config_struct t n d f) structs =
      make_name root k >>= λ name. structs_in key name f structs
  structs_of key root k (config_proto n d f) structs =
      make_name root k >>= λ name. structs_in key name f structs
  structs_of key root k (config_reference n p d r f) structs =
      make_name root k >>= λ name. structs_in key name f structs
  structs_of key root k v structs = ok structs

unfoldable pub find_structs_with_key : Reader → Text → Result (List Text)
unfolding structs_in
find_structs_with_key reader key = structs_in key [] reader.cfg_data []

-- `getValue` of a `Reader`
unfoldable pub get_reader : Reader → Text → Result Reader
unfolding get_config_value split data_of
get_reader reader key = do
  v ← get_config_value reader.cfg_data (split key b'.')
  elim (data_of v) [
    | none ↦ throw mismatch_type
    | some d ↦ ok (record { cfg_data = d; parent_name = key })
  ]

-- what `convert` does through the pointer
unfoldable pub convert : {A : Type 0} → (ConfigType → Text → Result A) → Config → Result A
unfolding as_value
convert read v = elim (as_value v) [ none ↦ throw undefined | some (t, text) ↦ read t text ]

-- `numericConversionHelper`, for a function that converts as `std::stoi` does: the number, and how many
-- characters it has read
unfoldable pub convert_number : {A : Type 0} → (Text → Result (A × ℕ)) → Config → Result A
unfolding convert
convert_number converter v =
    convert
      (λ t text.
        if is_type t k_number
        then (converter text >>= λ r. if r.1 == length text then ok r.0 else throw mismatch_type)
        else throw mismatch_type)
      v

-- the converter of `uint64_t`, around `std::stoull`; `str[0]` of an empty text is 0
unfoldable pub strict_stoull : {A : Type 0} → (Text → Result (A × ℕ)) → Text → Result (A × ℕ)
strict_stoull stoull [] = stoull []
strict_stoull stoull (c ∷ text) = if c == b'-' then throw mismatch_type else stoull (c ∷ text)

unfoldable pub convert_boolean : Config → Result Bool
unfolding convert text_dec
convert_boolean v =
    convert
      (λ t text.
        if is_type t k_boolean
        then ok (ite (text_dec text (codes "true")) true false)
        else throw mismatch_type)
      v

-- `std::remove` of the quotes
unfoldable pub remove_quotes : Text → Text
remove_quotes [] = []
remove_quotes (c ∷ s) = let rest = remove_quotes s in if c == b'"' then rest else c ∷ rest

unfoldable pub convert_string : Config → Result Text
unfolding convert remove_quotes
convert_string v =
    convert (λ t text. if is_type t k_string then ok (remove_quotes text) else throw mismatch_type)
      v

-- `data[i]`
unfoldable pub nth_item : ℕ → Items → Option Config
nth_item i nil = none
nth_item zero (cons e es) = some e
nth_item (suc i) (cons e es) = nth_item i es

-- `value[i] = a`
unfoldable pub set_elem : {A : Type 0} → ℕ → A → List A → List A
set_elem i a [] = []
set_elem zero a (x ∷ xs) = a ∷ xs
set_elem (suc i) a (x ∷ xs) = x ∷ set_elem i a xs

unfoldable pub filled : {A : Type 0} → ℕ → A → List A
filled zero a = []
filled (suc n) a = a ∷ filled n a

module _ {A : Type 0} (convert_element : Config → Result A) where
  unfoldable pub convert_items : Items → Result (List A)
  convert_items nil = ok []
  convert_items (cons e es) = do a ← convert_element e; rest ← convert_items es; ok (a ∷ rest)

  -- of a `std::vector`, which starts empty
  unfoldable pub convert_list : Config → Result (List A)
  unfolding convert_items as_value
  convert_list (config_list t es) = convert_items es
  convert_list v = elim (as_value v) [ none ↦ throw undefined | some _ ↦ throw invalid_type ]

  abbrev pub size_of : Items → ℕ
  size_of nil = zero
  size_of (cons e es) = suc (size_of es)

  -- the loop over the indices of a `std::array`, with how many are left
  unfoldable pub array_loop : ℕ → ℕ → Items → List A → Result (List A)
  unfolding nth_item set_elem
  array_loop zero i es value = ok value
  array_loop (suc left) i es value = elim (nth_item i es) [
    | none ↦ throw undefined
    | some e ↦ convert_element e >>= λ a. array_loop left (i + 1) es (set_elem i a value)
  ]

  -- of a `std::array` of `n` elements, which are `default` before
  unfoldable pub convert_array : A → ℕ → Config → Result (List A)
  unfolding array_loop filled as_value
  convert_array default n (config_list t es) =
      if size_of es == n then array_loop n 0 es (filled n default) else throw plain
  convert_array default n v = elim (as_value v) [
    | none ↦ throw undefined
    | some _ ↦ throw invalid_type
  ]

-- `getValue` of a plain type, with its `convert`
unfoldable pub get_value : {A : Type 0} → (Config → Result A) → Reader → Text → Result A
unfolding get_config_value split
get_value convert_to reader key = get_config_value reader.cfg_data (split key b'.') >>= convert_to

-- `getValue` of a vector or an array
unfoldable pub get_list : {A : Type 0} → (Config → Result A) → Reader → Text → Result A
unfolding get_config_value split type_of
get_list convert_to reader key = do
  v ← get_config_value reader.cfg_data (split key b'.')
  if is_type (type_of v) k_list then convert_to v else throw invalid_type
