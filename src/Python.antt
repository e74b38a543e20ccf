-- ===== src/Python.antt =====
-- `getValueGeneric` and `ReaderCfgMapAccessor` of python/flexi_cfg_py.cpp: the value at a key as an
-- object of Python, whatever its type is.
pub mod Lists
pub mod Described
use flexi_config_reader.Common.{ℕ, Text, List, [], ◌∷◌, Option, none, some, Bool, if◌then◌else◌}
use flexi_config_reader.Result.{
  Result, ok, throw, Exception, ◌>>=◌, mismatch_type, invalid_type, undefined,
}
use flexi_config_reader.Utils.{split}
use flexi_config_reader.Types.{
  Config, config_value, config_list, config_expression, Items, nil, cons, ConfigType, k_string,
  k_boolean, k_number, k_list, k_struct, type_of, as_value,
}
use flexi_config_reader.Elements.{is_type}
use flexi_config_reader.Lookup.{get_config_value}
use flexi_config_reader.Reader.{
  Reader, get_type, get_value, get_reader, convert_string, convert_boolean, convert_number,
  strict_stoull,
}

-- What is used of the standard library and of pybind11: the conversions of texts to numbers, each with
-- how many characters it has read, `py::cast` at each type, and a `py::list` of the objects appended to
-- it. They are parameters, as are the types of the numbers and of the objects.
pub record Python (Unsigned Signed Double Object : Type 0) : Type 0 where
  pub stoull : Text → Result (Unsigned × ℕ)
  pub stoll : Text → Result (Signed × ℕ)
  pub stod : Text → Result (Double × ℕ)
  pub cast_string : Text → Object
  pub cast_boolean : Bool → Object
  pub cast_unsigned : Unsigned → Object
  pub cast_signed : Signed → Object
  pub cast_double : Double → Object
  pub cast_reader : Reader → Object
  pub list : List Object → Object

-- the statements `try` with a `catch` of `MismatchTypeException`
unfoldable pub catch_mismatch : {A : Type 0} → Result A → Result A → Result A
catch_mismatch (throw mismatch_type) next = next
catch_mismatch result next = result

-- `listBuilder`, which is given how an element that is no list is converted
unfoldable mutual
  pub build_list :
      {Object : Type 0}
      → (List Object → Object)
      → (Config → Result Object)
      → Items
      → Result (List Object)
  build_list list read nil = ok []
  build_list list read (cons e es) = do
    object ← build_element list read e
    objects ← build_list list read es
    ok (object ∷ objects)

  pub build_element :
      {Object : Type 0} → (List Object → Object) → (Config → Result Object) → Config → Result Object
  build_element list read (config_list t es) =
      build_list list read es >>= λ objects. ok (list objects)
  build_element list read e = read e

unfoldable pub list_builder :
    {Object : Type 0} → (List Object → Object) → (Config → Result Object) → Config → Result Object
unfolding build_list as_value
list_builder list read (config_list t es) = build_list list read es >>= λ objects. ok (list objects)
list_builder list read v = elim (as_value v) [
  | none ↦ throw undefined
  | some _ ↦ throw invalid_type
]

-- `getList`
unfoldable pub get_python_list :
    {Object : Type 0}
    → (List Object → Object)
    → (Config → Result Object)
    → Reader
    → Text
    → Result Object
unfolding get_config_value split type_of list_builder
get_python_list list read reader key = do
  v ← get_config_value reader.cfg_data (split key b'.')
  if is_type (type_of v) k_list then list_builder list read v else throw invalid_type

module _ {Unsigned Signed Double Object : Type 0}
    (python : Python Unsigned Signed Double Object) where
  -- `convert` at each type, and the object of the value
  unfoldable pub read_string : Config → Result Object
  unfolding convert_string
  read_string v = convert_string v >>= λ text. ok (python.cast_string text)

  unfoldable pub read_boolean : Config → Result Object
  unfolding convert_boolean
  read_boolean v = convert_boolean v >>= λ b. ok (python.cast_boolean b)

  unfoldable pub read_unsigned : Config → Result Object
  unfolding convert_number strict_stoull
  read_unsigned v =
      convert_number (strict_stoull python.stoull) v >>= λ n. ok (python.cast_unsigned n)

  unfoldable pub read_signed : Config → Result Object
  unfolding convert_number
  read_signed v = convert_number python.stoll v >>= λ n. ok (python.cast_signed n)

  unfoldable pub read_double : Config → Result Object
  unfolding convert_number
  read_double v = convert_number python.stod v >>= λ x. ok (python.cast_double x)

  -- the branches of `getValueGeneric`
  unfoldable pub get_value_of : ConfigType → Reader → Text → Result Object
  unfolding get_value get_python_list get_reader catch_mismatch read_string read_boolean
      read_unsigned read_signed read_double
  get_value_of k_string reader key = get_value read_string reader key
  get_value_of k_boolean reader key = get_value read_boolean reader key
  get_value_of k_number reader key =
      catch_mismatch (get_value read_unsigned reader key)
        (catch_mismatch (get_value read_signed reader key) (get_value read_double reader key))
  get_value_of k_list reader key =
      catch_mismatch (get_python_list python.list read_string reader key) (
        catch_mismatch (get_python_list python.list read_boolean reader key) (
          catch_mismatch (get_python_list python.list read_unsigned reader key) (
            catch_mismatch (get_python_list python.list read_signed reader key)
              (get_python_list python.list read_double reader key))))
  get_value_of k_struct reader key = get_reader reader key >>= λ r. ok (python.cast_reader r)
  get_value_of t reader key = throw invalid_type

  unfoldable pub get_value_generic : Reader → Text → Result Object
  unfolding get_type get_value_of
  get_value_generic reader key = get_type reader key >>= λ t. get_value_of t reader key
