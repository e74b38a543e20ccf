-- ===== src/Python/Lists.antt =====
-- What `getValueGeneric` of python/flexi_cfg_py.cpp reads a list of plain values as.
use mathlib.Core.List.{map}
use flexi_config_reader.Common.{
  ℕ, Text, text_dec, codes, List, [], ◌∷◌, Bool, true, false, ite, if◌then◌else◌, length, ◌==◌, ◌≡◌,
  refl, ap, ◌∙◌,
}
use flexi_config_reader.Result.{Result, ok, throw, ◌>>=◌, mismatch_type}
use flexi_config_reader.Utils.{split}
use flexi_config_reader.Types.{
  Config, ConfigType-discrete, config_value, config_list, Items, nil, cons, ConfigType, k_string,
  k_boolean, k_list, ValueType, of_value, of_string, of_number, of_boolean, type_of, as_value,
  value_type,
}
use flexi_config_reader.Elements.{is_type}
use flexi_config_reader.Lookup.{get_config_value}
use flexi_config_reader.Reader.{
  Reader, get_type, convert, convert_string, convert_boolean, convert_number, remove_quotes,
  strict_stoull,
}
use flexi_config_reader.Python.{
  Python, catch_mismatch, build_list, list_builder, get_python_list, read_string, read_boolean,
  read_unsigned, read_signed, read_double, get_value_of, get_value_generic,
}

-- a list of values of one type, by their texts
unfoldable pub values : ValueType → List Text → Items
values kind [] = nil
values kind (text ∷ texts) = cons (config_value text kind) (values kind texts)

-- the objects of all texts, or the first exception
unfoldable pub read_all :
    {Object : Type 0} → (Text → Result Object) → List Text → Result (List Object)
read_all read [] = ok []
read_all read (text ∷ texts) = do
  object ← read text
  objects ← read_all read texts
  ok (object ∷ objects)

-- a number that is the whole text
unfoldable pub whole :
    {A Object : Type 0} → (Text → Result (A × ℕ)) → (A → Object) → Text → Result Object
whole converter cast text =
    converter text >>= λ r. if r.1 == length text then ok (cast r.0) else throw mismatch_type

module _ {Unsigned Signed Double Object : Type 0}
    (python : Python Unsigned Signed Double Object) where
  unfoldable pub listed : (Text → Result Object) → List Text → Result Object
  unfolding read_all
  listed read texts = read_all read texts >>= λ objects. ok (python.list objects)

  -- what a list of values of one type is read as: strings without their quotes, truth values, or the
  -- first of the three types of number that reads all of them
  unfoldable pub list_of : ValueType → List Text → Result Object
  unfolding listed whole strict_stoull remove_quotes text_dec catch_mismatch
  list_of of_string texts =
      ok (python.list (map (λ text. python.cast_string (remove_quotes text)) texts))
  list_of of_boolean texts = ok (
      python.list
        (map (λ text. python.cast_boolean (ite (text_dec text (codes "true")) true false)) texts))
  list_of of_number texts =
      catch_mismatch (listed (whole (strict_stoull python.stoull) python.cast_unsigned) texts) (
        catch_mismatch (listed (whole python.stoll python.cast_signed) texts)
          (listed (whole python.stod python.cast_double) texts))
  list_of of_value texts = throw mismatch_type

read_all-map :
    {Object : Type 0} (object : Text → Object) (texts : List Text)
    → read_all (λ text. ok (object text)) texts ≡ ok (map object texts)
unfolding read_all
read_all-map object [] = refl
read_all-map object (text ∷ texts) = rw (read_all-map object texts) refl

build_list-read_all :
    {Object : Type 0} (list : List Object → Object) (read : Config → Result Object)
    (read_text : Text → Result Object) (kind : ValueType) (texts : List Text)
    → ((text : Text) → read (config_value text kind) ≡ read_text text)
    → build_list list read (values kind texts) ≡ read_all read_text texts
unfolding build_list read_all values
build_list-read_all list read read_text kind [] same = refl
build_list-read_all list read read_text kind (text ∷ texts) same =
    rw (same text, build_list-read_all list read read_text kind texts same) refl

whole_step :
    {A Object : Type 0} (cast : A → Object) (text : Text) (read : Result (A × ℕ))
    → ((read >>= λ r. if r.1 == length text then ok r.0 else throw mismatch_type) >>= λ a.
        ok (cast a))
      ≡ (read >>= λ r. if r.1 == length text then ok (cast r.0) else throw mismatch_type)
whole_step cast text (throw e) = refl
whole_step cast text (ok r) = chosen (r.1 == length text)
  where
    chosen :
        (test : Bool)
        → ((if test then ok r.0 else throw mismatch_type) >>= λ a. ok (cast a))
          ≡ (if test then ok (cast r.0) else throw mismatch_type)
    chosen true = refl
    chosen false = refl

convert_number-whole :
    {A Object : Type 0} (converter : Text → Result (A × ℕ)) (cast : A → Object) (text : Text)
    → (convert_number converter (config_value text of_number) >>= λ a. ok (cast a))
      ≡ whole converter cast text
unfolding convert_number convert as_value whole ConfigType-discrete
convert_number-whole converter cast text = whole_step cast text (converter text)

module _ {Unsigned Signed Double Object : Type 0}
    (python : Python Unsigned Signed Double Object) where
  get_python_list-listed :
      (read : Config → Result Object) (read_text : Text → Result Object) (reader : Reader)
      (key : Text) (t : ConfigType) (kind : ValueType) (texts : List Text)
      → get_config_value reader.cfg_data (split key b'.') ≡ ok (config_list t (values kind texts))
      → ((text : Text) → read (config_value text kind) ≡ read_text text)
      → get_python_list python.list read reader key ≡ listed python read_text texts
  unfolding get_python_list list_builder listed type_of ConfigType-discrete
  get_python_list-listed read read_text reader key t kind texts found same =
      rw (found, build_list-read_all python.list read read_text kind texts same) refl

  refused :
      (read : Config → Result Object) (reader : Reader) (key : Text) (t : ConfigType)
      (kind : ValueType) (text : Text) (texts : List Text)
      → get_config_value reader.cfg_data (split key b'.')
        ≡ ok (config_list t (values kind (text ∷ texts)))
      → ((other : Text) → read (config_value other kind) ≡ throw mismatch_type)
      → get_python_list python.list read reader key ≡ throw mismatch_type
  unfolding listed read_all
  refused read reader key t kind text texts found wrong =
      get_python_list-listed read (λ _. throw mismatch_type) reader key t kind (text ∷ texts) found
        wrong

  not_string :
      (kind : ValueType)
      → is_type (value_type kind) k_string ≡ false
      → (text : Text) → read_string python (config_value text kind) ≡ throw mismatch_type
  unfolding read_string convert_string convert as_value
  not_string kind wrong text = rw wrong refl

  not_boolean :
      (kind : ValueType)
      → is_type (value_type kind) k_boolean ≡ false
      → (text : Text) → read_boolean python (config_value text kind) ≡ throw mismatch_type
  unfolding read_boolean convert_boolean convert as_value
  not_boolean kind wrong text = rw wrong refl

  not_number :
      {A : Type 0} (converter : Text → Result (A × ℕ)) (cast : A → Object) (text : Text)
      → (convert_number converter (config_value text of_value) >>= λ a. ok (cast a))
        ≡ throw mismatch_type
  unfolding convert_number convert as_value ConfigType-discrete
  not_number converter cast text = refl

  as_strings :
      (reader : Reader) (key : Text) (t : ConfigType) (texts : List Text)
      → get_config_value reader.cfg_data (split key b'.')
        ≡ ok (config_list t (values of_string texts))
      → get_python_list python.list (read_string python) reader key
        ≡ ok (python.list (map (λ text. python.cast_string (remove_quotes text)) texts))
  unfolding listed read_string convert_string convert as_value ConfigType-discrete
  as_strings reader key t texts found =
      let read : Text → Result Object = λ text. ok (python.cast_string (remove_quotes text)) in
      get_python_list-listed (read_string python) read reader key t of_string texts found
        (λ _. refl)
      ∙ ap (λ all. all >>= λ objects. ok (python.list objects))
          (read_all-map (λ text. python.cast_string (remove_quotes text)) texts)

  as_booleans :
      (reader : Reader) (key : Text) (t : ConfigType) (texts : List Text)
      → get_config_value reader.cfg_data (split key b'.')
        ≡ ok (config_list t (values of_boolean texts))
      → get_python_list python.list (read_boolean python) reader key
        ≡ ok (
            python.list (
              map
                (λ text. python.cast_boolean (ite (text_dec text (codes "true")) true false))
                texts))
  unfolding listed read_boolean convert_boolean convert as_value ConfigType-discrete
  as_booleans reader key t texts found =
      let object : Text → Object =
        λ text. python.cast_boolean (ite (text_dec text (codes "true")) true false) in
      get_python_list-listed (read_boolean python) (λ text. ok (object text)) reader key t
        of_boolean texts found (λ _. refl)
      ∙ ap (λ all. all >>= λ objects. ok (python.list objects)) (read_all-map object texts)

  -- the readings of a list, one after the other
  list_branch :
      (reader : Reader) (key : Text) (t : ConfigType) (es : Items)
      → get_config_value reader.cfg_data (split key b'.') ≡ ok (config_list t es)
      → get_value_generic python reader key ≡ get_value_of python k_list reader key
  unfolding get_value_generic get_type type_of
  list_branch reader key t es found =
      ap
        (λ result. (result >>= λ v. ok (type_of v)) >>= λ type. get_value_of python type reader key)
        found

  as_numbers :
      {A : Type 0} (read : Config → Result Object) (converter : Text → Result (A × ℕ))
      (cast : A → Object) (reader : Reader) (key : Text) (t : ConfigType) (texts : List Text)
      → get_config_value reader.cfg_data (split key b'.')
        ≡ ok (config_list t (values of_number texts))
      → ((text : Text) → read (config_value text of_number) ≡ whole converter cast text)
      → get_python_list python.list read reader key ≡ listed python (whole converter cast) texts
  as_numbers read converter cast reader key t texts found same =
      get_python_list-listed read (whole converter cast) reader key t of_number texts found same

  -- a list of values of one type is read as `list_of` says
  pub get_value_generic-list_of :
      (reader : Reader) (key : Text) (t : ConfigType) (kind : ValueType) (text : Text)
      (texts : List Text)
      → get_config_value reader.cfg_data (split key b'.')
        ≡ ok (config_list t (values kind (text ∷ texts)))
      → get_value_generic python reader key ≡ list_of python kind (text ∷ texts)
  unfolding get_value_of list_of catch_mismatch read_unsigned read_signed read_double
      ConfigType-discrete
  get_value_generic-list_of reader key t of_string text texts found =
      rw (list_branch reader key t _ found, as_strings reader key t (text ∷ texts) found) refl
  get_value_generic-list_of reader key t of_boolean text texts found =
      rw
        (
          list_branch reader key t _ found,
          refused (read_string python) reader key t of_boolean text texts found
              (not_string of_boolean refl),
          as_booleans reader key t (text ∷ texts) found,
        )
        refl
  get_value_generic-list_of reader key t of_number text texts found =
      rw
        (
          list_branch reader key t _ found,
          refused (read_string python) reader key t of_number text texts found
              (not_string of_number refl),
          refused (read_boolean python) reader key t of_number text texts found
              (not_boolean of_number refl),
          as_numbers (read_unsigned python) (strict_stoull python.stoull) python.cast_unsigned
              reader key t (text ∷ texts) found (convert_number-whole _ _),
          as_numbers (read_signed python) python.stoll python.cast_signed reader key t
              (text ∷ texts) found (convert_number-whole _ _),
          as_numbers (read_double python) python.stod python.cast_double reader key t (text ∷ texts)
              found (convert_number-whole _ _),
        )
        refl
  get_value_generic-list_of reader key t of_value text texts found =
      rw
        (
          list_branch reader key t _ found,
          refused (read_string python) reader key t of_value text texts found
              (not_string of_value refl),
          refused (read_boolean python) reader key t of_value text texts found
              (not_boolean of_value refl),
          refused (read_unsigned python) reader key t of_value text texts found
              (not_number (strict_stoull python.stoull) python.cast_unsigned),
          refused (read_signed python) reader key t of_value text texts found
              (not_number python.stoll python.cast_signed),
          refused (read_double python) reader key t of_value text texts found
              (not_number python.stod python.cast_double),
        )
        refl
