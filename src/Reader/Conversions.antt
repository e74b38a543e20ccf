-- ===== src/Reader/Conversions.antt =====
-- What a value that `getValue` returns says of the node that was read.
use flexi_config_reader.Common.{
  ℕ, suc, Text, List, ◌∷◌, ◌≡◌, refl, arith, ap, ◌∙◌, length, ◌==◌, Bool-cases, inl, inr,
}
use flexi_config_reader.Result.{Result, ok, >>=-eq-ok}
use flexi_config_reader.Utils.{split}
use flexi_config_reader.Types.{
  Config, config_value, config_list, config_expression, of_number, of_value, of_string, of_boolean,
  ConfigType-discrete, k_number, k_list, Items, nil, cons, type_of, as_value,
}
use flexi_config_reader.Elements.{is_type}
use flexi_config_reader.Lookup.{get_config_value}
use flexi_config_reader.Reader.Arrays.{array_loop-convert_items}
use flexi_config_reader.Reader.{
  Reader, get_type, get_value, get_list, convert, convert_number, convert_items, convert_list,
  convert_array, size_of,
}

length-convert_items :
    {A : Type 0} (convert_element : Config → Result A) (es : Items) (xs : List A)
    → convert_items convert_element es ≡ ok xs
    → length xs ≡ size_of convert_element es
unfolding convert_items
length-convert_items convert_element nil xs e = ground arith
length-convert_items convert_element (cons c cs) xs e =
    let (a, one, later) = >>=-eq-ok (convert_element c) _ e in
    let (rest, all, out) = >>=-eq-ok (convert_items convert_element cs) _ later in
    let shape : xs ≡ a ∷ rest = cc in
    rw shape (ap suc (length-convert_items convert_element cs rest all))

-- An array of `n` values has been read from a list of `n` elements, and a vector that is read from it
-- has the same values.
convert_array-convert_list :
    {A : Type 0} (convert_element : Config → Result A) (default : A) (n : ℕ) (v : Config)
    (xs : List A)
    → convert_array convert_element default n v ≡ ok xs
    → (length xs ≡ n) × (convert_list convert_element v ≡ ok xs)
unfolding convert_array convert_list as_value
convert_array-convert_list convert_element default n (config_list t es) xs e =
    elim (Bool-cases (size_of convert_element es == n)) [
      | inl same ↦
          let read : convert_items convert_element es ≡ ok xs =
            ground (arith, e, same, array_loop-convert_items convert_element es default) in
          (length-convert_items convert_element es xs read ∙ ground (arith, same), read)
      | inr other ↦ absurd (ground (arith, e, other))
    ]
convert_array-convert_list convert_element default n (config_value text t) xs e = cc
convert_array-convert_list convert_element default n (config_expression text t) xs e = cc
convert_array-convert_list convert_element default n v xs e = cc

-- Where `getValue` reads an array of `n` elements, they are `n` values, and `getValue` of a vector reads
-- the same ones.
pub get_list-array :
    {A : Type 0} (convert_element : Config → Result A) (default : A) (n : ℕ) (reader : Reader)
    (key : Text) (xs : List A)
    → get_list (convert_array convert_element default n) reader key ≡ ok xs
    → (length xs ≡ n) × (get_list (convert_list convert_element) reader key ≡ ok xs)
unfolding get_list
get_list-array convert_element default n reader key xs e =
    let (v, found, later) = >>=-eq-ok (get_config_value reader.cfg_data (split key b'.')) _ e in
    elim (Bool-cases (is_type (type_of v) k_list)) [
      | inl list ↦
          let (size, read) =
            convert_array-convert_list convert_element default n v xs
              (ground (arith, later, list)) in
          (size, rw (found, get_list) (rw list read))
      | inr other ↦ absurd (ground (arith, later, other))
    ]

convert_number_lem :
    {A : Type 0} (converter : Text → Result (A × ℕ)) (v : Config) (a : A)
    → convert_number converter v ≡ ok a
    → (text : Text) × (v ≡ config_value text of_number) × (converter text ≡ ok (a, length text))
unfolding convert_number convert as_value ConfigType-discrete
convert_number_lem converter (config_value text of_number) a e =
    let (r, read, later) = >>=-eq-ok (converter text) _ e in
    elim (Bool-cases (r.1 == length text)) [
      | inl all ↦
          let value : r.0 ≡ a = ground (arith, later, all) in
          let count : r.1 ≡ length text = ground (arith, all) in
          (text, refl, read ∙ ap ok (ap (λ x. (x, r.1)) value ∙ ap (λ n. (a, n)) count))
      | inr some_left ↦ absurd (ground (arith, later, some_left))
    ]
convert_number_lem converter (config_value text of_value) a e = cc
convert_number_lem converter (config_value text of_string) a e = cc
convert_number_lem converter (config_value text of_boolean) a e = cc
convert_number_lem converter (config_list t es) a e = cc
convert_number_lem converter (config_expression text t) a e = cc
convert_number_lem converter v a e = cc

-- Where `getValue` reads a number, `getType` of the key is `kNumber`, and the conversion has used the
-- value's whole text.
pub get_value-get_type :
    {A : Type 0} (converter : Text → Result (A × ℕ)) (reader : Reader) (key : Text) (a : A)
    → get_value (convert_number converter) reader key ≡ ok a
    → (get_type reader key ≡ ok k_number)
      × ((text : Text) × (get_config_value reader.cfg_data (split key b'.')
            ≡ ok (config_value text of_number))
          × (converter text ≡ ok (a, length text)))
unfolding get_value get_type type_of
get_value-get_type converter reader key a e =
    let (v, found, later) = >>=-eq-ok (get_config_value reader.cfg_data (split key b'.')) _ e in
    let (text, shape, read) = convert_number_lem converter v a later in
    let there : get_config_value reader.cfg_data (split key b'.')
        ≡ ok (config_value text of_number) =
      found ∙ ap ok shape in
    (rw (there, get_type) refl, (text, there, read))
