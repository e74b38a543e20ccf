-- ===== src/Python/Described.antt =====
-- What `getValueGeneric` of python/flexi_cfg_py.cpp makes of a list, by what the elements are.
use mathlib.Core.List.{map}
use native.Mathlib.Decide.{ℕ_discrete}
use flexi_config_reader.Common.{
  ℕ, Text, text_dec, codes, List, [], ◌∷◌, true, false, ite, length, ◌==◌, ◌≡◌, refl, arith, ◌∙◌,
  ◌⊎◌, inl, inr,
}
use flexi_config_reader.Result.{Result, ok, throw, mismatch_type}
use flexi_config_reader.Utils.{split}
use flexi_config_reader.Types.{
  config_list, ConfigType, ValueType, of_value, of_string, of_number, of_boolean,
}
use flexi_config_reader.Lookup.{get_config_value}
use flexi_config_reader.Reader.{Reader, remove_quotes, strict_stoull}
use flexi_config_reader.Python.{Python, catch_mismatch, get_value_generic}
use flexi_config_reader.Python.Lists.{
  values, read_all, whole, listed, list_of, get_value_generic-list_of,
}

-- the text of a negative number
abbrev pub IsNegative : Text → Type 0
IsNegative [] = ⊥
IsNegative (c ∷ text) = c ≡ b'-'

-- the conversion reads the texts as these numbers, each to its end
abbrev pub AreRead : {A : Type 0} → (Text → Result (A × ℕ)) → List Text → List A → Type 0
AreRead converter [] [] = Unit
AreRead converter (text ∷ texts) (n ∷ ns) =
    (converter text ≡ ok (n, length text)) × AreRead converter texts ns
AreRead converter _ _ = ⊥

-- The first texts are read to their ends, and then there is one at which the conversion stops before
-- its end, or that is of the kind that it is not given.
abbrev pub Stops : {A : Type 0} → (Text → Type 0) → (Text → Result (A × ℕ)) → List Text → Type 0
Stops {A} Refused converter [] = ⊥
Stops {A} Refused converter (text ∷ texts) =
    (Refused text
      ⊎ ((n : A) × (k : ℕ) × (converter text ≡ ok (n, k)) × ((k == length text) ≡ false)))
    ⊎ ((n : A) × (converter text ≡ ok (n, length text)) × Stops Refused converter texts)

abbrev pub NoneNegative : List Text → Type 0
NoneNegative [] = Unit
NoneNegative (text ∷ texts) = ¬ IsNegative text × NoneNegative texts

abbrev Never : Text → Type 0
Never text = ⊥

whole_read :
    {A Object : Type 0} (converter : Text → Result (A × ℕ)) (cast : A → Object) (text : Text)
    (n : A)
    → converter text ≡ ok (n, length text)
    → whole converter cast text ≡ ok (cast n)
unfolding whole
whole_read converter cast text n e =
    let all : (length text == length text) ≡ true = ground arith in rw e (rw all refl)

read_all-AreRead :
    {A Object : Type 0} (converter : Text → Result (A × ℕ)) (cast : A → Object) (texts : List Text)
    (ns : List A)
    → AreRead converter texts ns
    → read_all (whole converter cast) texts ≡ ok (map cast ns)
unfolding read_all
read_all-AreRead converter cast [] [] h = refl
read_all-AreRead converter cast [] (n ∷ ns) h = absurd h
read_all-AreRead converter cast (text ∷ texts) [] h = absurd h
read_all-AreRead converter cast (text ∷ texts) (n ∷ ns) h =
    let rest = read_all-AreRead converter cast texts ns h.1 in
    rw (whole_read converter cast text n h.0, rest) refl

read_all-Stops :
    {A Object : Type 0} (Refused : Text → Type 0) (converter : Text → Result (A × ℕ))
    (cast : A → Object)
    → ((text : Text) → Refused text → converter text ≡ throw mismatch_type)
    → (texts : List Text) → Stops Refused converter texts
    → read_all (whole converter cast) texts ≡ throw mismatch_type
unfolding read_all whole
read_all-Stops Refused converter cast wrong [] h = absurd h
read_all-Stops Refused converter cast wrong (text ∷ texts) (inl (inl bad)) =
    rw (wrong text bad, whole) refl
read_all-Stops Refused converter cast wrong (text ∷ texts) (inl (inr (n, k, e, short))) =
    rw (e, whole) (rw short refl)
read_all-Stops Refused converter cast wrong (text ∷ texts) (inr (n, e, later)) =
    let rest = read_all-Stops Refused converter cast wrong texts later in
    rw (whole_read converter cast text n e, rest) refl

strict-negative :
    {A : Type 0} (stoull : Text → Result (A × ℕ)) (text : Text)
    → IsNegative text
    → strict_stoull stoull text ≡ throw mismatch_type
unfolding strict_stoull
strict-negative stoull [] h = absurd h
strict-negative stoull (c ∷ text) h = ground (arith, h)

strict-other :
    {A : Type 0} (stoull : Text → Result (A × ℕ)) (text : Text)
    → ¬ IsNegative text
    → strict_stoull stoull text ≡ stoull text
unfolding strict_stoull
strict-other stoull [] h = refl
strict-other stoull (c ∷ text) h = ground (arith, h)

strict-AreRead :
    {A : Type 0} (stoull : Text → Result (A × ℕ)) (texts : List Text) (ns : List A)
    → NoneNegative texts
    → AreRead stoull texts ns
    → AreRead (strict_stoull stoull) texts ns
strict-AreRead stoull [] [] p h = tt
strict-AreRead stoull [] (n ∷ ns) p h = absurd h
strict-AreRead stoull (text ∷ texts) [] p h = absurd h
strict-AreRead stoull (text ∷ texts) (n ∷ ns) p h =
    (strict-other stoull text p.0 ∙ h.0, strict-AreRead stoull texts ns p.1 h.1)

negative_dec : (text : Text) → Dec (IsNegative text)
negative_dec [] = no (λ h. h)
negative_dec (c ∷ text) = ℕ_discrete c b'-'

strict-Stops :
    {A : Type 0} (stoull : Text → Result (A × ℕ)) (texts : List Text)
    → Stops IsNegative stoull texts
    → Stops IsNegative (strict_stoull stoull) texts
strict-Stops stoull [] h = absurd h
strict-Stops stoull (text ∷ texts) h = elim (negative_dec text) [
  | yes negative ↦ inl (inl negative)
  | no other ↦ elim h [
    | inl (inl negative) ↦ inl (inl negative)
    | inl (inr (n, k, e, short)) ↦ inl (inr (n, k, strict-other stoull text other ∙ e, short))
    | inr (n, e, later) ↦
        inr (n, strict-other stoull text other ∙ e, strict-Stops stoull texts later)
  ]
]

module _ {Unsigned Signed Double Object : Type 0}
    (python : Python Unsigned Signed Double Object) where
  -- The objects of the elements of a list. Numbers are of the first of the types `uint64_t`, `int64_t`
  -- and `double` that reads all of them to their ends; the types before it stop at one of them.
  unfoldable pub AreObjects : ValueType → List Text → List Object → Type 0
  unfolding remove_quotes text_dec
  AreObjects of_string texts objects =
      objects ≡ map (λ text. python.cast_string (remove_quotes text)) texts
  AreObjects of_boolean texts objects =
      objects
      ≡ map (λ text. python.cast_boolean (ite (text_dec text (codes "true")) true false)) texts
  AreObjects of_number texts objects =
      ((ns : List Unsigned) × NoneNegative texts
        × AreRead python.stoull texts ns
        × (objects ≡ map python.cast_unsigned ns))
      ⊎ (Stops IsNegative python.stoull texts
          × (((ns : List Signed) × AreRead python.stoll texts ns
                × (objects ≡ map python.cast_signed ns))
              ⊎ (Stops Never python.stoll texts
                  × ((ns : List Double) × AreRead python.stod texts ns
                      × (objects ≡ map python.cast_double ns)))))
  AreObjects of_value texts objects = ⊥

  listed-AreRead :
      {A : Type 0} (converter : Text → Result (A × ℕ)) (cast : A → Object) (texts : List Text)
      (ns : List A) (objects : List Object)
      → AreRead converter texts ns
      → objects ≡ map cast ns
      → listed python (whole converter cast) texts ≡ ok (python.list objects)
  unfolding listed
  listed-AreRead converter cast texts ns objects h same =
      rw (read_all-AreRead converter cast texts ns h, same) refl

  listed-Stops :
      {A : Type 0} (Refused : Text → Type 0) (converter : Text → Result (A × ℕ)) (cast : A → Object)
      (texts : List Text)
      → ((text : Text) → Refused text → converter text ≡ throw mismatch_type)
      → Stops Refused converter texts
      → listed python (whole converter cast) texts ≡ throw mismatch_type
  unfolding listed
  listed-Stops Refused converter cast texts wrong h =
      rw (read_all-Stops Refused converter cast wrong texts h) refl

  list_of-AreObjects :
      (kind : ValueType) (texts : List Text) (objects : List Object)
      → AreObjects kind texts objects
      → list_of python kind texts ≡ ok (python.list objects)
  unfolding list_of AreObjects catch_mismatch
  list_of-AreObjects of_string texts objects h = rw h refl
  list_of-AreObjects of_boolean texts objects h = rw h refl
  list_of-AreObjects of_value texts objects h = absurd h
  list_of-AreObjects of_number texts objects (inl (ns, positive, read, same)) =
      rw
        (listed-AreRead (strict_stoull python.stoull) python.cast_unsigned texts ns objects
          (strict-AreRead python.stoull texts ns positive read) same)
        refl
  list_of-AreObjects of_number texts objects (inr (stops, inl (ns, read, same))) =
      rw
        (
          listed-Stops IsNegative (strict_stoull python.stoull) python.cast_unsigned texts
              (strict-negative python.stoull) (strict-Stops python.stoull texts stops),
          listed-AreRead python.stoll python.cast_signed texts ns objects read same,
        )
        refl
  list_of-AreObjects of_number texts objects (inr (stops, inr (stops', (ns, read, same)))) =
      rw
        (
          listed-Stops IsNegative (strict_stoull python.stoull) python.cast_unsigned texts
              (strict-negative python.stoull) (strict-Stops python.stoull texts stops),
          listed-Stops Never python.stoll python.cast_signed texts (λ text h. absurd h) stops',
          listed-AreRead python.stod python.cast_double texts ns objects read same,
        )
        refl

  -- Where `getConfigValue` finds at a key a list that is not empty, of plain values of one type, and the
  -- elements have these objects, `getValueGeneric` returns the list of the objects: of strings without
  -- their quotes, of truth values, or of numbers of the first type that reads all of them to their ends,
  -- where the types before it stop before the end of one (or at a `-`, for `uint64_t`) without an error
  -- of the conversion.
  pub get_value_generic-AreObjects :
      (reader : Reader) (key : Text) (t : ConfigType) (kind : ValueType) (text : Text)
      (texts : List Text) (objects : List Object)
      → get_config_value reader.cfg_data (split key b'.')
        ≡ ok (config_list t (values kind (text ∷ texts)))
      → AreObjects kind (text ∷ texts) objects
      → get_value_generic python reader key ≡ ok (python.list objects)
  get_value_generic-AreObjects reader key t kind text texts objects found h =
      get_value_generic-list_of python reader key t kind text texts found
      ∙ list_of-AreObjects kind (text ∷ texts) objects h
