-- ===== src/Elements.antt =====
-- `listElementValid` of src/config_helpers.cpp: the type that the elements of a list agree on.
use flexi_config_reader.Common.{Bool, true, false, ◌≡◌, ◌≢◌, ite, ◌||◌, if◌then◌else◌, arith, ◌⊎◌}
use flexi_config_reader.Types.{
  ConfigType, ConfigType-discrete, k_number, k_expression, k_value_lookup, k_var, k_unknown, Config,
  Items, nil, cons, type_of,
}

abbrev pub is_type : ConfigType → ConfigType → Bool
is_type t u = ite (ConfigType-discrete t u) true false

-- the answer, and `list->list_element_type` afterwards
unfoldable pub list_element_valid : ConfigType → ConfigType → Bool × ConfigType
list_element_valid list_type type =
    if is_type type k_var || is_type type k_value_lookup
    then (true, list_type)
    else if is_type type k_expression
    then (if is_type list_type k_unknown
        then (true, k_number)
        else if is_type list_type k_number
        then (true, list_type)
        else (false, list_type))
    else if is_type list_type k_unknown
    then (true, type)
    else if is_type list_type type
    then (true, list_type)
    else (false, list_type)

-- What may stand in a list of a type: what is found later, an expression among numbers, or that type.
abbrev pub Fits : ConfigType → ConfigType → Type 0
Fits t e =
    (e ≡ k_var)
    ⊎ ((e ≡ k_value_lookup)
        ⊎ (((e ≡ k_expression) × (t ≡ k_number)) ⊎ ((e ≢ k_expression) × (t ≡ e))))

abbrev pub AllFit : ConfigType → Items → Type 0
AllFit t nil = Unit
AllFit t (cons e es) = (type_of e ≢ k_unknown) × Fits t (type_of e) × AllFit t es

-- `data.push_back(e)`
unfoldable pub push_back : Items → Config → Items
push_back nil e = cons e nil
push_back (cons d es) e = cons d (push_back es e)

-- An element that is found valid may stand in a list of the type that the list has afterwards. One
-- that is not may not stand in it, and leaves the type as it was.
list_element_valid_lem :
    (t e : ConfigType)
    → ((list_element_valid t e).0 ≡ true → Fits (list_element_valid t e).1 e)
      × ((list_element_valid t e).0 ≡ false → ¬ Fits t e × ((list_element_valid t e).1 ≡ t))
unfolding list_element_valid
list_element_valid_lem t e =
    (λ h. ground (arith, h), λ h. (λ f. ground (arith, h, f), ground (arith, h)))

list_element_valid-Fits :
    (t e d : ConfigType) → d ≢ k_unknown → Fits t d → Fits (list_element_valid t e).1 d
unfolding list_element_valid
list_element_valid-Fits t e d n h = ground (arith, h, n)

push_back_one :
    (t : ConfigType) (es : Items) (e : Config)
    → AllFit t es
    → type_of e ≢ k_unknown
    → Fits t (type_of e)
    → AllFit t (push_back es e)
unfolding push_back
push_back_one t nil e h n f = (n, f, tt)
push_back_one t (cons d es) e h n f = (h.0, h.1, push_back_one t es e h.2 n f)

list_element_valid-all :
    (t e : ConfigType) (es : Items) → AllFit t es → AllFit (list_element_valid t e).1 es
list_element_valid-all t e nil h = tt
list_element_valid-all t e (cons d es) h =
    (h.0, list_element_valid-Fits t e (type_of d) h.0 h.1, list_element_valid-all t e es h.2)

-- A list whose elements fit its type still has elements that fit, where an element that is found valid
-- is put at its end; no node has the type `kUnknown`.
pub push_back-AllFit :
    (t : ConfigType) (es : Items) (e : Config)
    → AllFit t es
    → type_of e ≢ k_unknown
    → (list_element_valid t (type_of e)).0 ≡ true
    → AllFit (list_element_valid t (type_of e)).1 (push_back es e)
push_back-AllFit t es e h n v =
    push_back_one (list_element_valid t (type_of e)).1 es e
      (list_element_valid-all t (type_of e) es h) n ((list_element_valid_lem t (type_of e)).0 v)
