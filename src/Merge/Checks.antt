-- ===== src/Merge/Checks.antt =====
-- Which pairs of entries `checkForErrors` lets through, and which maps.
use flexi_config_reader.Common.{
  Text, text_dec, List, [], ◌∷◌, some, Bool, true, ◌&&◌, ite, has, if◌then◌else◌, ◌≡◌, refl, arith,
  ◌∙◌, ap,
}
use flexi_config_reader.Result.{ok, throw, duplicate_key, mismatch_key, mismatch_type, >>=-eq-ok}
use flexi_config_reader.Types.{
  ConfigType-discrete, Config, Fields, end, field, type_of, is_struct_like,
}
use flexi_config_reader.Types.Map.{at, contains, keys}
use flexi_config_reader.Merge.{
  check_values, check_for_errors, at_or_throw, insert_key, sort_keys, common_keys, check_keys,
  check_common,
}

-- Two entries of one key may be merged exactly if both are struct-like and of one type; two plain
-- values are a duplicate, a plain value beside a struct is a mismatch of keys, and two struct-like
-- entries of different types are a mismatch of types.
pub check_values_lem :
    (v w : Config)
    → check_values v w ≡ (
        if is_struct_like v
        then (if is_struct_like w
            then ite (ConfigType-discrete (type_of v) (type_of w)) (ok true) (throw mismatch_type)
            else throw mismatch_key)
        else (if is_struct_like w then throw mismatch_key else throw duplicate_key))
unfolding check_values
check_values_lem v w = ground arith

has-insert_key :
    (q k : Text) (ks : List Text) → has text_dec q (insert_key k ks) ≡ has text_dec q (k ∷ ks)
unfolding insert_key has
has-insert_key q k [] = refl
has-insert_key q k (j ∷ ks) = ground (arith, has-insert_key q k ks)

has-sort_keys : (q : Text) (ks : List Text) → has text_dec q (sort_keys ks) ≡ has text_dec q ks
unfolding sort_keys has
has-sort_keys q [] = refl
has-sort_keys q (k ∷ ks) =
    has-insert_key q k (sort_keys ks) ∙ ap (ite (text_dec q k) true) (has-sort_keys q ks)

has-common_keys :
    (q : Text) (ks : List Text) (g : Fields)
    → has text_dec q (common_keys ks g) ≡ (has text_dec q ks && contains q g)
unfolding common_keys has
has-common_keys q [] g = refl
has-common_keys q (k ∷ ks) g = ground (arith, has-common_keys q ks g)

has-keys : (q : Text) (f : Fields) → has text_dec q (keys f) ≡ contains q f
unfolding keys has at
has-keys q end = refl
has-keys q (field k v f) = ground (arith, has-keys q f)

check_keys_at :
    (f g : Fields) (ks : List Text) (k : Text)
    → check_keys f g ks ≡ ok tt
    → has text_dec k ks ≡ true
    → (b : Bool) × (check_for_errors f g k ≡ ok b)
unfolding check_keys has
check_keys_at f g [] k e h = absurd (ground arith)
check_keys_at f g (j ∷ ks) k e h =
    let (b, first, rest) = >>=-eq-ok (check_for_errors f g j) (λ _. check_keys f g ks) e in
    elim (text_dec k j) [
      | yes p ↦ (b, rw p first)
      | no n ↦ check_keys_at f g ks k rest (ground arith)
    ]

allowed :
    (v w : Config)
    → check_values v w ≡ ok true
    → (is_struct_like v ≡ true) × (is_struct_like w ≡ true) × (type_of v ≡ type_of w)
unfolding is_struct_like type_of
allowed v w e = elim (ConfigType-discrete (type_of v) (type_of w)) [
  | yes same ↦
      (ground (arith, e, check_values_lem v w), ground (arith, e, check_values_lem v w), same)
  | no other ↦ absurd (ground (arith, e, check_values_lem v w, other))
]

-- Maps that pass the check agree on every common key: both entries are struct-like, of one type.
pub check_common-agree :
    (f g : Fields) (k : Text) (v w : Config)
    → check_common f g ≡ ok tt
    → at k f ≡ some v
    → at k g ≡ some w
    → (is_struct_like v ≡ true) × (is_struct_like w ≡ true) × (type_of v ≡ type_of w)
unfolding check_common check_for_errors at_or_throw
check_common-agree f g k v w e p q =
    let ks = common_keys (sort_keys (keys f)) g in
    let there : has text_dec k ks ≡ true =
      ground
        (arith, has-common_keys k (sort_keys (keys f)) g, has-sort_keys k (keys f), has-keys k f) in
    let (b, checked) = check_keys_at f g ks k e there in
    allowed v w (ground (arith, checked, check_values_lem v w))
