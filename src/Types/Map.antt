-- ===== src/Types/Map.antt =====
-- The operations of `CfgMap` and `RefMap` that the program calls, on their entries.
use flexi_config_reader.Common.{
  Text, text_dec, List, [], ◌∷◌, Option, none, some, Bool, true, false, ◌≡◌, refl, ite, arith,
  is_some, ltb, if◌then◌else◌,
}
use flexi_config_reader.Assoc
use flexi_config_reader.Types.{Config, Fields, end, field}

unfoldable pub at : Text → Fields → Option Config
at k end = none
at k (field j v f) = ite (text_dec k j) (some v) (at k f)

abbrev pub contains : Text → Fields → Bool
contains k f = is_some (at k f)

-- `f[k] = v`
unfoldable pub set : Text → Config → Fields → Fields
set k v end = field k v end
set k v (field j w f) = ite (text_dec k j) (field j v f) (field j w (set k v f))

-- `f.insert({k, v})`
unfoldable pub insert : Text → Config → Fields → Fields
insert k v end = field k v end
insert k v (field j w f) = ite (text_dec k j) (field j w f) (field j w (insert k v f))

unfoldable pub erase : Text → Fields → Fields
erase k end = end
erase k (field j w f) = ite (text_dec k j) (erase k f) (field j w (erase k f))

unfoldable pub is_empty : Fields → Bool
is_empty end = true
is_empty (field k v f) = false

unfoldable pub keys : Fields → List Text
keys end = []
keys (field k v f) = k ∷ keys f

-- `std::copy(begin(g), end(g), std::inserter(f, end(f)))`
unfoldable pub insert_all : Fields → Fields → Fields
unfolding insert
insert_all f end = f
insert_all f (field k v g) = insert_all (insert k v f) g

-- the order of `std::string`
unfoldable pub text_less : Text → Text → Bool
text_less s [] = false
text_less [] (d ∷ t) = true
text_less (c ∷ s) (d ∷ t) = if ltb c d then true else if ltb d c then false else text_less s t

-- a new key goes before the first greater one
unfoldable pub place_sorted : Text → Config → Fields → Fields
place_sorted k v end = field k v end
place_sorted k v (field j w f) =
    if text_less k j then field k v (field j w f) else field j w (place_sorted k v f)

-- `m.insert({k, v})` of `std::map`
unfoldable pub insert_sorted : Text → Config → Fields → Fields
unfolding text_less place_sorted
insert_sorted k v f = if contains k f then f else place_sorted k v f

-- `m[k] = v` of `std::map`
unfoldable pub set_sorted : Text → Config → Fields → Fields
unfolding text_less place_sorted
set_sorted k v f = if contains k f then set k v f else place_sorted k v f

-- `std::copy` into a `std::map`
unfoldable pub insert_all_sorted : Fields → Fields → Fields
unfolding insert_sorted
insert_all_sorted f end = f
insert_all_sorted f (field k v g) = insert_all_sorted (insert_sorted k v f) g

-- the entries as pairs
unfoldable pub to_list : Fields → List (Text × Config)
to_list end = []
to_list (field k v f) = (k, v) ∷ to_list f

pub at-set :
    (q k : Text) (v : Config) (f : Fields) → at q (set k v f) ≡ ite (text_dec q k) (some v) (at q f)
unfolding at set
at-set q k v end = refl
at-set q k v (field j w f) = ground (arith, at-set q k v f)

pub at-insert :
    (q k : Text) (v : Config) (f : Fields)
    → at q (insert k v f)
      ≡ elim (at q f) [ none ↦ ite (text_dec q k) (some v) none | some w ↦ some w ]
unfolding at insert
at-insert q k v end = refl
at-insert q k v (field j w f) = ground (arith, at-insert q k v f)

pub at-erase : (q k : Text) (f : Fields) → at q (erase k f) ≡ ite (text_dec q k) none (at q f)
unfolding at erase
at-erase q k end = ground arith
at-erase q k (field j w f) = ground (arith, at-erase q k f)

pub at-insert_all :
    (q : Text) (f g : Fields)
    → at q (insert_all f g) ≡ elim (at q f) [ none ↦ at q g | some w ↦ some w ]
unfolding at insert_all
at-insert_all q f end = ground arith
at-insert_all q f (field k v g) =
    ground (arith, at-insert_all q (insert k v f) g, at-insert q k v f)

at-place_sorted :
    (q k : Text) (v : Config) (f : Fields)
    → at k f ≡ none
    → at q (place_sorted k v f) ≡ ite (text_dec q k) (some v) (at q f)
unfolding at place_sorted
at-place_sorted q k v end h = refl
at-place_sorted q k v (field j w f) h = ground (arith, at-place_sorted q k v f)

pub at-insert_sorted :
    (q k : Text) (v : Config) (f : Fields)
    → at q (insert_sorted k v f)
      ≡ elim (at q f) [ none ↦ ite (text_dec q k) (some v) none | some w ↦ some w ]
unfolding insert_sorted
at-insert_sorted q k v f = ground (arith, at-place_sorted q k v f)

pub at-set_sorted :
    (q k : Text) (v : Config) (f : Fields)
    → at q (set_sorted k v f) ≡ ite (text_dec q k) (some v) (at q f)
unfolding set_sorted
at-set_sorted q k v f = ground (arith, at-place_sorted q k v f, at-set q k v f)

pub at-insert_all_sorted :
    (q : Text) (f g : Fields)
    → at q (insert_all_sorted f g) ≡ elim (at q f) [ none ↦ at q g | some w ↦ some w ]
unfolding at insert_all_sorted
at-insert_all_sorted q f end = ground arith
at-insert_all_sorted q f (field k v g) =
    ground (arith, at-insert_all_sorted q (insert_sorted k v f) g, at-insert_sorted q k v f)

-- The operations on entries are those of the ordered list that `ordered_map` implements.
pub to_list-set :
    (k : Text) (v : Config) (f : Fields)
    → (to_list (set k v f) ≡ Assoc.set text_dec k v (to_list f))
      × (to_list (insert k v f) ≡ Assoc.insert text_dec k v (to_list f))
      × (to_list (erase k f) ≡ Assoc.erase text_dec k (to_list f))
unfolding set insert erase to_list Assoc.set Assoc.insert Assoc.erase
to_list-set k v end = (refl, refl, refl)
to_list-set k v (field j w f) = ground (arith, to_list-set k v f)
