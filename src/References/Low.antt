-- ===== src/References/Low.antt =====
-- How deep the structs of a tree stand in one another, and the operations of maps that keep the bound.
use flexi_config_reader.Common.{
  ℕ, zero, suc, ◌≤◌, Text, text_dec, none, some, ◌≡◌, refl, arith, Bool-cases, ite, inl, inr,
}
use flexi_config_reader.Result.{Ensures, Ensures-bind, Ensures-any, Ensures-bool}
use flexi_config_reader.Types.{
  Config, config_value, config_list, config_expression, config_value_lookup, config_var,
  config_struct, config_proto, config_reference, of_struct, Fields, end, field, data_of,
}
use flexi_config_reader.Types.Map.{
  at, set, insert, insert_all, contains, keys, text_less, place_sorted, set_sorted,
}
use flexi_config_reader.Merge.{check_for_errors}
use flexi_config_reader.Parser.{copy_proto, check_overlap, struct_from_reference}

-- no definition of a reference is a struct
abbrev pub IsFlat : Fields → Type 0
IsFlat vars = (k : Text) (v : Config) → at k vars ≡ some v → data_of v ≡ none

-- At most `n` structs, protos and references stand in one another, and each reference defines its
-- variables by values.
unfoldable mutual
  pub Low : ℕ → Fields → Type 0
  Low n end = Unit
  Low n (field k v f) = LowEntry n v × Low n f

  pub LowEntry : ℕ → Config → Type 0
  LowEntry zero (config_struct t name d f) = ⊥
  LowEntry zero (config_proto name d f) = ⊥
  LowEntry zero (config_reference name p d r f) = ⊥
  LowEntry (suc n) (config_struct t name d f) = Low n f
  LowEntry (suc n) (config_proto name d f) = Low n f
  LowEntry (suc n) (config_reference name p d r f) = IsFlat r × Low n f
  LowEntry n (config_value _ _) = Unit
  LowEntry n (config_list _ _) = Unit
  LowEntry n (config_expression _ _) = Unit
  LowEntry n (config_value_lookup _) = Unit
  LowEntry n (config_var _) = Unit

mutual
  unfolding Low

  Low-mono_step : (n m : ℕ) (f : Fields) → n ≤ m → Low n f → Low m f
  Low-mono_step n m end le h = tt
  Low-mono_step n m (field k v f) le h = (LowEntry-mono n m v le h.0, Low-mono_step n m f le h.1)

  LowEntry-mono : (n m : ℕ) (v : Config) → n ≤ m → LowEntry n v → LowEntry m v
  LowEntry-mono zero m (config_struct t name d f) le h = absurd h
  LowEntry-mono zero m (config_proto name d f) le h = absurd h
  LowEntry-mono zero m (config_reference name p d r f) le h = absurd h
  LowEntry-mono (suc n) zero (config_struct t name d f) le h = absurd (omega arith)
  LowEntry-mono (suc n) zero (config_proto name d f) le h = absurd (omega arith)
  LowEntry-mono (suc n) zero (config_reference name p d r f) le h = absurd (omega arith)
  LowEntry-mono (suc n) (suc m) (config_struct t name d f) le h =
      Low-mono_step n m f (omega arith) h
  LowEntry-mono (suc n) (suc m) (config_proto name d f) le h = Low-mono_step n m f (omega arith) h
  LowEntry-mono (suc n) (suc m) (config_reference name p d r f) le h =
      (h.0, Low-mono_step n m f (omega arith) h.1)
  LowEntry-mono n m (config_value _ _) le h = tt
  LowEntry-mono n m (config_list _ _) le h = tt
  LowEntry-mono n m (config_expression _ _) le h = tt
  LowEntry-mono n m (config_value_lookup _) le h = tt
  LowEntry-mono n m (config_var _) le h = tt

pub Low-mono : (n m : ℕ) (f : Fields) → n ≤ m → Low n f → Low m f
Low-mono n m f le h = Low-mono_step n m f le h

pub LowEntry-data_of :
    (n : ℕ) (v : Config) (d : Fields) → data_of v ≡ some d → LowEntry (suc n) v → Low n d
unfolding data_of Low
LowEntry-data_of n (config_struct t name x f) d e h =
    let same : f ≡ d = ground arith in rw (← same) h
LowEntry-data_of n (config_proto name x f) d e h = let same : f ≡ d = ground arith in rw (← same) h
LowEntry-data_of n (config_reference name p x r f) d e h =
    let same : f ≡ d = ground arith in rw (← same) h.1
LowEntry-data_of n v d e h = cc

pub LowEntry-flat : (n : ℕ) (v : Config) → data_of v ≡ none → LowEntry n v
unfolding data_of Low
LowEntry-flat n (config_struct t name d f) e = absurd (ground arith)
LowEntry-flat n (config_proto name d f) e = absurd (ground arith)
LowEntry-flat n (config_reference name p d r f) e = absurd (ground arith)
LowEntry-flat n (config_value _ _) e = tt
LowEntry-flat n (config_list _ _) e = tt
LowEntry-flat n (config_expression _ _) e = tt
LowEntry-flat n (config_value_lookup _) e = tt
LowEntry-flat n (config_var _) e = tt

pub Low-at : (n : ℕ) (k : Text) (v : Config) (f : Fields) → at k f ≡ some v → Low n f → LowEntry n v
unfolding at Low
Low-at n k v end e h = cc
Low-at n k v (field j w f) e h = elim (text_dec k j) [
  | yes p ↦ let same : w ≡ v = ground (arith, e, p) in rw (← same) h.0
  | no q ↦ let rest : at k f ≡ some v = ground (arith, e, q) in Low-at n k v f rest h.1
]

either_branch {ℓ κ} :
    {A : Type ℓ} {B : Type κ} (P : B → Type 0) (d : Dec A) (x y : B) → P x → P y → P (ite d x y)
either_branch P (yes a) x y p q = p
either_branch P (no n) x y p q = q

Low-set : (n : ℕ) (k : Text) (v : Config) (f : Fields) → LowEntry n v → Low n f → Low n (set k v f)
unfolding set Low
Low-set n k v end one h = (one, tt)
Low-set n k v (field j w f) one h =
    either_branch (Low n) (text_dec k j) (field j v f) (field j w (set k v f)) (one, h.1)
      (h.0, Low-set n k v f one h.1)

Low-insert :
    (n : ℕ) (k : Text) (v : Config) (f : Fields) → LowEntry n v → Low n f → Low n (insert k v f)
unfolding insert Low
Low-insert n k v end one h = (one, tt)
Low-insert n k v (field j w f) one h =
    either_branch (Low n) (text_dec k j) (field j w f) (field j w (insert k v f)) h
      (h.0, Low-insert n k v f one h.1)

Low-insert_all : (n : ℕ) (f g : Fields) → Low n f → Low n g → Low n (insert_all f g)
unfolding insert_all Low
Low-insert_all n f end h i = h
Low-insert_all n f (field k v g) h i =
    Low-insert_all n (insert k v f) g (Low-insert n k v f i.0 h) i.1

Low-copy_proto : (n : ℕ) (out f : Fields) → Low n out → Low n f → Ensures (Low n) (copy_proto out f)
unfolding copy_proto Low
Low-copy_proto n out end o h = o
Low-copy_proto n out (field k v f) o h =
    let set_low = Low-set n k v out h.0 o in
    Ensures-bool (Low n) (contains k out) _ _ (Low-copy_proto n (set k v out) f set_low h.1) (
      Ensures-bind (λ _. Unit) (Low n) (check_for_errors out (field k v f) k) _ (Ensures-any _)
        (λ _ _. Low-copy_proto n (set k v out) f set_low h.1))

-- the struct that a reference becomes has the content of both
pub Low-struct_from_reference :
    (n : ℕ) (name : Text) (depth : ℕ) (ref_data proto_data : Fields)
    → Low n ref_data
    → Low n proto_data
    → Ensures
        (λ s. (d : Fields) × (s ≡ config_struct of_struct name depth d) × Low n d)
        (struct_from_reference name depth ref_data proto_data)
unfolding struct_from_reference data_of Low
Low-struct_from_reference n name depth ref_data proto_data r p =
    Ensures-bind (Low n) _ (copy_proto end proto_data) _ (Low-copy_proto n end proto_data tt p)
      (λ out o.
        Ensures-bind (λ _. Unit) _ (check_overlap out ref_data (keys ref_data)) _ (Ensures-any _)
          (λ _ _. (insert_all out ref_data, refl, Low-insert_all n out ref_data o r)))

Low-place_sorted :
    (n : ℕ) (k : Text) (v : Config) (f : Fields)
    → LowEntry n v
    → Low n f
    → Low n (place_sorted k v f)
unfolding place_sorted Low
Low-place_sorted n k v end one h = (one, tt)
Low-place_sorted n k v (field j w f) one h = elim (Bool-cases (text_less k j)) [
  | inl before ↦ rw (before, place_sorted) (one, h)
  | inr after ↦ rw (after, place_sorted) (h.0, Low-place_sorted n k v f one h.1)
]

pub Low-set_sorted :
    (n : ℕ) (k : Text) (v : Config) (f : Fields) → LowEntry n v → Low n f → Low n (set_sorted k v f)
unfolding set_sorted
Low-set_sorted n k v f one h = elim (Bool-cases (contains k f)) [
  | inl there ↦ rw (there, set_sorted) (Low-set n k v f one h)
  | inr new ↦ rw (new, set_sorted) (Low-place_sorted n k v f one h)
]
