-- ===== src/Assoc.antt =====
-- Association lists: `std::unordered_map` and `std::map` (which the headers of `details/ordered_map.h`
-- and `config/classes.h` use) as lists of pairs, read through `lookup`, and the ordered view of a
-- `CfgMap`, in which the position of an entry counts.
use mathlib.Core.List.{lookup}
use flexi_config_reader.Common.{
  List, [], ◌∷◌, Option, none, some, Bool, ◌≡◌, refl, ite, arith, is_some,
}

module _ {ℓ} {K V : Type ℓ} (dec : Discrete K) where
  abbrev pub get : K → List (K × V) → Option V
  get = lookup dec

  abbrev pub contains : K → List (K × V) → Bool
  contains k m = is_some (lookup dec k m)

  -- the value of a key is replaced in its place, and a new key goes to the end
  unfoldable pub set : K → V → List (K × V) → List (K × V)
  set k v [] = (k, v) ∷ []
  set k v ((j, w) ∷ m) = ite (dec k j) ((j, v) ∷ m) ((j, w) ∷ set k v m)

  -- an entry with the key keeps its value
  unfoldable pub insert : K → V → List (K × V) → List (K × V)
  insert k v [] = (k, v) ∷ []
  insert k v ((j, w) ∷ m) = ite (dec k j) ((j, w) ∷ m) ((j, w) ∷ insert k v m)

  unfoldable pub erase : K → List (K × V) → List (K × V)
  erase k [] = []
  erase k ((j, w) ∷ m) = ite (dec k j) (erase k m) ((j, w) ∷ erase k m)

  pub get-set :
      (q k : K) (v : V) (m : List (K × V)) → get q (set k v m) ≡ ite (dec q k) (some v) (get q m)
  unfolding set lookup
  get-set q k v [] = refl
  get-set q k v ((j, w) ∷ m) = ground (arith, get-set q k v m)

  pub get-insert :
      (q k : K) (v : V) (m : List (K × V))
      → get q (insert k v m)
        ≡ ite (dec q k) (some (elim (get k m) [ none ↦ v | some w ↦ w ])) (get q m)
  unfolding insert lookup
  get-insert q k v [] = refl
  get-insert q k v ((j, w) ∷ m) = ground (arith, get-insert q k v m)

  pub get-erase : (q k : K) (m : List (K × V)) → get q (erase k m) ≡ ite (dec q k) none (get q m)
  unfolding erase lookup
  get-erase q k [] = ground arith
  get-erase q k ((j, w) ∷ m) = ground (arith, get-erase q k m)
