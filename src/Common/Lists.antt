-- ===== src/Common/Lists.antt =====
-- Lists measured and indexed by native numbers, and Boolean membership.
use Prim.Native.Nat.{ℕ, zero, suc, ◌+◌}
use mathlib.Core.Path.{◌≡◌, refl}
use mathlib.Core.Logic.{ite}
use mathlib.Core.Bool.{Bool, true, false, not, ◌&&◌}
use mathlib.Core.List.{List, [], ◌∷◌, ◌++◌}
use mathlib.Core.Option.{Option, none, some}
use native.Mathlib.Omega.{arith}
use flexi_config_reader.Common.Tests.{if◌then◌else◌}

module _ {ℓ} {A : Type ℓ} where
  abbrev pub length : List A → ℕ
  length [] = 0
  length (x ∷ xs) = suc (length xs)

  abbrev pub get_elem? : List A → ℕ → Option A
  get_elem? [] i = none
  get_elem? (x ∷ xs) zero = some x
  get_elem? (x ∷ xs) (suc i) = get_elem? xs i

  abbrev pub take : ℕ → List A → List A
  take zero xs = []
  take (suc n) [] = []
  take (suc n) (x ∷ xs) = x ∷ take n xs

  abbrev pub drop : ℕ → List A → List A
  drop zero xs = xs
  drop (suc n) [] = []
  drop (suc n) (x ∷ xs) = drop n xs

  pub length-append : (xs ys : List A) → length (xs ++ ys) ≡ length xs + length ys
  length-append [] ys = omega arith
  length-append (x ∷ xs) ys = omega (arith, length-append xs ys)

module _ {A : Type 0} (dec : Discrete A) where
  -- `std::find` over a vector, as a test
  unfoldable pub has : A → List A → Bool
  has a [] = false
  has a (x ∷ xs) = ite (dec a x) true (has a xs)

  -- the first occurrence goes
  unfoldable pub drop_first : A → List A → List A
  drop_first a [] = []
  drop_first a (x ∷ xs) = ite (dec a x) xs (x ∷ drop_first a xs)

  -- no element stands twice
  -- no element stands twice
  unfoldable pub distinct : List A → Bool
  unfolding has
  distinct [] = true
  distinct (x ∷ xs) = not (has x xs) && distinct xs

  pub has-append :
      (a : A) (xs ys : List A) → has a (xs ++ ys) ≡ (if has a xs then true else has a ys)
  unfolding has
  has-append a [] ys = refl
  has-append a (x ∷ xs) ys = ground (arith, has-append a xs ys)

  pub has-drop_first :
      (a b : A) (xs : List A)
      → distinct xs ≡ true
      → has a (drop_first b xs) ≡ ite (dec a b) false (has a xs)
  unfolding distinct drop_first
  has-drop_first a b [] h = ground arith
  has-drop_first a b (x ∷ xs) h = ground (arith, has-drop_first a b xs)

  pub distinct-append_new :
      (a : A) (xs : List A) → distinct xs ≡ true → has a xs ≡ false → distinct (xs ++ a ∷ []) ≡ true
  unfolding distinct
  distinct-append_new a [] h n = refl
  distinct-append_new a (x ∷ xs) h n =
      ground (arith, distinct-append_new a xs, has-append x xs (a ∷ []))

  pub distinct-drop_first :
      (a : A) (xs : List A) → distinct xs ≡ true → distinct (drop_first a xs) ≡ true
  unfolding distinct drop_first
  distinct-drop_first a [] h = refl
  distinct-drop_first a (x ∷ xs) h = ground (arith, distinct-drop_first a xs, has-drop_first x a xs)
