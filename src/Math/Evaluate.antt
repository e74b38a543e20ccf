-- ===== src/Math/Evaluate.antt =====
-- Expressions, their value, and the order in which the grammar runs the actions on them. A tree is
-- `IsCanonical` if it groups its operators as `groups_left` says, by precedence and associativity.
use mathlib.Core.List.{lookup}
use flexi_config_reader.Common.{Text, text_dec, List, ◌∷◌, some, Bool, true, false, ◌≡◌, refl}
use flexi_config_reader.Math.{
  Arithmetic, Operator, subtract, multiply, divide, caret, power, unary_minus, goes_first, apply,
  Rule, number, pi_constant, minus_sign, open_bracket, close_bracket, expression_end, value_lookup,
  binary,
}

-- How strongly an operator binds: sums, products, exponents, and the sign.
pub data Level : Type 0 where
  of_sum of_product of_exponent of_sign : Level

abbrev pub level : Operator → Level
level Operator.add = of_sum
level subtract = of_sum
level multiply = of_product
level divide = of_product
level caret = of_exponent
level power = of_exponent
level unary_minus = of_sign

-- In `a o b op c`, of these levels, the brackets stand around `a o b`: sums and products group to the
-- left, exponents to the right, and a sign holds what binds as strongly as it does.
abbrev pub groups_left : Level → Level → Bool
groups_left of_sum of_sum = true
groups_left of_sum l = false
groups_left of_product of_sum = true
groups_left of_product of_product = true
groups_left of_product l = false
groups_left of_exponent of_sum = true
groups_left of_exponent of_product = true
groups_left of_exponent l = false
groups_left of_sign of_sign = false
groups_left of_sign l = true

-- the machine evaluates the operator on its stack just where the brackets stand at the left
pub goes_first-groups_left : (o op : Operator) → goes_first o op ≡ groups_left (level o) (level op)
unfolding goes_first
goes_first-groups_left Operator.add Operator.add = refl
goes_first-groups_left subtract Operator.add = refl
goes_first-groups_left multiply Operator.add = refl
goes_first-groups_left divide Operator.add = refl
goes_first-groups_left caret Operator.add = refl
goes_first-groups_left power Operator.add = refl
goes_first-groups_left unary_minus Operator.add = refl
goes_first-groups_left o op = refl

-- the unary minus never makes another operator go first
pub goes_first-unary_minus : (o : Operator) → goes_first o unary_minus ≡ false
unfolding goes_first
goes_first-unary_minus Operator.add = refl
goes_first-unary_minus o = refl

module _ (arithmetic : Arithmetic) where
  open arithmetic use {Double, pi, minus_one}

  pub data Expression : Type 0 where
    literal : Double → Expression
    constant : Expression
    -- a `VALUE_LOOKUP`, with the value that the map has for it
    named : Text → Double → Expression
    negated : Expression → Expression
    applied : Operator → Expression → Expression → Expression
    bracketed : Expression → Expression

  unfoldable pub evaluate : Expression → Double
  unfolding apply
  evaluate (literal v) = v
  evaluate constant = pi
  evaluate (named name v) = v
  evaluate (negated e) = apply arithmetic unary_minus minus_one (evaluate e)
  evaluate (applied op l r) = apply arithmetic op (evaluate l) (evaluate r)
  evaluate (bracketed e) = evaluate e

  -- the actions of an expression, in front of those that follow
  unfoldable pub actions : Expression → List (Rule arithmetic) → List (Rule arithmetic)
  actions (literal v) rest = number v ∷ rest
  actions constant rest = pi_constant ∷ rest
  actions (named name v) rest = value_lookup name ∷ rest
  actions (negated e) rest = minus_sign ∷ actions e rest
  actions (applied op l r) rest = actions l (binary op ∷ actions r rest)
  actions (bracketed e) rest = open_bracket ∷ actions e (expression_end ∷ close_bracket ∷ rest)

  -- of no operator that stands at the left of the tree, after `o`, the brackets stand around `o`
  abbrev pub LeftFits : Operator → Expression → Type 0
  LeftFits o (applied op l r) = (groups_left (level o) (level op) ≡ false) × LeftFits o l
  LeftFits o _ = Unit

  -- every operator that stands at the right of the tree has its brackets before `op`
  abbrev pub RightFits : Operator → Expression → Type 0
  RightFits op (applied o l r) = (groups_left (level o) (level op) ≡ true) × RightFits op r
  RightFits op (negated e) = (groups_left of_sign (level op) ≡ true) × RightFits op e
  RightFits op _ = Unit

  abbrev pub IsCanonical : Expression → Type 0
  IsCanonical (negated e) = IsCanonical e × LeftFits unary_minus e
  IsCanonical (applied op l r) = IsCanonical l × IsCanonical r × RightFits op l × LeftFits op r
  IsCanonical (bracketed e) = IsCanonical e
  IsCanonical _ = Unit

  -- every name has its value in the map
  abbrev pub IsBound : List (Text × Double) → Expression → Type 0
  IsBound map (named name v) = lookup text_dec name map ≡ some v
  IsBound map (negated e) = IsBound map e
  IsBound map (applied op l r) = IsBound map l × IsBound map r
  IsBound map (bracketed e) = IsBound map e
  IsBound map _ = Unit
