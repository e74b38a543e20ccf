-- ===== src/Math.antt =====
-- The calculator of src/math_helpers.cpp, include/flexi_cfg/math/helpers.h and
-- include/flexi_cfg/math/actions.h: a shunting-yard machine, driven by the actions that the grammar
-- runs as it reads an expression. `double` and its operations are a parameter. A vector that is used
-- as a stack is a list, its back first. What `assert` rules out is `none`.
pub mod Evaluate
pub mod Machine
use mathlib.Core.List.{lookup}
use flexi_config_reader.Common.{
  ℕ, zero, suc, ◌+◌, ◌-◌, Text, text_dec, List, [], ◌∷◌, Option, none, some, Bool, true, false,
  ◌&&◌, ◌||◌, ltb, ◌==◌, if◌then◌else◌,
}

-- `double`, with the operations that the operator table names, and the constants of the actions
pub record Arithmetic : Type 1 where
  pub Double : Type 0
  pub plus : Double → Double → Double
  pub minus : Double → Double → Double
  pub multiplies : Double → Double → Double
  pub divides : Double → Double → Double
  pub pow : Double → Double → Double
  pub negate : Double → Double
  pub pi : Double
  pub minus_one : Double

-- the keys of the operator table: `+ - * / ^ **`, and `m` for the unary minus
pub data Operator : Type 0 where
  add subtract multiply divide caret power unary_minus : Operator

-- the fields `p` and `l`
unfoldable pub precedence : Operator → ℕ
precedence add = 6
precedence subtract = 6
precedence multiply = 8
precedence divide = 8
precedence caret = 9
precedence power = 9
precedence unary_minus = 10

unfoldable pub is_left : Operator → Bool
is_left add = true
is_left subtract = true
is_left multiply = true
is_left divide = true
is_left caret = false
is_left power = false
is_left unary_minus = false

-- the test of the `while` in `Stack::push`: the operator on the stack is evaluated before the new one
unfoldable pub goes_first : Operator → Operator → Bool
unfolding precedence is_left
goes_first o2 op =
    ltb (precedence op) (precedence o2) || (precedence o2 == precedence op && is_left op)

module _ (arithmetic : Arithmetic) where
  open arithmetic use {Double, plus, minus, multiplies, divides, pow, negate, pi, minus_one}

  -- the field `f`
  unfoldable pub apply : Operator → Double → Double → Double
  apply add x y = plus x y
  apply subtract x y = minus x y
  apply multiply x y = multiplies x y
  apply divide x y = divides x y
  apply caret x y = pow x y
  apply power x y = pow x y
  apply unary_minus x y = negate y

  -- `math::Stack`
  pub record Stack : Type 0 where
    pub ops : List Operator
    pub vs : List Double

  abbrev pub empty_stack : Stack
  empty_stack = record { ops = []; vs = [] }

  -- `ops::evalBack`, with the operator on top
  unfoldable pub eval_back : Operator → List Double → Option (List Double)
  unfolding apply
  eval_back op [] = none
  eval_back op (rhs ∷ []) = none
  eval_back op (rhs ∷ lhs ∷ vals) = some (apply op lhs rhs ∷ vals)

  -- the `while` of `Stack::push`
  unfoldable pub reduce : Operator → List Operator → List Double → Option Stack
  unfolding eval_back goes_first
  reduce op [] vs = some (record { ops = []; vs = vs })
  reduce op (o2 ∷ ops) vs = elim (goes_first o2 op) [
    | false ↦ some (record { ops = o2 ∷ ops; vs = vs })
    | true ↦ elim (eval_back o2 vs) [ none ↦ none | some vs' ↦ reduce op ops vs' ]
  ]

  -- `Stack::push` of an operator
  unfoldable pub push_operator : Operator → Stack → Option Stack
  unfolding reduce
  push_operator op s = elim (reduce op s.ops s.vs) [
    | none ↦ none
    | some s' ↦ some (record s' { ops = op ∷ s'.ops })
  ]

  -- `Stack::push` of a value
  unfoldable pub push_value : Double → Stack → Stack
  push_value v s = record s { vs = v ∷ s.vs }

  -- `Stack::finish`: the value, of a stack that is empty afterwards
  unfoldable pub finish_loop : List Operator → List Double → Option Double
  unfolding eval_back
  finish_loop [] [] = none
  finish_loop [] (v ∷ []) = some v
  finish_loop [] (v ∷ w ∷ vs) = none
  finish_loop (op ∷ ops) vs = elim (eval_back op vs) [
    | none ↦ none
    | some vs' ↦ finish_loop ops vs'
  ]

  unfoldable pub finish : Stack → Option Double
  unfolding finish_loop
  finish s = finish_loop s.ops s.vs

  -- `math::ActionData`; `s` is the stack of stacks
  pub record ActionData : Type 0 where
    pub s : List Stack
    pub var_ref_map : List (Text × Double)
    pub bracket_cnt : ℕ
    pub res : Option Double

  -- `Stacks::push` to the top one
  unfoldable pub push_top : (Stack → Option Stack) → List Stack → Option (List Stack)
  push_top push [] = none
  push_top push (top ∷ rest) = elim (push top) [ none ↦ none | some t ↦ some (t ∷ rest) ]

  -- `Stacks::close`
  unfoldable pub close : List Stack → Option (List Stack)
  unfolding finish push_value
  close [] = none
  close (top ∷ []) = none
  close (top ∷ next ∷ rest) = elim (finish top) [
    | none ↦ none
    | some r ↦ some (push_value r next ∷ rest)
  ]

  -- `Stacks::finish`, and the stacks afterwards
  unfoldable pub finish_all : List Stack → Option (Double × List Stack)
  unfolding finish
  finish_all [] = none
  finish_all (top ∷ next ∷ rest) = none
  finish_all (top ∷ []) = elim (finish top) [ none ↦ none | some r ↦ some (r, empty_stack ∷ []) ]

  -- A rule of the grammar that has an action, with what the action reads of the input.
  pub data Rule : Type 0 where
    number : Double → Rule
    pi_constant : Rule
    minus_sign : Rule
    open_bracket close_bracket : Rule
    expression_end : Rule
    value_lookup : Text → Rule
    binary : Operator → Rule

  abbrev pub on_stacks : ActionData → Option (List Stack) → Option ActionData
  on_stacks out none = none
  on_stacks out (some stacks) = some (record out { s = stacks })

  abbrev value : Double → Stack → Option Stack
  value v s = some (push_value v s)

  unfoldable pub act : Rule → ActionData → Option ActionData
  unfolding push_operator push_value push_top close finish_all lookup text_dec
  act (number v) out = on_stacks out (push_top (value v) out.s)
  act pi_constant out = on_stacks out (push_top (value pi) out.s)
  act minus_sign out = elim (push_top (value minus_one) out.s) [
    | none ↦ none
    | some stacks ↦ on_stacks out (push_top (push_operator unary_minus) stacks)
  ]
  act open_bracket out =
      some (record out { s = empty_stack ∷ out.s; bracket_cnt = out.bracket_cnt + 1 })
  act close_bracket out = elim (close out.s) [
    | none ↦ none
    | some stacks ↦ some (record out { s = stacks; bracket_cnt = out.bracket_cnt - 1 })
  ]
  act expression_end out =
      if out.bracket_cnt == 0
      then elim (finish_all out.s) [
        | none ↦ none
        | some (r, stacks) ↦ some (record out { res = some r; s = stacks })
      ]
      else some out
  act (value_lookup name) out = elim (lookup text_dec name out.var_ref_map) [
    | none ↦ none
    | some v ↦ on_stacks out (push_top (value v) out.s)
  ]
  act (binary op) out = on_stacks out (push_top (push_operator op) out.s)

  unfoldable pub act_all : List Rule → ActionData → Option ActionData
  unfolding act
  act_all [] out = some out
  act_all (r ∷ rs) out = elim (act r out) [ none ↦ none | some out' ↦ act_all rs out' ]
