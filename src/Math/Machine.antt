-- ===== src/Math/Machine.antt =====
-- The shunting-yard machine computes the value of the expression that it is driven by.
use flexi_config_reader.Common.{
  ℕ, ◌+◌, Text, List, [], ◌∷◌, Option, none, some, ◌≡◌, refl, arith, ap, ◌∙◌,
}
use flexi_config_reader.Math.{
  Arithmetic, Operator, unary_minus, Rule, minus_sign, close_bracket, expression_end, binary, Stack,
  push_value, push_operator, push_top, empty_stack, reduce, eval_back, finish, finish_loop,
  ActionData, act, on_stacks, act_all, close, finish_all,
}
use flexi_config_reader.Math.Evaluate.{
  Expression, literal, constant, named, negated, applied, bracketed, evaluate, actions, LeftFits,
  RightFits, IsCanonical, IsBound, goes_first-unary_minus, goes_first-groups_left,
}

module _ (arithmetic : Arithmetic) where
  open arithmetic use {Double, pi, minus_one}

  -- the stack after the actions of an expression: the operators at the right of the tree wait
  suspend : Expression arithmetic → Stack arithmetic → Stack arithmetic
  suspend (applied op l r) s =
      suspend r (record { ops = op ∷ s.ops; vs = evaluate arithmetic l ∷ s.vs })
  suspend (negated e) s = suspend e (record { ops = unary_minus ∷ s.ops; vs = minus_one ∷ s.vs })
  suspend e s = record { ops = s.ops; vs = evaluate arithmetic e ∷ s.vs }

  reduce-suspend :
      (op : Operator) (e : Expression arithmetic) (s : Stack arithmetic)
      → RightFits arithmetic op e
      → reduce arithmetic op (suspend e s).ops (suspend e s).vs
        ≡ reduce arithmetic op s.ops (evaluate arithmetic e ∷ s.vs)
  unfolding suspend evaluate reduce eval_back
  reduce-suspend op (applied o l r) s h =
      reduce-suspend op r (record { ops = o ∷ s.ops; vs = evaluate arithmetic l ∷ s.vs }) h.1
      ∙ rw (goes_first-groups_left o op ∙ h.0, reduce) refl
  reduce-suspend op (negated e) s h =
      reduce-suspend op e (record { ops = unary_minus ∷ s.ops; vs = minus_one ∷ s.vs }) h.1
      ∙ rw (goes_first-groups_left unary_minus op ∙ h.0, reduce) refl
  reduce-suspend op e s h = refl

  finish_suspend :
      (e : Expression arithmetic) (s : Stack arithmetic)
      → finish_loop arithmetic (suspend e s).ops (suspend e s).vs
        ≡ finish_loop arithmetic s.ops (evaluate arithmetic e ∷ s.vs)
  unfolding suspend evaluate finish_loop eval_back
  finish_suspend (applied o l r) s =
      finish_suspend r (record { ops = o ∷ s.ops; vs = evaluate arithmetic l ∷ s.vs })
  finish_suspend (negated e) s =
      finish_suspend e (record { ops = unary_minus ∷ s.ops; vs = minus_one ∷ s.vs })
  finish_suspend e s = refl

  -- the operator on top of the stack waits for the whole expression
  TopFits : List Operator → Expression arithmetic → Type 0
  TopFits [] e = Unit
  TopFits (o ∷ ops) e = LeftFits arithmetic o e

  TopFits-left :
      (ops : List Operator) (op : Operator) (l r : Expression arithmetic)
      → TopFits ops (applied op l r)
      → TopFits ops l
  unfolding TopFits
  TopFits-left [] op l r h = tt
  TopFits-left (o ∷ ops) op l r h = h.1

  reduce_stop :
      (ops : List Operator) (op : Operator) (l r : Expression arithmetic) (vs : List Double)
      → TopFits ops (applied op l r)
      → reduce arithmetic op ops vs ≡ some (record { ops = ops; vs = vs })
  unfolding TopFits reduce
  reduce_stop [] op l r vs h = refl
  reduce_stop (o ∷ ops) op l r vs h = rw (goes_first-groups_left o op ∙ h.0, reduce) refl

  push_operator-suspend :
      (op : Operator) (l r : Expression arithmetic) (s : Stack arithmetic)
      → RightFits arithmetic op l
      → TopFits s.ops (applied op l r)
      → push_operator arithmetic op (suspend l s)
        ≡ some (record { ops = op ∷ s.ops; vs = evaluate arithmetic l ∷ s.vs })
  unfolding push_operator
  push_operator-suspend op l r s h t =
      rw (reduce-suspend op l s h, push_operator) rw
        (reduce_stop s.ops op l r (evaluate arithmetic l ∷ s.vs) t) refl

  reduce-unary_minus :
      (ops : List Operator) (vs : List Double)
      → reduce arithmetic unary_minus ops vs ≡ some (record { ops = ops; vs = vs })
  unfolding reduce
  reduce-unary_minus [] vs = refl
  reduce-unary_minus (o ∷ ops) vs = rw (goes_first-unary_minus o, reduce) refl

  push_top-some :
      (push : Stack arithmetic → Option (Stack arithmetic)) (t u : Stack arithmetic)
      (ts : List (Stack arithmetic))
      → push t ≡ some u
      → push_top arithmetic push (t ∷ ts) ≡ some (u ∷ ts)
  unfolding push_top
  push_top-some push t u ts h = ground (arith, h)

  push_operator-unary_minus :
      (t : Stack arithmetic)
      → push_operator arithmetic unary_minus t
        ≡ some (record { ops = unary_minus ∷ t.ops; vs = t.vs })
  unfolding push_operator
  push_operator-unary_minus t = rw (reduce-unary_minus t.ops t.vs, push_operator) refl

  abbrev state :
      List (Stack arithmetic) → List (Text × Double) → ℕ → Option Double → ActionData arithmetic
  state ts m n r = record { s = ts; var_ref_map = m; bracket_cnt = n; res = r }

  act-minus_sign :
      (t : Stack arithmetic) (ts : List (Stack arithmetic)) (m : List (Text × Double)) (n : ℕ)
      (r : Option Double)
      → act arithmetic minus_sign (state (t ∷ ts) m n r)
        ≡ some (state (record { ops = unary_minus ∷ t.ops; vs = minus_one ∷ t.vs } ∷ ts) m n r)
  unfolding act push_top push_value push_operator
  act-minus_sign t ts m n r =
      let u : Stack arithmetic = record { ops = t.ops; vs = minus_one ∷ t.vs } in
      ap (on_stacks arithmetic (state (t ∷ ts) m n r)) (
        push_top-some (push_operator arithmetic unary_minus) u
          (record { ops = unary_minus ∷ t.ops; vs = minus_one ∷ t.vs }) ts
          (push_operator-unary_minus u))

  act-binary :
      (op : Operator) (l e : Expression arithmetic) (t : Stack arithmetic)
      (ts : List (Stack arithmetic)) (m : List (Text × Double)) (n : ℕ) (r : Option Double)
      → RightFits arithmetic op l
      → TopFits t.ops (applied op l e)
      → act arithmetic (binary op) (state (suspend l t ∷ ts) m n r)
        ≡ some (state (record { ops = op ∷ t.ops; vs = evaluate arithmetic l ∷ t.vs } ∷ ts) m n r)
  unfolding act push_top
  act-binary op l e t ts m n r h f = ap (on_stacks arithmetic (state (suspend l t ∷ ts) m n r)) (
      push_top-some (push_operator arithmetic op) (suspend l t)
        (record { ops = op ∷ t.ops; vs = evaluate arithmetic l ∷ t.vs }) ts
        (push_operator-suspend op l e t h f))

  act-expression_end :
      (ts : List (Stack arithmetic)) (m : List (Text × Double)) (n : ℕ) (r : Option Double)
      → act arithmetic expression_end (state ts m (n + 1) r) ≡ some (state ts m (n + 1) r)
  unfolding act
  act-expression_end ts m n r = ground arith

  act-close_bracket :
      (e : Expression arithmetic) (t : Stack arithmetic) (ts : List (Stack arithmetic))
      (m : List (Text × Double)) (n : ℕ) (r : Option Double)
      → act arithmetic close_bracket
          (state (suspend e (empty_stack arithmetic) ∷ t ∷ ts) m (n + 1) r)
        ≡ some (state (push_value arithmetic (evaluate arithmetic e) t ∷ ts) m n r)
  unfolding act close finish finish_loop
  act-close_bracket e t ts m n r =
      rw (finish_suspend e (empty_stack arithmetic), act, close)
        (ap (λ k. some (state (push_value arithmetic (evaluate arithmetic e) t ∷ ts) m k r))
          (omega arith))

  act_all-actions :
      (e : Expression arithmetic) (t : Stack arithmetic) (ts : List (Stack arithmetic))
      (m : List (Text × Double)) (n : ℕ) (r : Option Double) (rest : List (Rule arithmetic))
      → IsCanonical arithmetic e
      → IsBound arithmetic m e
      → TopFits t.ops e
      → act_all arithmetic (actions arithmetic e rest) (state (t ∷ ts) m n r)
        ≡ act_all arithmetic rest (state (suspend e t ∷ ts) m n r)
  unfolding act_all actions suspend evaluate TopFits
  act_all-actions (literal v) t ts m n r rest c b f = refl
  act_all-actions constant t ts m n r rest c b f = refl
  act_all-actions (named name v) t ts m n r rest c b f = rw (b, act) refl
  act_all-actions (negated e) t ts m n r rest c b f =
      rw (act-minus_sign t ts m n r, act_all)
        (act_all-actions e (record { ops = unary_minus ∷ t.ops; vs = minus_one ∷ t.vs }) ts m n r
          rest c.0 b c.1)
  act_all-actions (applied op l e) t ts m n r rest c b f =
      act_all-actions l t ts m n r (binary op ∷ actions arithmetic e rest) c.0 b.0
        (TopFits-left t.ops op l e f)
      ∙ rw (act-binary op l e t ts m n r c.2 f, act_all)
          (act_all-actions e (record { ops = op ∷ t.ops; vs = evaluate arithmetic l ∷ t.vs }) ts m n
            r rest c.1 b.1 c.3)
  act_all-actions (bracketed e) t ts m n r rest c b f =
      act_all-actions e (empty_stack arithmetic) (t ∷ ts) m (n + 1) r
        (expression_end ∷ close_bracket ∷ rest) c b tt
      ∙ rw (act-expression_end (suspend e (empty_stack arithmetic) ∷ t ∷ ts) m n r, act_all)
          (rw (act-close_bracket e t ts m n r, act_all) refl)

  -- A calculator that starts empty and reads an expression, whose tree groups the operators as
  -- `groups_left` says (sums and products to the left, exponents to the right, by their levels) and whose names all have a value, ends with the
  -- value of the tree as its result, and with one empty stack and no open bracket.
  pub act_all_lem :
      (e : Expression arithmetic) (m : List (Text × Double))
      → IsCanonical arithmetic e
      → IsBound arithmetic m e
      → act_all arithmetic
          (actions arithmetic e (expression_end ∷ []))
          (state (empty_stack arithmetic ∷ []) m 0 none)
        ≡ some (state (empty_stack arithmetic ∷ []) m 0 (some (evaluate arithmetic e)))
  unfolding act_all TopFits act finish_all finish finish_loop
  act_all_lem e m c b =
      act_all-actions e (empty_stack arithmetic) [] m 0 none (expression_end ∷ []) c b tt
      ∙ rw (finish_suspend e (empty_stack arithmetic), act_all, act, finish_all, finish) refl
