-- ===== src/Tests/Documents.antt =====
-- The parser's actions and the calculator at concrete inputs.
use flexi_config_reader.Common.{ℕ, ◌+◌, ◌-◌, ◌*◌, codes, List, [], ◌∷◌, none, some, ◌≡◌, refl}
use flexi_config_reader.Result.{ok, ◌>>=◌}
use flexi_config_reader.Types.{end}
use flexi_config_reader.Actions.{initial}
use flexi_config_reader.Actions.Values.{Conversions}
use flexi_config_reader.Actions.Rules.{act_all}
use flexi_config_reader.Actions.Rules.Values.{
  quoted, listed, element, none_left, truth, computed, whole,
}
use flexi_config_reader.Actions.Rules.Blocks.{
  Entries, done, assigned, block, entries_rules, maps, act_all-entries_rules,
}
use flexi_config_reader.Math
use flexi_config_reader.Math.{Arithmetic, add, multiply, goes_first, expression_end, empty_stack}
use flexi_config_reader.Math.Evaluate.{
  Expression, literal, applied, bracketed, evaluate, actions, IsCanonical,
}
use flexi_config_reader.Math.Machine.{act_all_lem}

-- conversions that never throw
abbrev library : Conversions
library = record { stoull = λ t. ok tt; stod = λ t. ok tt; stoi = λ t. ok tt }

-- `struct a { b = "x"  struct c { d = [true] }  f = {{ 1 + 2 }} }  struct a { e = false }`
abbrev document : Entries
document =
    block (codes "a")
      (assigned (codes "b") (quoted (codes "\"x\"")) (
        block (codes "c")
          (assigned (codes "d") (listed (element (truth (codes "true")) none_left)) done)
          (assigned (codes "f")
            (computed (whole (codes "1") ∷ whole (codes "2") ∷ []) (codes "{{ 1 + 2 }}")) done)))
      (block (codes "a") (assigned (codes "e") (truth (codes "false")) done) done)

entries_rules_example :
    act_all library (entries_rules document []) (initial (codes "/"))
    ≡ (maps library document end [] >>= λ fs. ok (record (initial (codes "/")) { cfg_res = fs }))
entries_rules_example = act_all-entries_rules library document (codes "/")

-- numbers in place of `double`
abbrev numbers : Arithmetic
numbers = record {
  Double = ℕ;
  plus = ◌+◌;
  minus = ◌-◌;
  multiplies = ◌*◌;
  divides = λ x y. x;
  pow = λ x y. x;
  negate = λ x. x;
  pi = 3;
  minus_one = 1;
}

-- `2 * (3 + 4) + 5`
abbrev sum : Expression numbers
sum =
    applied add (applied multiply (literal 2) (bracketed (applied add (literal 3) (literal 4))))
      (literal 5)

sum-IsCanonical : IsCanonical numbers sum
unfolding goes_first
sum-IsCanonical = ((tt, (tt, tt, tt, tt), tt, tt), tt, (refl, tt), tt)

abbrev calculator : List (Math.Stack numbers) → Math.ActionData numbers
calculator stacks = record { s = stacks; var_ref_map = []; bracket_cnt = 0; res = none }

act_all_example :
    Math.act_all numbers
      (actions numbers sum (expression_end ∷ []))
      (calculator (empty_stack numbers ∷ []))
    ≡ some (record (calculator (empty_stack numbers ∷ [])) { res = some (evaluate numbers sum) })
act_all_example = act_all_lem numbers sum [] sum-IsCanonical ((tt, (tt, tt)), tt)
