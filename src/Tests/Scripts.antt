-- ===== src/Tests/Scripts.antt =====
-- Scripts, and who decides.
use soteria_tacacs.Prelude.{
  ℕ, ◌≡◌, ◌↔◌, true, false, not, none, some, List, [], ◌∷◌, ◌==◌, codes, if◌then◌else◌, arith,
}
use soteria_tacacs.Script.{
  Engine, State, Ran, unknown, permit, deny, Cond, test, negated, all_of, end, also, acl_permits,
  Script, nothing, verdict, branch, acl, cond_eval, is_visited, eval_tac_acl,
}
use soteria_tacacs.Script.Calls.{Ends, eval_tac_acl-Ends}
use soteria_tacacs.Script.Conditions.{cond_eval-truth}
use soteria_tacacs.Rules.{Level, eval_levels, eval_ruleset}
use soteria_tacacs.Rules.Order.{answer_of, first_answer, eval_levels-in_order}
use soteria_tacacs.Rules.Permit.{RulesPermit, eval_ruleset-permit}

-- every test but the first holds
abbrev engine : Engine
engine = record {
  format = λ t s. codes "x";
  holds_in = λ t s. not (t == 0);
  attr_add = λ a attrs. a ∷ attrs;
}

abbrev state : State
state = record {
  profile = none;
  attr_dflt = 0;
  message = [];
  label = [];
  attrs_m = [];
  attrs_a = [];
  attrs_o = [];
}

-- two ACLs that call each other
abbrev circle : List Script
circle = acl 1 (verdict permit) ∷ branch (acl_permits 0) (verdict deny) nothing nothing ∷ []

eval_tac_acl-Ends_example : Ends (eval_tac_acl engine circle 3 [] 0 state)
unfolding is_visited
eval_tac_acl-Ends_example = eval_tac_acl-Ends engine circle 3 [] 0 state (omega arith)

abbrev cond : Cond
cond = all_of (also (test 1) (also (negated (test 0)) end))

cond_eval-truth_example :
    cond_eval engine (λ a s. none) cond state ≡ some (record { holds = true; state = state })
cond_eval-truth_example = cond_eval-truth engine state (λ a s. none) cond (tt, (tt, tt))

-- rule 0 does not answer, rule 1 permits with profile 7
abbrev rules : ℕ → State → Ran
rules a s = record {
  token = if a == 1 then permit else unknown;
  state = record s { profile = some 7 };
}

abbrev realms : List (Level ℕ)
realms =
    record { own = 0 ∷ []; skip_parent = false } ∷ record { own = 1 ∷ []; skip_parent = false } ∷ []

eval_levels-in_order_example :
    answer_of (eval_levels rules false realms state)
    ≡ answer_of (first_answer rules (0 ∷ 1 ∷ []) state)
eval_levels-in_order_example = eval_levels-in_order rules false realms state

abbrev run_script : Script → State → Ran
run_script m s = record { token = permit; state = s }

abbrev profiles : ℕ → List (Level Script)
profiles p = []

eval_ruleset-permit_example :
    ((eval_ruleset rules run_script profiles none false realms state).token ≡ permit)
    ↔ RulesPermit rules run_script profiles false realms state none
eval_ruleset-permit_example = eval_ruleset-permit rules run_script profiles false realms state none
