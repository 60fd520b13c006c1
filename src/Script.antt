-- ===== src/Script.antt =====
-- The scripts of tacacs/binaries/tac_plus-ng/config.c: `tac_script_eval_r`,
-- `tac_script_cond_eval` and `eval_tac_acl`.
pub mod Calls
pub mod Conditions
use soteria_tacacs.Prelude.{
  ℕ, zero, suc, Bool, true, false, not, Option, none, some, List, [], ◌∷◌, ◌++◌, ◌==◌, get_or,
  if◌then◌else◌,
}

-- the tokens that a script can come to
pub data Token : Type 0 where
  unknown : Token
  return : Token
  permit : Token
  deny : Token

-- the fields of `tac_session` that scripts write, and the condition's tests read
pub record State : Type 0 where
  pub profile : Option ℕ
  pub attr_dflt : ℕ
  pub message : List ℕ
  pub label : List ℕ
  pub attrs_m : List (List ℕ)
  pub attrs_a : List (List ℕ)
  pub attrs_o : List (List ℕ)

-- an action that goes on to the next, its format strings by number
pub data Effect : Type 0 where
  set_message : ℕ → Effect
  set_label : ℕ → Effect
  set_profile : ℕ → Effect
  set_attr_dflt : ℕ → Effect
  set_attr : ℕ → Effect
  add_attr : ℕ → Effect
  optional_attr : ℕ → Effect

-- `struct mavis_cond`: the tests that look at one value are numbered, as the ACLs are
mutual
  pub data Cond : Type 0 where
    test : ℕ → Cond
    acl_permits : ℕ → Cond
    negated : Cond → Cond
    all_of : Conds → Cond
    any_of : Conds → Cond

  pub data Conds : Type 0 where
    end : Conds
    also : Cond → Conds → Conds

-- `struct mavis_action`: the script from an action on. `nothing` is the null pointer.
pub data Script : Type 0 where
  nothing : Script
  verdict : Token → Script
  effect : Effect → Script → Script
  branch : Cond → Script → Script → Script → Script
  acl : ℕ → Script → Script

-- the token that a script comes to and the state it leaves
pub record Ran : Type 0 where
  pub token : Token
  pub state : State

pub record Tested : Type 0 where
  pub holds : Bool
  pub state : State

-- what the evaluation rests on: `eval_log_format` of a format string, a test of
-- `tac_script_cond_eval` on one value, and `attr_add`
pub record Engine : Type 0 where
  pub format : ℕ → State → List ℕ
  pub holds_in : ℕ → State → Bool
  pub attr_add : List ℕ → List (List ℕ) → List (List ℕ)

unfoldable pub run_effect : Engine → Effect → State → State
run_effect e (set_message t) s = record s { message = e.format t s }
run_effect e (set_label t) s = record s { label = e.format t s }
run_effect e (set_profile p) s = record s { profile = some p }
run_effect e (set_attr_dflt t) s = record s { attr_dflt = t }
run_effect e (set_attr t) s = record s { attrs_m = e.attr_add (e.format t s) s.attrs_m }
run_effect e (add_attr t) s = record s { attrs_a = e.attr_add (e.format t s) s.attrs_a }
run_effect e (optional_attr t) s = record s { attrs_o = e.attr_add (e.format t s) s.attrs_o }

unfoldable pub is_permit : Token → Bool
is_permit permit = true
is_permit unknown = false
is_permit return = false
is_permit deny = false

-- the token of a nested script decides, unless it is unknown
unfoldable pub by_token : (State → Option Ran) → Token → State → Option Ran
by_token next unknown s = next s
by_token next return s = some (record { token = return; state = s })
by_token next permit s = some (record { token = permit; state = s })
by_token next deny s = some (record { token = deny; state = s })

-- `if (r != S_unknown) return r;` and the next action otherwise. `none` is a run that has not
-- ended.
unfoldable pub unless_decided : (State → Option Ran) → Option Ran → Option Ran
unfolding by_token
unless_decided next none = none
unless_decided next (some r) = by_token next r.token r.state

unfoldable pub permitted : Option Ran → Option Tested
permitted none = none
permitted (some r) = some (record { holds = is_permit r.token; state = r.state })

unfoldable pub flip : Option Tested → Option Tested
flip none = none
flip (some t) = some (record t { holds = not t.holds })

-- the loops of S_and and S_or stop at the first condition that decides
unfoldable pub while_true : (State → Option Tested) → Option Tested → Option Tested
while_true next none = none
while_true next (some t) = if t.holds then next t.state else some t

unfoldable pub while_false : (State → Option Tested) → Option Tested → Option Tested
while_false next none = none
while_false next (some t) = if t.holds then some t else next t.state

unfoldable pub choose : (State → Option Ran) → (State → Option Ran) → Option Tested → Option Ran
choose yes_branch no_branch none = none
choose yes_branch no_branch (some t) = if t.holds then yes_branch t.state else no_branch t.state

module _ (e : Engine) (eval_acl : ℕ → State → Option Ran) where
  unfoldable mutual
    pub cond_eval : Cond → State → Option Tested
    cond_eval (test t) s = some (record { holds = e.holds_in t s; state = s })
    cond_eval (acl_permits a) s = permitted (eval_acl a s)
    cond_eval (negated c) s = flip (cond_eval c s)
    cond_eval (all_of cs) s = all_eval cs s
    cond_eval (any_of cs) s = any_eval cs s

    pub all_eval : Conds → State → Option Tested
    all_eval end s = some (record { holds = true; state = s })
    all_eval (also c cs) s = while_true (all_eval cs) (cond_eval c s)

    pub any_eval : Conds → State → Option Tested
    any_eval end s = some (record { holds = false; state = s })
    any_eval (also c cs) s = while_false (any_eval cs) (cond_eval c s)

  unfoldable pub script_eval : Script → State → Option Ran
  script_eval nothing s = some (record { token = unknown; state = s })
  script_eval (verdict t) s = some (record { token = t; state = s })
  script_eval (effect a n) s = script_eval n (run_effect e a s)
  script_eval (branch c b otherwise n) s =
      unless_decided (script_eval n)
        (choose (script_eval b) (script_eval otherwise) (cond_eval c s))
  script_eval (acl a n) s = unless_decided (script_eval n) (eval_acl a s)

-- `acl->visited`
unfoldable pub is_visited : ℕ → List ℕ → Bool
is_visited a [] = false
is_visited a (b ∷ visited) = let rest = is_visited a visited in if a == b then true else rest

-- Only `permit` and `deny` come out of an ACL.
unfoldable pub acl_token : Token → Token
acl_token permit = permit
acl_token deny = deny
acl_token unknown = unknown
acl_token return = unknown

unfoldable pub acl_result : Option Ran → Option Ran
acl_result none = none
acl_result (some r) = some (record r { token = acl_token r.token })

-- `eval_tac_acl`, with the ACLs that it is within. The fuel bounds the depth of the calls.
unfoldable pub eval_tac_acl : Engine → List Script → ℕ → List ℕ → ℕ → State → Option Ran
eval_tac_acl e acls zero visited a s = none
eval_tac_acl e acls (suc fuel) visited a s =
    let call = eval_tac_acl e acls fuel (a ∷ visited) in
    let r = acl_result (script_eval e call (get_or acls a nothing) s) in
    if is_visited a visited then some (record { token = unknown; state = s }) else r
