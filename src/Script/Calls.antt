-- ===== src/Script/Calls.antt =====
-- The mark on an ACL that is being evaluated bounds the depth of the calls: `eval_tac_acl` always
-- comes to an end, also for ACLs that call each other in a circle.
use soteria_tacacs.Prelude.{
  ℕ, zero, suc, ◌≤◌, ◌<◌, ◌≡◌, refl, true, false, Bool-cases, ◌⊎◌, inl, inr, Option, none, some,
  List, [], ◌∷◌, get_or, length, arith, if◌then◌else◌,
}
use native.Mathlib.Decide.{dec_lt}
use soteria_tacacs.Script.{
  Engine, State, Ran, Tested, Script, nothing, verdict, effect, branch, acl, Cond, test,
  acl_permits, negated, all_of, any_of, Conds, end, also, Token, unknown, permit, deny, return,
  by_token, unless_decided, permitted, flip, while_true, while_false, choose, cond_eval, all_eval,
  any_eval, script_eval, is_visited, acl_result, eval_tac_acl, run_effect,
}

-- a run that has come to an end
abbrev pub Ends {ℓ} : {A : Type ℓ} → Option A → Type 0
Ends none = ⊥
Ends (some x) = Unit

by_token-Ends :
    (next : State → Option Ran) (t : Token) (s : State)
    → ((s : State) → Ends (next s))
    → Ends (by_token next t s)
unfolding by_token
by_token-Ends next unknown s h = h s
by_token-Ends next return s h = tt
by_token-Ends next permit s h = tt
by_token-Ends next deny s h = tt

unless_decided-Ends :
    (next : State → Option Ran) (r : Option Ran)
    → ((s : State) → Ends (next s))
    → Ends r
    → Ends (unless_decided next r)
unfolding unless_decided
unless_decided-Ends next none h e = absurd e
unless_decided-Ends next (some r) h e = by_token-Ends next r.token r.state h

while_true-Ends :
    (next : State → Option Tested) (r : Option Tested)
    → ((s : State) → Ends (next s))
    → Ends r
    → Ends (while_true next r)
unfolding while_true
while_true-Ends next none h e = absurd e
while_true-Ends next (some t) h e = elim (Bool-cases t.holds) [
  | inl holds ↦ rw holds (h t.state)
  | inr fails ↦ rw fails tt
]

while_false-Ends :
    (next : State → Option Tested) (r : Option Tested)
    → ((s : State) → Ends (next s))
    → Ends r
    → Ends (while_false next r)
unfolding while_false
while_false-Ends next none h e = absurd e
while_false-Ends next (some t) h e = elim (Bool-cases t.holds) [
  | inl holds ↦ rw holds tt
  | inr fails ↦ rw fails (h t.state)
]

choose-Ends :
    (yes_branch no_branch : State → Option Ran) (r : Option Tested)
    → ((s : State) → Ends (yes_branch s))
    → ((s : State) → Ends (no_branch s))
    → Ends r
    → Ends (choose yes_branch no_branch r)
unfolding choose
choose-Ends yes_branch no_branch none h k e = absurd e
choose-Ends yes_branch no_branch (some t) h k e = elim (Bool-cases t.holds) [
  | inl holds ↦ rw holds (h t.state)
  | inr fails ↦ rw fails (k t.state)
]

permitted-Ends : (r : Option Ran) → Ends r → Ends (permitted r)
unfolding permitted
permitted-Ends none e = absurd e
permitted-Ends (some r) e = tt

flip-Ends : (r : Option Tested) → Ends r → Ends (flip r)
unfolding flip
flip-Ends none e = absurd e
flip-Ends (some r) e = tt

module _ (e : Engine) (call : ℕ → State → Option Ran)
    (ends : (a : ℕ) (s : State) → Ends (call a s)) where
  mutual
    unfolding cond_eval

    cond_eval-Ends : (c : Cond) (s : State) → Ends (cond_eval e call c s)
    cond_eval-Ends (test t) s = tt
    cond_eval-Ends (acl_permits a) s = permitted-Ends (call a s) (ends a s)
    cond_eval-Ends (negated c) s = flip-Ends (cond_eval e call c s) (cond_eval-Ends c s)
    cond_eval-Ends (all_of cs) s = all_eval-Ends cs s
    cond_eval-Ends (any_of cs) s = any_eval-Ends cs s

    all_eval-Ends : (cs : Conds) (s : State) → Ends (all_eval e call cs s)
    all_eval-Ends end s = tt
    all_eval-Ends (also c cs) s =
        while_true-Ends (all_eval e call cs) (cond_eval e call c s) (all_eval-Ends cs)
          (cond_eval-Ends c s)

    any_eval-Ends : (cs : Conds) (s : State) → Ends (any_eval e call cs s)
    any_eval-Ends end s = tt
    any_eval-Ends (also c cs) s =
        while_false-Ends (any_eval e call cs) (cond_eval e call c s) (any_eval-Ends cs)
          (cond_eval-Ends c s)

  script_eval-Ends : (m : Script) (s : State) → Ends (script_eval e call m s)
  unfolding script_eval
  script_eval-Ends nothing s = tt
  script_eval-Ends (verdict t) s = tt
  script_eval-Ends (effect a n) s = script_eval-Ends n (run_effect e a s)
  script_eval-Ends (branch c b otherwise n) s =
      unless_decided-Ends (script_eval e call n) _ (script_eval-Ends n) (
        choose-Ends (script_eval e call b) (script_eval e call otherwise) (cond_eval e call c s)
          (script_eval-Ends b) (script_eval-Ends otherwise) (cond_eval-Ends c s))
  script_eval-Ends (acl a n) s =
      unless_decided-Ends (script_eval e call n) (call a s) (script_eval-Ends n) (ends a s)

acl_result-Ends : (r : Option Ran) → Ends r → Ends (acl_result r)
unfolding acl_result
acl_result-Ends none e = absurd e
acl_result-Ends (some r) e = tt

-- how many of the first `n` ACLs are not being evaluated
abbrev pub open_acls : ℕ → List ℕ → ℕ
open_acls zero visited = 0
open_acls (suc n) visited =
    let rest = open_acls n visited in if is_visited n visited then rest else suc rest

open_acls_mono : (n a : ℕ) (visited : List ℕ) → open_acls n (a ∷ visited) ≤ open_acls n visited
unfolding is_visited
open_acls_mono zero a visited = omega arith
open_acls_mono (suc n) a visited = ground (arith, open_acls_mono n a visited)

open_acls_less :
    (n a : ℕ) (visited : List ℕ)
    → a < n
    → is_visited a visited ≡ false
    → open_acls n (a ∷ visited) < open_acls n visited
unfolding is_visited
open_acls_less zero a visited h fresh = absurd (omega arith)
open_acls_less (suc n) a visited h fresh =
    ground (arith, open_acls_less n a visited, open_acls_mono n a visited)

past_end : (acls : List Script) (a : ℕ) → length acls ≤ a → get_or acls a nothing ≡ nothing
past_end [] a h = refl
past_end (m ∷ acls) zero h = absurd (omega arith)
past_end (m ∷ acls) (suc a) h = past_end acls a (omega arith)

-- Fuel beyond the number of ACLs that are not being evaluated is enough: the evaluation comes to a
-- result, whatever the scripts call.
pub eval_tac_acl-Ends :
    (e : Engine) (acls : List Script) (fuel : ℕ) (visited : List ℕ) (a : ℕ) (s : State)
    → open_acls (length acls) visited < fuel
    → Ends (eval_tac_acl e acls fuel visited a s)
unfolding eval_tac_acl script_eval
eval_tac_acl-Ends e acls zero visited a s h = absurd (omega arith)
eval_tac_acl-Ends e acls (suc fuel) visited a s h =
    go (Bool-cases (is_visited a visited))
      (λ less b t. eval_tac_acl-Ends e acls fuel (a ∷ visited) b t (omega (arith, less)))
  where
    call : ℕ → State → Option Ran
    call = eval_tac_acl e acls fuel (a ∷ visited)

    go :
        (is_visited a visited ≡ true) ⊎ (is_visited a visited ≡ false)
        → (open_acls (length acls) (a ∷ visited) < open_acls (length acls) visited
            → (b : ℕ) (t : State) → Ends (call b t))
        → Ends (eval_tac_acl e acls (suc fuel) visited a s)
    go (inl circle) ih = rw circle tt
    go (inr fresh) ih = rw fresh (
        acl_result-Ends (script_eval e call (get_or acls a nothing) s)
          (elim (dec_lt a (length acls)) [
            | yes known ↦
                script_eval-Ends e call (ih (open_acls_less (length acls) a visited known fresh))
                  (get_or acls a nothing) s
            | no past ↦ rw (past_end acls a (omega arith)) tt
          ]))
