-- ===== src/Rules.antt =====
-- Who decides on a request: `eval_ruleset`, `eval_ruleset_r` and `eval_profile_acl` of
-- tacacs/binaries/tac_plus-ng/config.c, `author_eval_host` and `author_eval_profile` of
-- tacacs/binaries/tac_plus-ng/author.c.
pub mod Order
pub mod Permit
use soteria_tacacs.Prelude.{
  ℕ, Bool, true, false, not, ◌&&◌, Option, none, some, List, [], ◌∷◌, if◌then◌else◌,
}
use soteria_tacacs.Script.{Token, unknown, return, permit, deny, State, Ran, Script, is_permit}

-- `res == S_permit || res == S_deny`
unfoldable pub settled : Token → Bool
settled permit = true
settled deny = true
settled unknown = false
settled return = false

-- A realm with its enabled rules, or a host or a profile with the script that it has, if any.
-- `skip_parent` is `skip_parent_script`.
pub record Level {ℓ} (A : Type ℓ) : Type ℓ where
  pub own : List A
  pub skip_parent : Bool

-- A realm, host or profile is given with its parents behind it, and `run` evaluates a rule's ACL or
-- a script.
module _ {ℓ} {A : Type ℓ} (run : A → State → Ran) where
  -- the loop over the rules, or the one script
  unfoldable pub run_own : List A → Token → State → Ran
  run_own [] res s = record { token = res; state = s }
  run_own (x ∷ own) res s =
      let r = run x s in
      let rest = run_own own r.token r.state in if settled r.token then r else rest

  -- the recursion over the parents, which the five functions share
  unfoldable pub eval_levels : Bool → List (Level A) → State → Ran
  unfolding run_own
  eval_levels parent_first [] s = record { token = unknown; state = s }
  eval_levels parent_first (level ∷ parents) s =
      let up = eval_levels parent_first parents in
      let before =
        if parent_first && not level.skip_parent
        then up s
        else record { token = unknown; state = s } in
      let here =
        if settled before.token then before else run_own level.own before.token before.state in
      if not parent_first && (not (settled here.token) && not level.skip_parent)
      then up here.state
      else here

-- the three functions that ask scripts
unfoldable pub author_eval_host : (Script → State → Ran) → Bool → List (Level Script) → State → Ran
unfolding eval_levels
author_eval_host run parent_first hosts s = eval_levels run parent_first hosts s

unfoldable pub author_eval_profile :
    (Script → State → Ran) → Bool → List (Level Script) → State → Ran
unfolding eval_levels
author_eval_profile run parent_first profiles s = eval_levels run parent_first profiles s

unfoldable pub eval_profile_acl : (Script → State → Ran) → Bool → List (Level Script) → State → Ran
unfolding eval_levels
eval_profile_acl run parent_first profiles s = eval_levels run parent_first profiles s

-- `session->user->profile` goes before all rules; a null realm comes first.
unfoldable pub eval_ruleset_r : (ℕ → State → Ran) → Option ℕ → Bool → List (Level ℕ) → State → Ran
unfolding eval_levels
eval_ruleset_r eval_acl (some p) parent_first [] s = record { token = unknown; state = s }
eval_ruleset_r eval_acl (some p) parent_first (realm ∷ parents) s = record {
  token = permit;
  state = record s { profile = some p };
}
eval_ruleset_r eval_acl none parent_first realms s = eval_levels eval_acl parent_first realms s

-- the ACL scripts of a profile and its parents; a profile without one of its own has none to ask
unfoldable pub eval_own_acl : (Script → State → Ran) → Bool → List (Level Script) → State → Ran
unfolding eval_profile_acl
eval_own_acl run parent_first [] s = record { token = permit; state = s }
eval_own_acl run parent_first (profile ∷ parents) s = go profile.own
  where
    go : List Script → Ran
    go [] = record { token = permit; state = s }
    go (m ∷ own) = eval_profile_acl run parent_first (profile ∷ parents) s

unfoldable pub eval_profile :
    (Script → State → Ran) → (ℕ → List (Level Script)) → Bool → Option ℕ → State → Ran
unfolding eval_own_acl
eval_profile run profiles parent_first none s = record { token = permit; state = s }
eval_profile run profiles parent_first (some p) s = eval_own_acl run parent_first (profiles p) s

-- `eval_ruleset` behind the cache of `lookup_user_profile`. `profiles` gives the ACL scripts of a
-- profile and its parents.
unfoldable pub eval_ruleset :
    (ℕ → State → Ran)
    → (Script → State → Ran)
    → (ℕ → List (Level Script))
    → Option ℕ
    → Bool
    → List (Level ℕ)
    → State
    → Ran
unfolding eval_ruleset_r eval_profile
eval_ruleset eval_acl run profiles user_profile parent_first realms s =
    let r = eval_ruleset_r eval_acl user_profile parent_first realms s in
    let r' =
      if is_permit r.token
      then eval_profile run profiles parent_first r.state.profile r.state
      else r in
    record r' { token = if is_permit r'.token then permit else deny }
