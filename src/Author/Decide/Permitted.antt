-- ===== src/Author/Decide/Permitted.antt =====
-- Who is entitled to pass in `do_author`, behind the scripts of the host.
use soteria_tacacs.Prelude.{
  ℕ, ◌≡◌, ◌≢◌, ◌⊎◌, refl, Bool, true, false, Bool-cases, inl, inr, Option, none, some, List, [],
  ◌∷◌, if◌then◌else◌, arith,
}
use soteria_tacacs.Script.{Token, unknown, return, permit, deny, State, Ran, is_permit}
use soteria_tacacs.Rules.{author_eval_profile, eval_ruleset}
use soteria_tacacs.Rules.Order.{in_order, first_answer}
use soteria_tacacs.Rules.Permit.{RulesPermit, eval_levels-permit, eval_ruleset-permit}
use soteria_tacacs.Author.Decide.{
  Reply, passed, failed, errored, Lookup, pending, backend_failure, no_user, user, Policy, Asked,
  eval_own_profile, decide, answer_user, answer_lookup, Course, sent, goes_on_freed,
  authen_meth_tacacsplus, authen_type_ascii,
}

-- a reply that lets the request pass is among the replies
abbrev pub Passes : List Reply → Type 0
Passes [] = ⊥
Passes (passed status args ∷ replies) = Unit
Passes (failed ∷ replies) = Passes replies
Passes (errored ∷ replies) = Passes replies

-- a reply that lets the request pass is sent, as far as the session lives
abbrev pub LetsPass : Course → Type 0
LetsPass (sent replies) = Passes replies
LetsPass (goes_on_freed r) = Passes (r ∷ [])

-- the first answer of the scripts of the profile and its parents is a permit
abbrev pub ScriptsPermit : Policy → Option ℕ → State → Type 0
ScriptsPermit p none s = ⊥
ScriptsPermit p (some profile) s =
    (first_answer p.run (in_order p.run p.profile_parent_first (p.profile_scripts profile)) s).token
    ≡ permit

-- The rules permit the request, with the ACL of the profile, and the scripts of the profile do, in
-- the state that `eval_ruleset` leaves.
abbrev pub Permitted : Policy → State → Type 0
Permitted p s =
    let r =
      (eval_ruleset p.eval_acl p.run p.profile_acls p.user_profile p.realm_parent_first p.realms
        s).state in
    RulesPermit p.eval_acl p.run p.profile_acls p.realm_parent_first p.realms s p.user_profile
    × ScriptsPermit p r.profile r

-- Somebody is responsible: the host lets locally authenticated users pass who are unknown here, or
-- the user is known and was authorized already or is permitted by the rules and the profile.
abbrev pub Entitled : Policy → Asked → Lookup → State → Type 0
Entitled p a pending s = ⊥
Entitled p a backend_failure s = ⊥
Entitled p a no_user s =
    (p.authz_if_authc ≡ true)
    × (a.authen_method ≢ authen_meth_tacacsplus)
    × (a.authen_type ≡ authen_type_ascii)
Entitled p a (user failure) s = (failure ≡ false) × ((a.authorized ≡ true) ⊎ Permitted p s)

-- the first answer of the scripts of the host and its parents
abbrev pub host_answer : Policy → State → Token
host_answer p s = (first_answer p.run (in_order p.run p.host_parent_first p.hosts) s).token

eval_own_profile-ScriptsPermit :
    (p : Policy) (o : Option ℕ) (s : State)
    → (eval_own_profile p o s).token ≡ permit
    → ScriptsPermit p o s
unfolding eval_own_profile author_eval_profile
eval_own_profile-ScriptsPermit p none s h = absurd (ground (arith, h))
eval_own_profile-ScriptsPermit p (some profile) s h =
    (eval_levels-permit p.run p.profile_parent_first (p.profile_scripts profile) s).0 h

is_permit-permit : (t : Token) → is_permit t ≡ true → t ≡ permit
unfolding is_permit
is_permit-permit permit h = refl
is_permit-permit unknown h = absurd (ground (arith, h))
is_permit-permit return h = absurd (ground (arith, h))
is_permit-permit deny h = absurd (ground (arith, h))

not_permit : (t : Token) → is_permit t ≡ false → t ≡ permit → ⊥
unfolding is_permit
not_permit permit h e = ground (arith, h)
not_permit unknown h e = ground (arith, e)
not_permit return h e = ground (arith, e)
not_permit deny h e = ground (arith, e)

decide-Permitted :
    (p : Policy) (a : Asked) (s : State)
    → (decide p a s).token ≡ permit
    → (a.authorized ≡ true) ⊎ Permitted p s
unfolding decide
decide-Permitted p a s h = elim (Bool-cases a.authorized) [
  | inl before ↦ inl before
  | inr now ↦ inr (asked (rw now at h))
]
  where
    r : Ran
    r = eval_ruleset p.eval_acl p.run p.profile_acls p.user_profile p.realm_parent_first p.realms s

    run_profile : Bool → Ran
    run_profile b = if b then eval_own_profile p r.state.profile r.state else r

    go : (b : Bool) → is_permit r.token ≡ b → (run_profile b).token ≡ permit → Permitted p s
    go true e w = (
      (eval_ruleset-permit p.eval_acl p.run p.profile_acls p.realm_parent_first p.realms s
            p.user_profile).0
          (is_permit-permit r.token e),
      eval_own_profile-ScriptsPermit p r.state.profile r.state w,
    )
    go false e w = absurd (not_permit r.token e w)

    asked : (run_profile (is_permit r.token)).token ≡ permit → Permitted p s
    asked = go (is_permit r.token) refl

answer_user-Passes :
    (p : Policy) (a : Asked) (r : Ran) → Passes (answer_user p a r ∷ []) → r.token ≡ permit
unfolding answer_user is_permit
answer_user-Passes p a r h = go r.token r.state h
  where
    go :
        (t : Token) (s : State)
        → Passes (answer_user p a (record { token = t; state = s }) ∷ [])
        → t ≡ permit
    go permit s h = refl
    go unknown s h = absurd h
    go return s h = absurd h
    go deny s h = absurd h

pub answer_lookup-Passes :
    (p : Policy) (a : Asked) (found : Lookup) (s : State)
    → Passes (answer_lookup p a found s)
    → Entitled p a found s
unfolding answer_lookup
answer_lookup-Passes p a pending s h = absurd h
answer_lookup-Passes p a backend_failure s h = absurd h
answer_lookup-Passes p a no_user s h = ground arith
answer_lookup-Passes p a (user true) s h = absurd h
answer_lookup-Passes p a (user false) s h =
    (refl, decide-Permitted p a s (answer_user-Passes p a (decide p a s) h))
