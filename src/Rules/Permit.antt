-- ===== src/Rules/Permit.antt =====
-- When `eval_ruleset` permits a request.
use soteria_tacacs.Prelude.{
  ℕ, ◌≡◌, ◌↔◌, refl, sym, ap, ◌∙◌, Bool, true, Bool-cases, inl, inr, List, [], ◌∷◌, ◌≢◌, ◌⊎◌,
  Option, none, some, if◌then◌else◌, arith,
}
use soteria_tacacs.Script.{
  Token, unknown, return, permit, deny, State, Ran, acl_token, Script, is_permit,
}
use soteria_tacacs.Rules.{
  Level, eval_levels, eval_ruleset_r, eval_own_acl, eval_profile_acl, eval_profile, eval_ruleset,
}
use soteria_tacacs.Rules.Order.{answer_of, in_order, first_answer, eval_levels-in_order}

is_permit_iff : (t : Token) → (is_permit t ≡ true) ↔ (t ≡ permit)
unfolding is_permit
is_permit_iff permit = (λ h. refl, λ h. refl)
is_permit_iff unknown = (λ h. absurd (ground arith), λ h. absurd (ground arith))
is_permit_iff return = (λ h. absurd (ground arith), λ h. absurd (ground arith))
is_permit_iff deny = (λ h. absurd (ground arith), λ h. absurd (ground arith))

is_permit-answer_of :
    (a b : Ran) → answer_of a ≡ answer_of b → is_permit a.token ≡ is_permit b.token
unfolding is_permit acl_token
is_permit-answer_of a b h = sym (same a.token) ∙ ap (λ r. is_permit r.token) h ∙ same b.token
  where
    same : (t : Token) → is_permit (acl_token t) ≡ is_permit t
    same unknown = refl
    same return = refl
    same permit = refl
    same deny = refl

is_permit_same : (a b : Token) → is_permit a ≡ is_permit b → (a ≡ permit) ↔ (b ≡ permit)
is_permit_same a b e =
    let (a_to, a_from) = is_permit_iff a in
    let (b_to, b_from) = is_permit_iff b in (λ h. b_to (sym e ∙ a_from h), λ h. a_to (e ∙ b_from h))

-- Whether the recursion over levels permits, by the first answer in the order of asking.
pub eval_levels-permit :
    {A : Type 0} (run : A → State → Ran) (parent_first : Bool) (levels : List (Level A)) (s : State)
    → ((eval_levels run parent_first levels s).token ≡ permit)
      ↔ ((first_answer run (in_order run parent_first levels) s).token ≡ permit)
eval_levels-permit run parent_first levels s =
    let a = eval_levels run parent_first levels s in
    let b = first_answer run (in_order run parent_first levels) s in
    is_permit_same a.token b.token
      (is_permit-answer_of a b (eval_levels-in_order run parent_first levels s))

no_item : {m : Script} {own : List Script} → [] ≡ m ∷ own → ⊥
no_item h = ground (arith, h)

-- the token that `eval_ruleset` makes of a result
verdict_iff : (t : Token) → ((if is_permit t then permit else deny) ≡ permit) ↔ (t ≡ permit)
unfolding is_permit
verdict_iff permit = (λ h. refl, λ h. refl)
verdict_iff unknown = (λ h. absurd (ground arith), λ h. absurd (ground arith))
verdict_iff return = (λ h. absurd (ground arith), λ h. absurd (ground arith))
verdict_iff deny = (λ h. absurd (ground arith), λ h. absurd (ground arith))

module _ (run : Script → State → Ran) (parent_first : Bool) where
  -- A profile without an ACL of its own permits; else the first answer of its ACL scripts and those
  -- of its parents, in the order of asking, is to be a permit.
  abbrev pub AclPermits : List (Level Script) → State → Type 0
  AclPermits [] s = Unit
  AclPermits (profile ∷ parents) s =
      (profile.own ≡ [])
      ⊎ ((first_answer run (in_order run parent_first (profile ∷ parents)) s).token ≡ permit)

  eval_own_acl-AclPermits :
      (levels : List (Level Script)) (s : State)
      → ((eval_own_acl run parent_first levels s).token ≡ permit) ↔ AclPermits levels s
  unfolding eval_own_acl eval_profile_acl
  eval_own_acl-AclPermits [] s = (λ h. tt, λ h. refl)
  eval_own_acl-AclPermits (profile ∷ parents) s = go profile.own refl
    where
      scripts : (own : List Script) → Ran
      scripts own = elim own [
        | [] ↦ record { token = permit; state = s }
        | m ∷ own' ↦ eval_profile_acl run parent_first (profile ∷ parents) s
      ]

      go :
          (own : List Script)
          → profile.own ≡ own
          → ((scripts own).token ≡ permit) ↔ AclPermits (profile ∷ parents) s
      go [] e = (λ h. inl e, λ h. refl)
      go (m ∷ own') e =
          let (to, from) = eval_levels-permit run parent_first (profile ∷ parents) s in
          (λ h. inr (to h), λ h. elim h [ inl z ↦ absurd (no_item (sym z ∙ e)) | inr y ↦ from y ])

-- the same for the profile of a session, if there is one
abbrev pub ProfilePermits :
    (Script → State → Ran) → (ℕ → List (Level Script)) → Bool → Option ℕ → State → Type 0
ProfilePermits run profiles parent_first none s = Unit
ProfilePermits run profiles parent_first (some p) s = AclPermits run parent_first (profiles p) s

eval_profile-ProfilePermits :
    (run : Script → State → Ran) (profiles : ℕ → List (Level Script)) (parent_first : Bool)
    (o : Option ℕ) (s : State)
    → ((eval_profile run profiles parent_first o s).token ≡ permit)
      ↔ ProfilePermits run profiles parent_first o s
unfolding eval_profile
eval_profile-ProfilePermits run profiles parent_first none s = (λ h. tt, λ h. refl)
eval_profile-ProfilePermits run profiles parent_first (some p) s =
    eval_own_acl-AclPermits run parent_first (profiles p) s

module _ (eval_acl : ℕ → State → Ran) (run : Script → State → Ran)
    (profiles : ℕ → List (Level Script)) (parent_first : Bool) (realms : List (Level ℕ))
    (s : State) where
  -- the first answer of the enabled rules
  abbrev pub by_rules : Ran
  by_rules = first_answer eval_acl (in_order eval_acl parent_first realms) s

  abbrev by_profile : Ran → Ran
  by_profile r = eval_profile run profiles parent_first r.state.profile r.state

  -- the rest of `eval_ruleset`
  abbrev finish : Bool → Ran → Token
  finish permits r = if is_permit (if permits then by_profile r else r).token then permit else deny

  rules_lem :
      (a b : Ran)
      → answer_of a ≡ answer_of b
      → (finish (is_permit a.token) a ≡ permit)
        ↔ ((b.token ≡ permit) × ((by_profile b).token ≡ permit))
  rules_lem a b h =
      let e = is_permit-answer_of a b h in
      let states : by_profile a ≡ by_profile b =
        ap (λ r. eval_profile run profiles parent_first r.state.profile r.state) h in
      rw (e, states)
        (elim (Bool-cases (is_permit b.token)) [
          | inl asked ↦ ground (arith, is_permit_iff b.token, is_permit_iff (by_profile b).token)
          | inr no_one ↦ ground (arith, e, is_permit_iff b.token, is_permit_iff a.token)
        ])

  -- The rules permit a request: the first rule that answers, in the order of asking, is a permit; or
  -- the user has a profile, and there are realms. The ACL of the profile is to permit it too.
  abbrev pub RulesPermit : Option ℕ → Type 0
  RulesPermit none =
      (by_rules.token ≡ permit)
      × ProfilePermits run profiles parent_first by_rules.state.profile by_rules.state
  RulesPermit (some p) =
      (realms ≢ [])
      × ProfilePermits run profiles parent_first (some p) (record s { profile = some p })

  -- A request is permitted exactly if the rules permit it, and then the ACL of the profile. For a user
  -- without a profile of the user's own, the first rule that answers, in the order of asking, has to
  -- be a permit, and the profile is the one that the rule has set; for a user with one, no rule is
  -- asked, and there is only to be a realm. An ACL permits if the first of its scripts that answers
  -- permits, and also if the profile has none of its own.
  pub eval_ruleset-permit :
      (user_profile : Option ℕ)
      → ((eval_ruleset eval_acl run profiles user_profile parent_first realms s).token ≡ permit)
        ↔ RulesPermit user_profile
  unfolding eval_ruleset eval_ruleset_r is_permit
  eval_ruleset-permit none =
      let (to, from) =
        rules_lem (eval_levels eval_acl parent_first realms s) by_rules
          (eval_levels-in_order eval_acl parent_first realms s) in
      let (acl_to, acl_from) =
        eval_profile-ProfilePermits run profiles parent_first by_rules.state.profile
          by_rules.state in
      (λ h. let (x, y) = to h in (x, acl_to y), λ (x, y). from (x, acl_from y))
  eval_ruleset-permit (some p) = own_profile realms
    where
      own_profile :
          (rs : List (Level ℕ))
          → (finish
                (is_permit (eval_ruleset_r eval_acl (some p) parent_first rs s).token)
                (eval_ruleset_r eval_acl (some p) parent_first rs s)
              ≡ permit)
            ↔ ((rs ≢ [])
                × ProfilePermits run profiles parent_first (some p) (record s { profile = some p }))
      own_profile [] = (λ h. absurd (ground (arith, h)), λ (x, y). absurd (x refl))
      own_profile (realm ∷ rs) =
          let s' = record s { profile = some p } in
          let (to, from) = verdict_iff (eval_profile run profiles parent_first (some p) s').token in
          let (acl_to, acl_from) =
            eval_profile-ProfilePermits run profiles parent_first (some p) s' in
          (λ h. (λ e. ground (arith, e), acl_to (to h)), λ (x, y). from (acl_from y))
