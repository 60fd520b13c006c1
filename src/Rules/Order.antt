-- ===== src/Rules/Order.antt =====
-- The order in which realms, hosts and profiles are asked.
use soteria_tacacs.Prelude.{
  ◌≡◌, refl, sym, ap, ◌∙◌, Bool, true, false, not, ◌&&◌, Bool-cases, inl, inr, List, [], ◌∷◌, ◌++◌,
  append-nil, if◌then◌else◌, arith,
}
use soteria_tacacs.Script.{Token, unknown, return, permit, deny, State, Ran, acl_token}
use soteria_tacacs.Rules.{settled, Level, run_own, eval_levels}

-- what counts of a result: whether it permits, denies or leaves the question open
abbrev pub answer_of : Ran → Ran
answer_of r = record r { token = acl_token r.token }

module _ {ℓ} {A : Type ℓ} (run : A → State → Ran) where
  -- all that may be asked, in the order of asking: a level's own first, or its parents' first, and
  -- no parents where they are skipped
  abbrev pub in_order : Bool → List (Level A) → List A
  in_order parent_first [] = []
  in_order parent_first (level ∷ parents) =
      let up = if level.skip_parent then [] else in_order parent_first parents in
      if parent_first then up ++ level.own else level.own ++ up

  -- the first answer of some that are asked in turn
  abbrev pub first_answer : List A → State → Ran
  first_answer [] s = record { token = unknown; state = s }
  first_answer (x ∷ xs) s =
      let r = run x s in let rest = first_answer xs r.state in if settled r.token then r else rest

  pub run_own-first_answer :
      (xs : List A) (res : Token) (s : State)
      → settled res ≡ false
      → answer_of (run_own run xs res s) ≡ answer_of (first_answer xs s)
  unfolding run_own settled acl_token
  run_own-first_answer [] unknown s h = refl
  run_own-first_answer [] return s h = refl
  run_own-first_answer [] permit s h = absurd (ground arith)
  run_own-first_answer [] deny s h = absurd (ground arith)
  run_own-first_answer (x ∷ xs) res s h = elim (Bool-cases (settled (run x s).token)) [
    | inl stop ↦ rw stop refl
    | inr on ↦ rw on (run_own-first_answer xs (run x s).token (run x s).state on)
  ]

  -- What goes on after a result that leaves the question open.
  abbrev continue : (State → Ran) → Ran → Ran
  continue next r = if settled r.token then r else next r.state

  first_answer-append :
      (xs ys : List A) (s : State)
      → first_answer (xs ++ ys) s ≡ continue (first_answer ys) (first_answer xs s)
  unfolding settled
  first_answer-append [] ys s = refl
  first_answer-append (x ∷ xs) ys s = elim (Bool-cases (settled (run x s).token)) [
    | inl stop ↦ rw (stop, stop) refl
    | inr on ↦ rw on (first_answer-append xs ys (run x s).state)
  ]

  settled-answer_of : (a b : Ran) → answer_of a ≡ answer_of b → settled a.token ≡ settled b.token
  unfolding settled acl_token
  settled-answer_of a b h = sym (same a.token) ∙ ap (λ r. settled r.token) h ∙ same b.token
    where
      same : (t : Token) → settled (acl_token t) ≡ settled t
      same unknown = refl
      same return = refl
      same permit = refl
      same deny = refl

  continue_cong :
      (next next' : State → Ran) (a b : Ran)
      → answer_of a ≡ answer_of b
      → ((s : State) → answer_of (next s) ≡ answer_of (next' s))
      → answer_of (continue next a) ≡ answer_of (continue next' b)
  continue_cong next next' a b h k =
      let e = settled-answer_of a b h in
      let states : a.state ≡ b.state = ap (λ r. r.state) h in
      elim (Bool-cases (settled b.token)) [
        | inl stop ↦ rw (e, stop) h
        | inr on ↦ rw (e, on) (k a.state ∙ ap (λ s. answer_of (next' s)) states)
      ]

  own_after :
      (own : List A) (before : Ran)
      → answer_of
          (if settled before.token then before else run_own run own before.token before.state)
        ≡ answer_of (continue (first_answer own) before)
  own_after own before = elim (Bool-cases (settled before.token)) [
    | inl stop ↦ rw stop refl
    | inr on ↦ rw on (run_own-first_answer own before.token before.state on)
  ]

  abbrev here : List A → State → Ran
  here own s =
      if settled unknown then record { token = unknown; state = s } else run_own run own unknown s

  own_first : (own : List A) (s : State) → answer_of (here own s) ≡ answer_of (first_answer own s)
  unfolding settled
  own_first own s = run_own-first_answer own unknown s refl

  up_after :
      (up : State → Ran) (here : Ran)
      → (if not (settled here.token) && true then up here.state else here) ≡ continue up here
  up_after up here = elim (Bool-cases (settled here.token)) [
    | inl stop ↦ rw stop refl
    | inr on ↦ rw on refl
  ]

  up_skipped :
      (up : State → Ran) (here : Ran)
      → (if not (settled here.token) && false then up here.state else here) ≡ here
  up_skipped up here = elim (Bool-cases (settled here.token)) [
    | inl stop ↦ rw stop refl
    | inr on ↦ rw on refl
  ]

  -- The recursion over the parents comes to the first permit or deny in the order of asking, and
  -- leaves the state that the scripts up to there leave; it leaves the question open if nobody
  -- answers.
  pub eval_levels-in_order :
      (parent_first : Bool) (levels : List (Level A)) (s : State)
      → answer_of (eval_levels run parent_first levels s)
        ≡ answer_of (first_answer (in_order parent_first levels) s)
  unfolding eval_levels
  eval_levels-in_order parent_first [] s = refl
  eval_levels-in_order true (level ∷ parents) s = elim (Bool-cases level.skip_parent) [
    | inl alone ↦ rw alone (own_first level.own s)
    | inr below ↦
        let up = eval_levels run true parents s in
        let above = first_answer (in_order true parents) s in
        rw (below, first_answer-append (in_order true parents) level.own s)
          (own_after level.own up
            ∙ continue_cong (first_answer level.own) (first_answer level.own) up above
                (eval_levels-in_order true parents s) (λ t. refl))
  ]
  eval_levels-in_order false (level ∷ parents) s = elim (Bool-cases level.skip_parent) [
    | inl alone ↦
        rw (alone, append-nil level.own)
          (ap answer_of (up_skipped (eval_levels run false parents) (here level.own s))
            ∙ own_first level.own s)
    | inr below ↦
        let up = eval_levels run false parents in
        let asked = in_order false parents in
        rw (below, first_answer-append level.own asked s)
          (ap answer_of (up_after up (here level.own s))
            ∙ continue_cong up (first_answer asked) (here level.own s) (first_answer level.own s)
                (own_first level.own s) (eval_levels-in_order false parents))
  ]
