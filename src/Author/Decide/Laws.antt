-- ===== src/Author/Decide/Laws.antt =====
-- When `do_author` lets a request pass, and how often it answers.
use soteria_tacacs.Prelude.{
  ◌≡◌, ◌≢◌, ◌⊎◌, ◌↔◌, refl, sym, ap, ◌∙◌, Bool, true, false, ◌&&◌, ◌==◌, ◌!=◌, Bool-cases, inl, inr,
  [], ◌∷◌, arith,
}
use soteria_tacacs.Script.{Token, unknown, return, permit, deny, State, Ran, acl_token}
use soteria_tacacs.Rules.{author_eval_host, eval_levels}
use soteria_tacacs.Rules.Order.{answer_of, in_order, first_answer, eval_levels-in_order}
use soteria_tacacs.Author.AvPairs.{pass_add}
use soteria_tacacs.Author.Decide.{
  Reply, passed, failed, errored, Lookup, pending, backend_failure, no_user, user, Policy, Asked,
  is_deny, decide, answer_user, answer_lookup, sent, goes_on_freed, do_author,
  authen_meth_tacacsplus, authen_type_ascii,
}
use soteria_tacacs.Author.Decide.Permitted.{LetsPass, Entitled, host_answer, answer_lookup-Passes}

is_deny_iff : (t : Token) → (is_deny t ≡ true) ↔ (t ≡ deny)
unfolding is_deny
is_deny_iff deny = (λ h. refl, λ h. refl)
is_deny_iff unknown = (λ h. absurd (ground arith), λ h. absurd (ground arith))
is_deny_iff return = (λ h. absurd (ground arith), λ h. absurd (ground arith))
is_deny_iff permit = (λ h. absurd (ground arith), λ h. absurd (ground arith))

is_deny-answer_of : (a b : Ran) → answer_of a ≡ answer_of b → is_deny a.token ≡ is_deny b.token
unfolding is_deny acl_token
is_deny-answer_of a b h = sym (same a.token) ∙ ap (λ r. is_deny r.token) h ∙ same b.token
  where
    same : (t : Token) → is_deny (acl_token t) ≡ is_deny t
    same unknown = refl
    same return = refl
    same permit = refl
    same deny = refl

host_denies :
    (p : Policy) (s : State)
    → is_deny (author_eval_host p.run p.host_parent_first p.hosts s).token
      ≡ is_deny (host_answer p s)
unfolding author_eval_host
host_denies p s =
    is_deny-answer_of (eval_levels p.run p.host_parent_first p.hosts s)
      (first_answer p.run (in_order p.run p.host_parent_first p.hosts) s)
      (eval_levels-in_order p.run p.host_parent_first p.hosts s)

not_denied : (b : Bool) → b ≡ false → b ≡ true → ⊥
not_denied b h e = ground (arith, h, e)

-- A request passes only if the first answer of the scripts of the host, in the order of asking, is
-- not a denial, and in the state that they leave: the user is unknown, was authenticated elsewhere
-- with an ASCII login, and the host lets such users pass; or the user is known and was authorized
-- already; or the user is known, and the rules, the ACL of the profile and the first answer of the
-- scripts of the profile permit the request.
pub do_author-Entitled :
    (p : Policy) (a : Asked) (found : Lookup) (s : State)
    → LetsPass (do_author p a found s)
    → (host_answer p s ≢ deny)
      × Entitled p a found (author_eval_host p.run p.host_parent_first p.hosts s).state
unfolding do_author
do_author-Entitled p a found s h =
    let host = author_eval_host p.run p.host_parent_first p.hosts s in
    elim (Bool-cases (is_deny host.token)) [
      | inl denied ↦ absurd (rw denied at h)
      | inr open_host ↦ (
        λ e.
            not_denied (is_deny (host_answer p s)) (sym (host_denies p s) ∙ open_host)
              ((is_deny_iff (host_answer p s)).1 e),
        answer_lookup-Passes p a found host.state (rw open_host at h),
      )
    ]

answer_lookup-once :
    (p : Policy) (a : Asked) (found : Lookup) (s : State)
    → found ≢ pending
    → (r : Reply) × (answer_lookup p a found s ≡ r ∷ [])
unfolding answer_lookup
answer_lookup-once p a pending s h = absurd (h refl)
answer_lookup-once p a backend_failure s h = (errored, refl)
answer_lookup-once p a no_user s h =
    elim (Bool-cases (
      p.authz_if_authc
      && (a.authen_method != authen_meth_tacacsplus && a.authen_type == authen_type_ascii))) [
        | inl local ↦ (passed pass_add [], rw local refl)
        | inr nobody ↦ (failed, rw nobody refl)
      ]
answer_lookup-once p a (user true) s h = (errored, refl)
answer_lookup-once p a (user false) s h = (answer_user p a (decide p a s), refl)

-- For a request whose user has been looked up, either the first answer of the scripts of the host, in
-- the order of asking, is a denial, and `do_author` sends a FAIL and goes on with the session that
-- this reply has freed; or it is none, and the request gets exactly one reply.
pub do_author-replies :
    (p : Policy) (a : Asked) (found : Lookup) (s : State)
    → found ≢ pending
    → ((host_answer p s ≡ deny) × (do_author p a found s ≡ goes_on_freed failed))
      ⊎ ((host_answer p s ≢ deny) × ((r : Reply) × (do_author p a found s ≡ sent (r ∷ []))))
unfolding do_author
do_author-replies p a found s h =
    let host = author_eval_host p.run p.host_parent_first p.hosts s in
    let (to_deny, from_deny) = is_deny_iff (host_answer p s) in
    elim (Bool-cases (is_deny host.token)) [
      | inl denied ↦ inl (to_deny (sym (host_denies p s) ∙ denied), rw denied refl)
      | inr open_host ↦
          let (r, e) = answer_lookup-once p a found host.state h in
          inr (
            λ x.
                not_denied (is_deny (host_answer p s)) (sym (host_denies p s) ∙ open_host)
                  (from_deny x),
            (r, rw open_host (ap sent e)),
          )
    ]
