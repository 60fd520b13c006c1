-- ===== src/Authen/Safe.antt =====
-- The logins of authen.c that end in one round admit only users who may be let in.
use soteria_tacacs.Prelude.{
  ◌≡◌, refl, sym, ap, ◌∙◌, inl, inr, Bool, true, false, Option, none, some, arith, if◌then◌else◌,
  Bool-cases,
}
use soteria_tacacs.Authen.{
  Str, AuthFn, fn_login, fn_pap, PwIx, pw_login, pw_pap, is_pw_login, Session, Env, send_error,
  Done, Step, guard,
}
use soteria_tacacs.Authen.Password.{has_no_error, Chosen, set_pwdat}
use soteria_tacacs.Authen.Steps.{
  is_refusing, refuse_tac_session, set_tac_user, query_mavis_auth_login, query_mavis_info_login,
  take_data, reply_access, query_mavis_info_pap, query_mavis_auth_pap,
}
use soteria_tacacs.Authen.Logins.{do_login, do_pap}
use soteria_tacacs.Authen.Admitted.{Owned}
use soteria_tacacs.Authen.Kept.{check_access-password}
use soteria_tacacs.Authen.Quiet.{
  Passes, Quiet, guard-Passes, Admitted-Keeps, take_data-Quiet, set_tac_user-Quiet,
  refuse_tac_session-Quiet, query_mavis_info_login-Quiet, query_mavis_auth_login-Quiet,
  query_mavis_info_pap-Quiet, query_mavis_auth_pap-Quiet,
}
use soteria_tacacs.Authen.Choosing.{Choosing, set_pwdat-Choosing, reply_access-Passes}

-- a session that is not refused
pub not_refused :
    (s : Session) (ix : PwIx) → (refuse_tac_session s ix).1 ≡ none → is_refusing s.user ix ≡ false
unfolding refuse_tac_session
not_refused s ix h = go (is_refusing s.user ix) h
  where
    go : (b : Bool) → (if b then some send_error else none) ≡ none → b ≡ false
    go true h = ground arith
    go false h = refl

pub refused_same : (s : Session) (ix : PwIx) → (refuse_tac_session s ix).0 ≡ s
unfolding refuse_tac_session
refused_same s ix = refl

-- the password that was sent
abbrev pub sent : Session → Option Str
sent r = r.password

-- the last part of a login: the refusal, a query that leaves the user alone, and check_access
pub verified-Passes :
    (e : Env) (s : Session) (c : Chosen) (q : Session → Step)
    → Choosing e s c
    → ((t : Session) → Quiet t (q t))
    → ((t : Session) → (q t).0.user ≡ t.user)
    → Passes e s sent (
        guard
          (refuse_tac_session c.session c.ix)
          λ t. guard (q t) λ t. reply_access e c.pwdat t.password t)
verified-Passes e s c q ch quiet same h = Admitted-Keeps ch.keeps (inner h)
  where
    end : Session → Done
    end t = reply_access e c.pwdat t.password t

    owned : Owned e (q c.session).0.user c.pwdat
    owned = rw (same c.session, ch.same_user) ch.owned

    last : has_no_error c.pwdat ≡ true → Passes e (q c.session).0 sent (end (q c.session).0)
    last ok =
        reply_access-Passes e (q c.session).0 c.pwdat (q c.session).0.password sent ok owned
          (check_access-password e (q c.session).0 c.pwdat (q c.session).0.password).0

    inner : Passes e c.session sent (guard (refuse_tac_session c.session c.ix) λ t. guard (q t) end)
    inner =
        guard-Passes sent (refuse_tac_session c.session c.ix) (λ t. guard (q t) end)
          (refuse_tac_session-Quiet c.session c.ix)
          λ n. rw (refused_same c.session c.ix) (
            guard-Passes sent (q c.session) end (quiet c.session) λ _. last (
              ch.clean
                (ap (λ o. is_refusing o c.ix) (sym ch.same_user) ∙ not_refused c.session c.ix n)))

pub query_mavis_auth_login-user :
    (e : Env) (f : AuthFn) (ix : PwIx) (s : Session)
    → (query_mavis_auth_login e f ix s).0.user ≡ s.user
unfolding query_mavis_auth_login
query_mavis_auth_login-user e f ix s = refl

query_mavis_auth_pap-user :
    (e : Env) (f : AuthFn) (ix : PwIx) (s : Session)
    → (query_mavis_auth_pap e f ix s).0.user ≡ s.user
unfolding query_mavis_auth_pap
query_mavis_auth_pap-user e f ix s = refl

pub do_login-Passes : (e : Env) (s : Session) → Passes e s sent (do_login e s)
unfolding do_login
do_login-Passes e s = guard-Passes sent (take_data e s) _ (take_data-Quiet e s) λ _.
    guard-Passes sent (set_tac_user e _) _ (set_tac_user-Quiet e _) λ _.
      guard-Passes sent (query_mavis_info_login e fn_login _) _
        (query_mavis_info_login-Quiet e fn_login _)
        λ _.
          verified-Passes e _ _ (query_mavis_auth_login e fn_login _)
            (set_pwdat-Choosing e _ pw_login) (query_mavis_auth_login-Quiet e fn_login _)
            (query_mavis_auth_login-user e fn_login _)

pub do_pap-Passes : (e : Env) (s : Session) → Passes e s sent (do_pap e s)
unfolding do_pap
do_pap-Passes e s = guard-Passes sent (take_data e s) _ (take_data-Quiet e s) λ _.
    guard-Passes sent (set_tac_user e _) _ (set_tac_user-Quiet e _) λ _.
      guard-Passes sent (query_mavis_info_pap e fn_pap _) _ (query_mavis_info_pap-Quiet e fn_pap _)
        λ _. either _
  where
    either :
        (t : Session)
        → Passes e t sent (
            let c = set_pwdat e t pw_pap in
            if is_pw_login c.ix
            then do_login e
                (record c.session { authfn = some fn_login; data_field = c.session.password })
            else guard (refuse_tac_session c.session c.ix) λ s.
              guard (query_mavis_auth_pap e fn_pap c.ix s) λ s. reply_access e c.pwdat s.password s)
    either t =
        let c = set_pwdat e t pw_pap in
        let ch : Choosing e t c = set_pwdat-Choosing e t pw_pap in
        elim (Bool-cases (is_pw_login c.ix)) [
          | inl z ↦ rw z (λ h.
              Admitted-Keeps (record { backend = ch.keeps.backend; allowed = ch.keeps.allowed })
                (do_login-Passes e
                  (record c.session { authfn = some fn_login; data_field = c.session.password }) h))
          | inr z ↦ rw z (
              verified-Passes e t c (query_mavis_auth_pap e fn_pap c.ix) ch
                (query_mavis_auth_pap-Quiet e fn_pap c.ix)
                (query_mavis_auth_pap-user e fn_pap c.ix))
        ]
