-- ===== src/Authen/AsciiLogin.antt =====
-- do_ascii_login of authen.c admits only users who may be let in.
use soteria_tacacs.Prelude.{
  ◌≡◌, refl, sym, ap, ◌∙◌, inl, inr, Bool, true, false, Option, none, some, arith, if◌then◌else◌,
  Bool-cases,
}
use soteria_tacacs.Authen.{
  Str, fn_chpass, fn_ascii_login, PwIx, pw_login, Pwdat, Session, Env, getuser, send, Done, guard,
}
use soteria_tacacs.Authen.Password.{has_no_error, Chosen, set_pwdat}
use soteria_tacacs.Authen.Steps.{
  is_empty, is_refusing, refuse_tac_session, set_tac_user, query_mavis_info_login, take_username,
  take_password, send_password_prompt,
}
use soteria_tacacs.Authen.Ascii.{
  do_chpass, is_open, ascii_verdict, starts_change, ascii_password, do_ascii_login,
}
use soteria_tacacs.Authen.Admitted.{Owned}
use soteria_tacacs.Authen.Quiet.{
  same-Keeps, take_password-Quiet, set_tac_user-Quiet, refuse_tac_session-Quiet,
  query_mavis_info_login-Quiet,
}
use soteria_tacacs.Authen.Choosing.{Choosing, set_pwdat-Choosing, take_password-user}
use soteria_tacacs.Authen.Safe.{not_refused, refused_same}
use soteria_tacacs.Authen.Dialog.{take_username-Keeps}
use soteria_tacacs.Authen.Changing.{Either, Either-Keeps, Lets, guard-Lets}
use soteria_tacacs.Authen.Shell.{send_password_prompt-ne, starts-Lets, ascii_verdict-Lets}

ascii_password-Lets :
    (e : Env) (s : Session) (pwdat : Option Pwdat) (ix : PwIx)
    → has_no_error pwdat ≡ true
    → Owned e s.user pwdat
    → Lets (Either e) s (ascii_password e pwdat ix s)
unfolding ascii_password
ascii_password-Lets e s pwdat ix ok own = go s.password
  where
    next :
        (p : Str) (b : Bool)
        → Lets (Either e) s (
            if b
            then do_chpass e
                (record s { password = none; authfn = some fn_chpass; flag_mavis_auth = false })
            else ascii_verdict e pwdat ix s)
    next p true =
        starts-Lets e s
          (record s { password = none; authfn = some fn_chpass; flag_mavis_auth = false })
          (same-Keeps refl refl)
    next p false = ascii_verdict-Lets e s pwdat ix ok own

    go :
        (o : Option Str)
        → Lets (Either e) s (
            let t : Done = elim o [
              | none ↦ send_password_prompt e fn_ascii_login ix s
              | some p ↦
                  if starts_change e ix s p
                  then do_chpass e (record s {
                    password = none;
                    authfn = some fn_chpass;
                    flag_mavis_auth = false;
                  })
                  else ascii_verdict e pwdat ix s
            ] in
            t)
    go none = λ h. absurd (send_password_prompt-ne e fn_ascii_login ix s h)
    go (some p) = next p (starts_change e ix s p)

ascii_tail-Lets :
    (e : Env) (s : Session) (c : Chosen)
    → Choosing e s c
    → Lets (Either e) s (
        guard (refuse_tac_session c.session c.ix) λ s.
          if is_open c.pwdat
          then ascii_verdict e c.pwdat c.ix s
          else guard (take_password e s) λ s. ascii_password e c.pwdat c.ix s)
ascii_tail-Lets e s c ch h = Either-Keeps ch.keeps (inner h)
  where
    rest : Session → Done
    rest t =
        if is_open c.pwdat
        then ascii_verdict e c.pwdat c.ix t
        else guard (take_password e t) λ s. ascii_password e c.pwdat c.ix s

    after : has_no_error c.pwdat ≡ true → Lets (Either e) c.session (rest c.session)
    after ok = pick (is_open c.pwdat)
      where
        owned : Owned e c.session.user c.pwdat
        owned = rw ch.same_user ch.owned

        pick :
            (b : Bool)
            → Lets (Either e) c.session (
                if b
                then ascii_verdict e c.pwdat c.ix c.session
                else guard (take_password e c.session) λ s. ascii_password e c.pwdat c.ix s)
        pick true = ascii_verdict-Lets e c.session c.pwdat c.ix ok owned
        pick false =
            guard-Lets (Either e) (take_password e c.session) _ (λ s' r. Either-Keeps)
              (take_password-Quiet e c.session)
              λ _.
                ascii_password-Lets e (take_password e c.session).0 c.pwdat c.ix ok
                  (rw (take_password-user e c.session) owned)

    inner : Lets (Either e) c.session (guard (refuse_tac_session c.session c.ix) rest)
    inner =
        guard-Lets (Either e) (refuse_tac_session c.session c.ix) rest (λ s' r. Either-Keeps)
          (refuse_tac_session-Quiet c.session c.ix)
          λ n. rw (refused_same c.session c.ix) (
            after (
              ch.clean
                (ap (λ o. is_refusing o c.ix) (sym ch.same_user) ∙ not_refused c.session c.ix n)))

pub do_ascii_login-Lets : (e : Env) (s : Session) → Lets (Either e) s (do_ascii_login e s)
unfolding do_ascii_login
do_ascii_login-Lets e s h = Either-Keeps (take_username-Keeps s) (go (take_username s) h)
  where
    go :
        (t : Session)
        → Lets (Either e) t (
            if is_empty t.username
            then (t, send getuser)
            else guard (set_tac_user e t) λ s.
              guard (query_mavis_info_login e fn_ascii_login s) λ s.
                let c = set_pwdat e s pw_login in
                guard (refuse_tac_session c.session c.ix) λ s.
                  if is_open c.pwdat
                  then ascii_verdict e c.pwdat c.ix s
                  else guard (take_password e s) λ s. ascii_password e c.pwdat c.ix s)
    go t = elim (Bool-cases (is_empty t.username)) [
      | inl z ↦ rw z (λ h. absurd (ground arith))
      | inr z ↦ rw z (
          guard-Lets (Either e) (set_tac_user e t) _ (λ s' r. Either-Keeps) (set_tac_user-Quiet e t)
            λ _.
              guard-Lets (Either e) (query_mavis_info_login e fn_ascii_login _) _
                (λ s' r. Either-Keeps) (query_mavis_info_login-Quiet e fn_ascii_login _)
                λ _. ascii_tail-Lets e _ _ (set_pwdat-Choosing e _ pw_login))
    ]
