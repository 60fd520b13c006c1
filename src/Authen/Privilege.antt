-- ===== src/Authen/Privilege.antt =====
-- The enable dialogs of authen.c admit only users who may be let in, or who know the enable
-- password.
use soteria_tacacs.Prelude.{
  ◌≡◌, refl, sym, ap, ◌∙◌, ◌⊎◌, inl, inr, Bool, true, false, not, Option, none, some, if◌then◌else◌,
}
use soteria_tacacs.Authen.{
  Str, s_permit, AuthFn, fn_enable_login, PwIx, pw_login, Pwdat, Session, Env, Done, Step, guard,
}
use soteria_tacacs.Authen.Password.{compare_pwdat, has_no_error, Chosen, set_pwdat}
use soteria_tacacs.Authen.Steps.{
  is_some, is_refusing, refuse_tac_session, set_tac_user, password_requirements_failed,
  query_mavis_auth_login, query_mavis_info_login, take_password, send_password_prompt, reply_access,
}
use soteria_tacacs.Authen.Enable.{do_enable_login, split_blank, then_set_user, take_credentials}
use soteria_tacacs.Authen.Admitted.{Admitted, Owned}
use soteria_tacacs.Authen.Kept.{check_access-password}
use soteria_tacacs.Authen.Quiet.{
  Keeps, same-Keeps, Quiet, Admitted-Keeps, requirements-Quiet, take_password-Quiet,
  set_tac_user-Quiet, refuse_tac_session-Quiet, query_mavis_info_login-Quiet,
  query_mavis_auth_login-Quiet,
}
use soteria_tacacs.Authen.Choosing.{
  Choosing, set_pwdat-Choosing, reply_access-Passes, take_password-user,
}
use soteria_tacacs.Authen.Safe.{not_refused, refused_same, sent, query_mavis_auth_login-user}
use soteria_tacacs.Authen.Dialog.{go_on-Quiet}
use soteria_tacacs.Authen.Changing.{Lets, guard-Lets}
use soteria_tacacs.Authen.Shell.{send_password_prompt-ne}

-- A user who may be let in, or an enable password that fits what was sent.
abbrev pub Enabled : Env → Session → Session → Type 0
Enabled e s r =
    Admitted e s r r.password
    ⊎ ((p : Pwdat) × (r.enable ≡ some p) × (compare_pwdat e p r.username r.msg ≡ s_permit))

pub Enabled-Keeps : {e : Env} {s s' r : Session} → Keeps s s' → Enabled e s' r → Enabled e s r
Enabled-Keeps k (inl a) = inl (Admitted-Keeps k a)
Enabled-Keeps k (inr a) = inr a

pub anti : (e : Env) (s s' r : Session) → Keeps s s' → Enabled e s' r → Enabled e s r
anti e s s' r k a = Enabled-Keeps k a

-- the refusal after the choice of a password
pub refused-Lets :
    (e : Env) (s : Session) (c : Chosen) (k : Session → Done)
    → Choosing e s c
    → (has_no_error c.pwdat ≡ true
        → Owned e c.session.user c.pwdat
        → Lets (Enabled e) c.session (k c.session))
    → Lets (Enabled e) s (guard (refuse_tac_session c.session c.ix) k)
refused-Lets e s c k ch f h = Enabled-Keeps ch.keeps (inner h)
  where
    inner : Lets (Enabled e) c.session (guard (refuse_tac_session c.session c.ix) k)
    inner =
        guard-Lets (Enabled e) (refuse_tac_session c.session c.ix) k (anti e c.session)
          (refuse_tac_session-Quiet c.session c.ix)
          λ n. rw (refused_same c.session c.ix) (
            f
              (ch.clean
                (ap (λ o. is_refusing o c.ix) (sym ch.same_user) ∙ not_refused c.session c.ix n))
              (rw ch.same_user ch.owned))

pub reply_access-Lets :
    (e : Env) (s : Session) (pwdat : Option Pwdat)
    → has_no_error pwdat ≡ true
    → Owned e s.user pwdat
    → Lets (Enabled e) s (reply_access e pwdat s.password s)
reply_access-Lets e s pwdat ok own h = inl (
    reply_access-Passes e s pwdat s.password sent ok own
      (check_access-password e s pwdat s.password).0 h)

-- the query for the verdict of the backend, and what follows it
pub queried-Lets :
    (e : Env) (s : Session) (f : AuthFn) (ix : PwIx) (pwdat : Option Pwdat) (k : Session → Done)
    → Owned e s.user pwdat
    → ((t : Session) → Owned e t.user pwdat → Lets (Enabled e) t (k t))
    → Lets (Enabled e) s (guard (query_mavis_auth_login e f ix s) k)
queried-Lets e s f ix pwdat k own h =
    guard-Lets (Enabled e) (query_mavis_auth_login e f ix s) k (anti e s)
      (query_mavis_auth_login-Quiet e f ix s)
      λ _. h (query_mavis_auth_login e f ix s).0 (rw (query_mavis_auth_login-user e f ix s) own)

-- the prompt for the password, or what follows with one
pub prompted-Lets :
    (e : Env) (s : Session) (f : AuthFn) (ix : PwIx) (d : Done)
    → Lets (Enabled e) s d
    → Lets (Enabled e) s (if not (is_some s.password) then send_password_prompt e f ix s else d)
prompted-Lets e s f ix d h = go (not (is_some s.password))
  where
    go : (b : Bool) → Lets (Enabled e) s (if b then send_password_prompt e f ix s else d)
    go true = λ z. absurd (send_password_prompt-ne e f ix s z)
    go false = h

pub taken-Lets :
    (e : Env) (s : Session) (pwdat : Option Pwdat) (k : Session → Done)
    → Owned e s.user pwdat
    → ((t : Session) → Owned e t.user pwdat → Lets (Enabled e) t (k t))
    → Lets (Enabled e) s (guard (take_password e s) k)
taken-Lets e s pwdat k own h =
    guard-Lets (Enabled e) (take_password e s) k (anti e s) (take_password-Quiet e s)
      λ _. h (take_password e s).0 (rw (take_password-user e s) own)

pub do_enable_login-Lets : (e : Env) (s : Session) → Lets (Enabled e) s (do_enable_login e s)
unfolding do_enable_login
do_enable_login-Lets e s =
    guard-Lets (Enabled e) (set_tac_user e s) _ (anti e s) (set_tac_user-Quiet e s) λ _.
      guard-Lets (Enabled e) (query_mavis_info_login e fn_enable_login _) _ (anti e _)
        (query_mavis_info_login-Quiet e fn_enable_login _) λ _. tail _
  where
    tail :
        (t : Session)
        → Lets (Enabled e) t (
            let c = set_pwdat e t pw_login in
            guard (refuse_tac_session c.session c.ix) λ s. guard (take_password e s) λ s.
              if not (is_some s.password)
              then send_password_prompt e fn_enable_login c.ix s
              else guard
                  (query_mavis_auth_login e fn_enable_login c.ix s)
                  λ s. reply_access e c.pwdat s.password s)
    tail t =
        let c = set_pwdat e t pw_login in
        refused-Lets e t c _ (set_pwdat-Choosing e t pw_login) λ ok own.
          taken-Lets e c.session c.pwdat _ own λ t own. prompted-Lets e t fn_enable_login c.ix _ (
            queried-Lets e t fn_enable_login c.ix c.pwdat _ own
              λ t own. reply_access-Lets e t c.pwdat ok own)

then_set_user-Quiet : (e : Env) (s : Session) (m : Step) → Quiet s m → Quiet s (then_set_user e m)
then_set_user-Quiet e s (s', some a) q = q
then_set_user-Quiet e s (s', none) q =
    let u = set_tac_user-Quiet e s' in
    record {
      no_pass = u.no_pass;
      keeps = record {
        backend = λ h. q.keeps.backend (u.keeps.backend h);
        allowed = u.keeps.allowed ∙ q.keeps.allowed;
      };
    }

pub take_credentials-Quiet : (e : Env) (s : Session) → Quiet s (take_credentials e s)
unfolding take_credentials
take_credentials-Quiet e s = go s.msg
  where
    split :
        (w : Option (Str × Str))
        → Quiet s (
            let t : Step = elim w [
              | none ↦ (s, none)
              | some w ↦ then_set_user e (
                  password_requirements_failed e
                    (record s { username = w.0; password = some w.1; msg = none }))
            ] in
            t)
    split none = go_on-Quiet s
    split (some w) = then_set_user-Quiet e s _ (requirements-Quiet e s _ (same-Keeps refl refl))

    go :
        (o : Option Str)
        → Quiet s (
            let t : Step = elim o [
              | none ↦ (s, none)
              | some m ↦ elim (split_blank m) [
                | none ↦ (s, none)
                | some w ↦ then_set_user e (
                    password_requirements_failed e
                      (record s { username = w.0; password = some w.1; msg = none }))
              ]
            ] in
            t)
    go none = go_on-Quiet s
    go (some m) = split (split_blank m)
