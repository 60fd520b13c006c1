-- ===== src/Authen/Getuser.antt =====
-- do_enable_getuser and do_enable of authen.c.
use soteria_tacacs.Prelude.{
  ◌≡◌, refl, Bool, true, false, not, Option, none, some, [], arith, if◌then◌else◌,
}
use soteria_tacacs.Authen.{
  is_permit, fn_enable, fn_enable_getuser, PwIx, pw_login, Pwdat, Session, Env, fail, getuser, send,
  Done, guard,
}
use soteria_tacacs.Authen.Password.{check_access, set_pwdat}
use soteria_tacacs.Authen.Steps.{
  is_some, is_empty, refuse_tac_session, set_tac_user, query_mavis_auth_login,
  query_mavis_info_login, take_username, take_password, send_password_prompt,
}
use soteria_tacacs.Authen.Enable.{
  do_enable_augmented, do_enable_rest, is_augmented, start_augmented, do_enable_again,
  getuser_reply, do_enable_getuser, asks_user, do_enable,
}
use soteria_tacacs.Authen.Quiet.{
  Keeps, same-Keeps, set_tac_user-Quiet, query_mavis_info_login-Quiet,
}
use soteria_tacacs.Authen.Choosing.{set_pwdat-Choosing}
use soteria_tacacs.Authen.Dialog.{take_username-Keeps}
use soteria_tacacs.Authen.Changing.{Lets, guard-Lets}
use soteria_tacacs.Authen.Shell.{check_access-Keeps}
use soteria_tacacs.Authen.Privilege.{
  Enabled, Enabled-Keeps, anti, refused-Lets, queried-Lets, prompted-Lets, taken-Lets,
}
use soteria_tacacs.Authen.Enabling.{
  do_enable_augmented-Lets, do_enable_rest-Lets, do_enable_again-Lets,
}

getuser_reply-Lets :
    (e : Env) (s : Session) (pwdat : Option Pwdat) → Lets (Enabled e) s (getuser_reply e pwdat s)
unfolding getuser_reply
getuser_reply-Lets e s pwdat = go (is_permit (check_access e s pwdat s.password).1)
  where
    r : Session
    r = (check_access e s pwdat s.password).0

    k : Keeps s r
    k = check_access-Keeps e s pwdat s.password

    go :
        (b : Bool)
        → Lets (Enabled e) s (
            if b
            then do_enable_again e (record r { challenge = none; authfn = some fn_enable })
            else (record r { challenge = none }, send fail))
    go true = λ h.
        Enabled-Keeps (record { backend = k.backend; allowed = k.allowed })
          (do_enable_again-Lets e (record r { challenge = none; authfn = some fn_enable }) h)
    go false = λ h. absurd (ground arith)

pub do_enable_getuser-Lets : (e : Env) (s : Session) → Lets (Enabled e) s (do_enable_getuser e s)
unfolding do_enable_getuser
do_enable_getuser-Lets e s h =
    Enabled-Keeps (take_username-Keeps s)
      (pick (take_username s) (is_empty (take_username s).username) h)
  where
    finish :
        (t : Session) (ix : PwIx)
        → Lets (Enabled e) t (let c = set_pwdat e t ix in getuser_reply e c.pwdat c.session)
    finish t ix h =
        Enabled-Keeps (set_pwdat-Choosing e t ix).keeps
          (getuser_reply-Lets e (set_pwdat e t ix).session (set_pwdat e t ix).pwdat h)

    tail :
        (t : Session)
        → Lets (Enabled e) t (
            let c = set_pwdat e t pw_login in
            guard (refuse_tac_session c.session c.ix) λ s. guard (take_password e s) λ s.
              if not (is_some s.password)
              then send_password_prompt e fn_enable_getuser c.ix s
              else guard
                  (query_mavis_auth_login e fn_enable_getuser c.ix s)
                  λ s. let c' = set_pwdat e s c.ix in getuser_reply e c'.pwdat c'.session)
    tail t =
        let c = set_pwdat e t pw_login in
        refused-Lets e t c _ (set_pwdat-Choosing e t pw_login) λ ok own.
          taken-Lets e c.session c.pwdat _ own λ t own.
            prompted-Lets e t fn_enable_getuser c.ix _
              (queried-Lets e t fn_enable_getuser c.ix c.pwdat _ own λ t own. finish t c.ix)

    rest : Session → Done
    rest t = guard (set_tac_user e t) λ s. guard (query_mavis_info_login e fn_enable_getuser s) λ s.
        let c = set_pwdat e s pw_login in
        guard (refuse_tac_session c.session c.ix) λ s. guard (take_password e s) λ s.
          if not (is_some s.password)
          then send_password_prompt e fn_enable_getuser c.ix s
          else guard (query_mavis_auth_login e fn_enable_getuser c.ix s)
              λ s. let c' = set_pwdat e s c.ix in getuser_reply e c'.pwdat c'.session

    pick : (t : Session) (b : Bool) → Lets (Enabled e) t (if b then (t, send getuser) else rest t)
    pick t true = λ z. absurd (ground arith)
    pick t false =
        guard-Lets (Enabled e) (set_tac_user e t) _ (anti e t) (set_tac_user-Quiet e t) λ _.
          guard-Lets (Enabled e) (query_mavis_info_login e fn_enable_getuser _) _ (anti e _)
            (query_mavis_info_login-Quiet e fn_enable_getuser _) λ _. tail _

pub do_enable-Lets : (e : Env) (s : Session) → Lets (Enabled e) s (do_enable e s)
unfolding do_enable
do_enable-Lets e s = go (is_augmented e s) (asks_user e s)
  where
    go :
        (a b : Bool)
        → Lets (Enabled e) s (
            if a
            then do_enable_augmented e (start_augmented s)
            else if b
            then do_enable_getuser e
                (record s { enable_getuser = true; username = []; authfn = some fn_enable_getuser })
            else do_enable_rest e s)
    go true b =
        λ h. Enabled-Keeps (same-Keeps refl refl) (do_enable_augmented-Lets e (start_augmented s) h)
    go false true = λ h. Enabled-Keeps (same-Keeps refl refl) (
        do_enable_getuser-Lets e
          (record s { enable_getuser = true; username = []; authfn = some fn_enable_getuser }) h)
    go false false = do_enable_rest-Lets e s

-- When the session has asked for the user name already, do_enable does not ask again: it is
-- do_enable_again, the do_enable of the model that do_enable_getuser ends with.
pub do_enable-again :
    (e : Env) (s : Session) → s.enable_getuser ≡ true → do_enable e s ≡ do_enable_again e s
unfolding do_enable do_enable_again
do_enable-again e s h = go (is_augmented e s) (asks_user e s) refl
  where
    go :
        (a b : Bool)
        → asks_user e s ≡ b
        → (let d : Done =
              if a
              then do_enable_augmented e (start_augmented s)
              else if b
              then do_enable_getuser e (record s {
                enable_getuser = true;
                username = [];
                authfn = some fn_enable_getuser;
              })
              else do_enable_rest e s in
            d)
          ≡ (if a then do_enable_augmented e (start_augmented s) else do_enable_rest e s)
    go true b x = refl
    go false false x = refl
    go false true x = absurd (ground arith)
