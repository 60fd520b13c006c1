-- ===== src/Authen/Enabling.antt =====
-- do_enable and do_enable_getuser of authen.c, with the handlers that they go on to.
use soteria_tacacs.Prelude.{
  ◌≡◌, refl, ◌≢◌, inl, inr, Bool, true, false, not, ◌&&◌, Option, none, some, arith, if◌then◌else◌,
  Bool-cases,
}
use soteria_tacacs.Authen.{
  Str, Token, sym_to_code, is_permit, is_login, s_permit, fn_enable, fn_enable_login,
  fn_enable_augmented, pw_login, Pwdat, Session, Env, pass, fail, getpass, send, Done, guard,
}
use soteria_tacacs.Authen.Password.{compare_pwdat, has_no_error, set_pwdat}
use soteria_tacacs.Authen.Steps.{
  is_some, is_empty, refuse_tac_session, set_tac_user, query_mavis_auth_login,
  query_mavis_info_login, query_mavis_info, reply_access,
}
use soteria_tacacs.Authen.Enable.{
  enable_is, do_enable_login, take_credentials, set_enable, do_enable_augmented, enable_reply,
  do_enable_rest, is_augmented, start_augmented, do_enable_again,
}
use soteria_tacacs.Authen.Admitted.{Owned}
use soteria_tacacs.Authen.Quiet.{
  Keeps, same-Keeps, set_tac_user-Quiet, query_mavis_info_login-Quiet, query_mavis_info-Quiet,
}
use soteria_tacacs.Authen.Choosing.{set_pwdat-Choosing}
use soteria_tacacs.Authen.Changing.{permit_of, Lets, guard-Lets}
use soteria_tacacs.Authen.Privilege.{
  Enabled, Enabled-Keeps, anti, refused-Lets, reply_access-Lets, queried-Lets, do_enable_login-Lets,
  take_credentials-Quiet,
}

set_enable-Keeps :
    (e : Env) (s : Session) → Keeps s (set_enable e s) × ((set_enable e s).user ≡ s.user)
set_enable-Keeps e s = go (e.cfg_get_enable s.username s.user)
  where
    set : Option Pwdat → Session
    set o = elim o [ none ↦ s | some p ↦ record s { enable = some p } ]

    go : (o : Option Pwdat) → Keeps s (set o) × ((set o).user ≡ s.user)
    go none = (same-Keeps refl refl, refl)
    go (some p) = (same-Keeps refl refl, refl)

augmented_end-Lets :
    (e : Env) (s : Session) (pwdat : Option Pwdat)
    → has_no_error pwdat ≡ true
    → Owned e s.user pwdat
    → Lets (Enabled e) s (
        let t = set_enable e s in
        if enable_is is_login t then reply_access e pwdat t.password t else (t, send fail))
augmented_end-Lets e s pwdat ok own h =
    Enabled-Keeps (set_enable-Keeps e s).0 (go (enable_is is_login t) h)
  where
    t : Session
    t = set_enable e s

    go :
        (b : Bool)
        → Lets (Enabled e) t (if b then reply_access e pwdat t.password t else (t, send fail))
    go true = reply_access-Lets e t pwdat ok (rw (set_enable-Keeps e s).1 own)
    go false = λ z. absurd (ground arith)

named-Lets :
    (e : Env) (s : Session) (d : Done)
    → Lets (Enabled e) s d
    → Lets (Enabled e) s (if is_empty s.username then (s, send fail) else d)
named-Lets e s d h = go (is_empty s.username)
  where
    go : (b : Bool) → Lets (Enabled e) s (if b then (s, send fail) else d)
    go true = λ z. absurd (ground arith)
    go false = h

pub do_enable_augmented-Lets :
    (e : Env) (s : Session) → Lets (Enabled e) s (do_enable_augmented e s)
unfolding do_enable_augmented
do_enable_augmented-Lets e s =
    guard-Lets (Enabled e) (set_tac_user e s) _ (anti e s) (set_tac_user-Quiet e s) λ _.
      guard-Lets (Enabled e) (query_mavis_info_login e fn_enable_augmented _) _ (anti e _)
        (query_mavis_info_login-Quiet e fn_enable_augmented _) λ _. asked _
  where
    rest : Session → Done
    rest t = guard (take_credentials e t) λ s.
        let c = set_pwdat e s pw_login in
        guard (refuse_tac_session c.session c.ix) λ s.
          if is_empty s.username
          then (s, send fail)
          else guard (query_mavis_auth_login e fn_enable_augmented c.ix s) λ s.
            let s = set_enable e s in
            if enable_is is_login s then reply_access e c.pwdat s.password s else (s, send fail)

    chosen :
        (t : Session)
        → Lets (Enabled e) t (
            let c = set_pwdat e t pw_login in
            guard (refuse_tac_session c.session c.ix) λ s.
              if is_empty s.username
              then (s, send fail)
              else guard (query_mavis_auth_login e fn_enable_augmented c.ix s) λ s.
                let s = set_enable e s in
                if enable_is is_login s
                then reply_access e c.pwdat s.password s
                else (s, send fail))
    chosen t =
        let c = set_pwdat e t pw_login in
        refused-Lets e t c _ (set_pwdat-Choosing e t pw_login) λ ok own. named-Lets e c.session _ (
          queried-Lets e c.session fn_enable_augmented c.ix c.pwdat _ own
            λ t own. augmented_end-Lets e t c.pwdat ok own)

    pick : (t : Session) (b : Bool) → Lets (Enabled e) t (if b then (t, send getpass) else rest t)
    pick t true = λ z. absurd (ground arith)
    pick t false =
        guard-Lets (Enabled e) (take_credentials e t) _ (anti e t) (take_credentials-Quiet e t)
          λ _. chosen _

    asked :
        (t : Session)
        → Lets (Enabled e) t (
            if not (enable_is is_permit t) && not (is_some t.msg)
            then (t, send getpass)
            else rest t)
    asked t = pick t (not (enable_is is_permit t) && not (is_some t.msg))

compare_permit :
    (e : Env) (p : Pwdat) (u : Str) (b : Option Str)
    → is_permit p.kind ≡ true
    → compare_pwdat e p u b ≡ s_permit
unfolding compare_pwdat
compare_permit e p u b h = rw (permit_of p.kind h) refl

enable_reply-Lets : (e : Env) (s : Session) → Lets (Enabled e) s (enable_reply e s)
unfolding enable_reply
enable_reply-Lets e s = go s.enable refl
  where
    reply : Option Pwdat → Done
    reply o = elim o [
      | none ↦ (s, send (if is_some s.msg then fail else getpass))
      | some p ↦
          if s.enable_getuser && is_permit p.kind
          then (s, send pass)
          else if is_some s.user && is_login p.kind
          then do_enable_login e
              (record s { authfn = some fn_enable_login; flag_mavis_auth = false })
          else if not (is_permit p.kind) && not (is_some s.msg)
          then (s, send getpass)
          else (s, send (sym_to_code (compare_pwdat e p s.username s.msg)))
    ]

    none_ne : (b : Bool) → send (if b then fail else getpass) ≢ send pass
    none_ne true h = ground arith
    none_ne false h = ground arith

    code_permit : (t : Token) → send (sym_to_code t) ≡ send pass → t ≡ s_permit
    code_permit t w = ground arith

    go : (o : Option Pwdat) → s.enable ≡ o → Lets (Enabled e) s (reply o)
    go none eo = λ h. absurd (none_ne (is_some s.msg) h)
    go (some p) eo = elim (Bool-cases (s.enable_getuser && is_permit p.kind)) [
      | inl x ↦ rw x (λ h. inr (p, eo, compare_permit e p s.username s.msg (ground arith)))
      | inr x ↦ rw x (elim (Bool-cases (is_some s.user && is_login p.kind)) [
        | inl y ↦ rw y (λ h. Enabled-Keeps (same-Keeps refl refl) (
            do_enable_login-Lets e
              (record s { authfn = some fn_enable_login; flag_mavis_auth = false }) h))
        | inr y ↦ rw y (elim (Bool-cases (not (is_permit p.kind) && not (is_some s.msg))) [
          | inl z ↦ rw z (λ h. absurd (ground arith))
          | inr z ↦ rw z (λ h. inr (p, eo, code_permit _ h))
        ])
      ])
    ]

pub do_enable_rest-Lets : (e : Env) (s : Session) → Lets (Enabled e) s (do_enable_rest e s)
unfolding do_enable_rest
do_enable_rest-Lets e s =
    guard-Lets (Enabled e) (set_tac_user e s) _ (anti e s) (set_tac_user-Quiet e s) λ _. chosen _
  where
    last :
        (t : Session) (b : Bool)
        → Lets (Enabled e) t (enable_reply e (if b then t else set_enable e t))
    last t true = enable_reply-Lets e t
    last t false =
        λ h. Enabled-Keeps (set_enable-Keeps e t).0 (enable_reply-Lets e (set_enable e t) h)

    chosen :
        (t : Session)
        → Lets (Enabled e) t (
            let c = set_pwdat e t pw_login in
            guard (refuse_tac_session c.session c.ix) λ s.
              guard
                (query_mavis_info fn_enable pw_login s)
                λ s. enable_reply e (if is_some s.enable then s else set_enable e s))
    chosen t =
        let c = set_pwdat e t pw_login in
        refused-Lets e t c _ (set_pwdat-Choosing e t pw_login) λ ok own.
          guard-Lets (Enabled e) (query_mavis_info fn_enable pw_login c.session) _
            (anti e c.session) (query_mavis_info-Quiet fn_enable pw_login c.session)
            λ _. last _ (is_some _)

pub do_enable_again-Lets : (e : Env) (s : Session) → Lets (Enabled e) s (do_enable_again e s)
unfolding do_enable_again
do_enable_again-Lets e s = go (is_augmented e s)
  where
    go :
        (b : Bool)
        → Lets
            (Enabled e)
            s
            (if b then do_enable_augmented e (start_augmented s) else do_enable_rest e s)
    go true =
        λ h. Enabled-Keeps (same-Keeps refl refl) (do_enable_augmented-Lets e (start_augmented s) h)
    go false = do_enable_rest-Lets e s
