-- ===== src/Authen/Shell.antt =====
-- The verdict of do_ascii_login of authen.c and what follows it.
use soteria_tacacs.Prelude.{
  ◌+◌, ◌≡◌, refl, ◌≢◌, inl, inr, Bool, true, false, not, ◌&&◌, Option, none, some, arith, ltb,
  if◌then◌else◌, Bool-cases,
}
use soteria_tacacs.Authen.{
  Str, Token, is_permit, is_error, s_unknown, s_permit, AuthFn, fn_chpass, fn_ascii_login, PwIx,
  pw_login, Pwdat, User, Session, Env, pass, getpass, query_chal, mavis_lookup, send, Done,
}
use soteria_tacacs.Authen.Password.{
  password_verdict, user_verdict, is_expired, is_refused, check_user, check_access, has_no_error,
}
use soteria_tacacs.Authen.Steps.{query_mavis_auth_login, send_password_prompt, may_challenge}
use soteria_tacacs.Authen.Ascii.{do_chpass, is_retry, ascii_access, ascii_reply, ascii_verdict}
use soteria_tacacs.Authen.Admitted.{Admitted, Owned, check_access-Admitted}
use soteria_tacacs.Authen.Kept.{check_access-password}
use soteria_tacacs.Authen.Quiet.{Keeps, same-Keeps, Admitted-Keeps, query_mavis_auth_login-Quiet}
use soteria_tacacs.Authen.Safe.{query_mavis_auth_login-user}
use soteria_tacacs.Authen.Changing.{
  permit_of, do_chpass-Passes, Either, Either-Keeps, Lets, guard-Lets,
}

-- the prompt for a password admits nobody
pub send_password_prompt-ne :
    (e : Env) (f : AuthFn) (ix : PwIx) (s : Session) → (send_password_prompt e f ix s).1 ≢ send pass
unfolding send_password_prompt
send_password_prompt-ne e f ix s = go (may_challenge e s ix && not s.flag_chalresp)
  where
    go :
        (b : Bool)
        → (let t : Done =
              if b
              then (record s { flag_chalresp = true }, mavis_lookup query_chal f pw_login)
              else (s, send getpass) in
            t.1)
          ≢ send pass
    go true h = ground arith
    go false h = ground arith

-- the change of a password that a login starts
pub starts-Lets : (e : Env) (s s' : Session) → Keeps s s' → Lets (Either e) s (do_chpass e s')
starts-Lets e s s' k h = inr (Admitted-Keeps k (do_chpass-Passes e s' h))

-- the reply after a verdict that permits only users who may be let in
ascii_reply-Lets :
    (e : Env) (s r : Session) (res : Token)
    → Keeps s r
    → (res ≡ s_permit → Admitted e s r r.password)
    → Lets (Either e) s (ascii_reply e r res)
unfolding ascii_reply
ascii_reply-Lets e s r res k a = elim (Bool-cases (is_error res)) [
  | inl x ↦ rw x (λ h. absurd (ground arith))
  | inr x ↦ rw x (elim (Bool-cases (is_permit res)) [
    | inl y ↦ rw y (pick r.passwd_mustchange (a (permit_of res y)))
    | inr y ↦ rw y (elim (Bool-cases (ltb (r.iterations + 1) e.authen_max_attempts)) [
      | inl z ↦ rw z (λ h. absurd (ground arith))
      | inr z ↦ rw z (λ h. absurd (ground arith))
    ])
  ])
]
  where
    pick :
        (b : Bool)
        → Admitted e s r r.password
        → Lets (Either e) s (
            if b
            then do_chpass e (record r { flag_mavis_auth = false; authfn = some fn_chpass })
            else (r, send pass))
    pick true adm =
        starts-Lets e s (record r { flag_mavis_auth = false; authfn = some fn_chpass })
          (record { backend = k.backend; allowed = k.allowed })
    pick false adm = λ h. inl adm

-- check_access uses the verdict of the backend up.
pub check_access-Keeps :
    (e : Env) (s : Session) (pwdat : Option Pwdat) (passwd : Option Str)
    → Keeps s (check_access e s pwdat passwd).0
unfolding check_access
check_access-Keeps e s pwdat passwd = go s.user
  where
    s' : Session
    s' = record s { mavisauth_res = s_unknown }

    v : Token
    v = password_verdict e s pwdat passwd

    used : Keeps s s'
    used = record { backend = λ h. ground arith; allowed = refl }

    note :
        (b : Bool)
        → Keeps s (
            if b
            then record s' { password_bad = none }
            else record s' { password_bad = s.password; password = none })
    note true = record { backend = λ h. ground arith; allowed = refl }
    note false = record { backend = λ h. ground arith; allowed = refl }

    pick :
        (u : User) (b : Bool)
        → (let t : Session × Token = if b then check_user e s' v u else (s', v) in Keeps s t.0)
    pick u true = note (is_permit (user_verdict (is_expired e u) s.authorized (is_refused e s) v))
    pick u false = used

    go :
        (o : Option User)
        → (let t : Session × Token = elim o [
          | none ↦ (s', v)
          | some u ↦ if has_no_error pwdat then check_user e s' v u else (s', v)
        ] in
            Keeps s t.0)
    go none = used
    go (some u) = pick u (has_no_error pwdat)

-- what do_ascii_login takes for the verdict
ascii_access-Admitted :
    (e : Env) (s : Session) (pwdat : Option Pwdat)
    → has_no_error pwdat ≡ true
    → Owned e s.user pwdat
    → Keeps s (ascii_access e pwdat s).0
      × ((ascii_access e pwdat s).1 ≡ s_permit
          → Admitted e s (ascii_access e pwdat s).0 (ascii_access e pwdat s).0.password)
unfolding ascii_access
ascii_access-Admitted e s pwdat ok own = elim (Bool-cases (is_retry s)) [
  | inl z ↦ rw z (same-Keeps refl refl, λ h. absurd (ground arith))
  | inr z ↦ rw z (
    check_access-Keeps e s pwdat s.password,
    λ h.
        rw ((check_access-password e s pwdat s.password).0 h)
          (check_access-Admitted e s pwdat s.password ok own h),
  )
]

pub ascii_verdict-Lets :
    (e : Env) (s : Session) (pwdat : Option Pwdat) (ix : PwIx)
    → has_no_error pwdat ≡ true
    → Owned e s.user pwdat
    → Lets (Either e) s (ascii_verdict e pwdat ix s)
unfolding ascii_verdict
ascii_verdict-Lets e s pwdat ix ok own =
    guard-Lets (Either e) (query_mavis_auth_login e fn_ascii_login ix s) _ (λ s' r. Either-Keeps)
      (query_mavis_auth_login-Quiet e fn_ascii_login ix s)
      λ _.
        last (query_mavis_auth_login e fn_ascii_login ix s).0
          (rw (query_mavis_auth_login-user e fn_ascii_login ix s) own)
  where
    last :
        (t : Session)
        → Owned e t.user pwdat
        → Lets (Either e) t (
            ascii_reply e
              (record (ascii_access e pwdat t).0 { challenge = none })
              (ascii_access e pwdat t).1)
    last t o =
        let (k, a) = ascii_access-Admitted e t pwdat ok o in
        ascii_reply-Lets e t (record (ascii_access e pwdat t).0 { challenge = none })
          (ascii_access e pwdat t).1 (record { backend = k.backend; allowed = k.allowed })
          (λ h. record { vouched = (a h).vouched; in_time = (a h).in_time; ruled = (a h).ruled })
