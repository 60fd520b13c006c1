-- ===== src/Authen/Ascii.antt =====
-- authen.c: the dialogs do_chpass, which changes a password, and do_ascii_login.
use soteria_tacacs.Prelude.{
  ◌+◌, Bool, true, false, not, ◌&&◌, ◌||◌, Option, none, some, ltb, if◌then◌else◌, str_eq,
}
use soteria_tacacs.Authen.{
  Str, Token, s_deny, is_permit, is_error, PwIx, pw_login, is_pw_mavis, Pwdat, User, fn_chpass,
  fn_ascii_login, Session, Env, pass, fail, getdata, getuser, getpass, Status, query_chpw, send,
  send_error, mavis_lookup, Done, Step, guard,
}
use soteria_tacacs.Authen.Password.{check_access, set_pwdat}
use soteria_tacacs.Authen.Steps.{
  is_some, is_empty, set_tac_user, refuse_tac_session, password_requirements_failed,
  query_mavis_auth_login, query_mavis_info_login, take_password, take_username,
  send_password_prompt,
}

-- an empty password aborts the dialog
abbrev pub abort_if_empty : Str → Step → Step
abort_if_empty p (s, some a) = (s, some a)
abort_if_empty p (s, none) = (s, (if is_empty p then some (send fail) else none))

-- the old password, from the message; an empty one aborts
unfoldable pub ask_old : Env → Session → Step
ask_old e s = elim s.password [
  | none ↦ elim s.msg [
    | none ↦ (s, some (send getdata))
    | some m ↦
        abort_if_empty m
          (password_requirements_failed e (record s { password = some m; msg = none }))
  ]
  | some p ↦ abort_if_empty p (s, none)
]

abbrev pub ask_status : Session → Status
ask_status s = if s.chpass then getpass else getdata

-- the new password, in the same way
unfoldable pub ask_new : Env → Session → Step
ask_new e s = elim s.password_new [
  | none ↦ elim s.msg [
    | none ↦ (s, some (send (ask_status s)))
    | some m ↦
        abort_if_empty m
          (password_requirements_failed e (record s { password_new = some m; msg = none }))
  ]
  | some p ↦ abort_if_empty p (s, none)
]

-- The new password once more: the message stays where it is, for the call after a query.
unfoldable pub ask_again : Session → Step
ask_again s = elim s.msg [
  | none ↦ (s, some (send (ask_status s)))
  | some m ↦ elim s.password_new [
    | none ↦ (s, none)
    | some p ↦ (s, (if str_eq m p then none else some (send fail)))
  ]
]

-- the backend is asked to change the password
unfoldable pub query_mavis_chpw : Env → PwIx → Session → Step
query_mavis_chpw e ix s =
    if not s.flag_mavis_auth
      && ((not e.mavis_login_prefetch && not (is_some s.user))
          || (is_some s.user && is_pw_mavis ix))
    then (record s { flag_mavis_auth = true }, some (mavis_lookup query_chpw fn_chpass pw_login))
    else (s, none)

unfoldable pub reply_chpass : Env → Option Pwdat → Session → Done
reply_chpass e pwdat s =
    let (s', res) = check_access e s pwdat s.password_new in
    if is_permit res then (record s' { passwd_mustchange = false }, send pass) else (s', send fail)

unfoldable pub do_chpass : Env → Session → Done
do_chpass e s =
    let s = take_username s in
    if is_empty s.username
    then (s, send getuser)
    else guard (ask_old e s) λ s. guard (ask_new e s) λ s. guard (ask_again s) λ s.
      guard (set_tac_user e s) λ s. guard (query_mavis_info_login e fn_chpass s) λ s.
        let c = set_pwdat e s pw_login in
        guard (refuse_tac_session c.session c.ix)
          λ s. guard (query_mavis_chpw e c.ix s) λ s. reply_chpass e c.pwdat s

-- the stored password lets everybody in
abbrev pub is_open : Option Pwdat → Bool
is_open none = false
is_open (some p) = is_permit p.kind

abbrev pub may_change : Option User → Bool
may_change none = true
may_change (some u) = not u.chalresp_yes && not u.passwd_oneshot

abbrev pub is_retry : Session → Bool
is_retry s = is_some s.user && elim s.password [
  | none ↦ false
  | some p ↦ elim s.password_bad [ none ↦ false | some q ↦ str_eq p q ]
]

-- the verdict of do_ascii_login; a router that repeats a wrong password is not let through to it
unfoldable pub ascii_access : Env → Option Pwdat → Session → Session × Token
ascii_access e pwdat s = if is_retry s then (s, s_deny) else check_access e s pwdat s.password

-- what follows the verdict
unfoldable pub ascii_reply : Env → Session → Token → Done
ascii_reply e s res =
    if is_error res
    then (s, send_error)
    else if is_permit res
    then (if s.passwd_mustchange
        then do_chpass e (record s { flag_mavis_auth = false; authfn = some fn_chpass })
        else (s, send pass))
    else if ltb (s.iterations + 1) e.authen_max_attempts
    then (record s { iterations = s.iterations + 1; flag_mavis_auth = false }, send getpass)
    else (record s { iterations = s.iterations + 1 }, send fail)

unfoldable pub ascii_verdict : Env → Option Pwdat → PwIx → Session → Done
ascii_verdict e pwdat ix s = guard (query_mavis_auth_login e fn_ascii_login ix s) λ s.
    let (s', res) = ascii_access e pwdat s in ascii_reply e (record s' { challenge = none }) res

-- an empty password starts the change of the password
abbrev pub starts_change : Env → PwIx → Session → Str → Bool
starts_change e ix s p =
    e.chpass_allowed && may_change s.user && is_empty p && (is_pw_mavis ix || e.mavis_userdb)

unfoldable pub ascii_password : Env → Option Pwdat → PwIx → Session → Done
ascii_password e pwdat ix s = elim s.password [
  | none ↦ send_password_prompt e fn_ascii_login ix s
  | some p ↦
      if starts_change e ix s p
      then do_chpass e
          (record s { password = none; authfn = some fn_chpass; flag_mavis_auth = false })
      else ascii_verdict e pwdat ix s
]

unfoldable pub do_ascii_login : Env → Session → Done
do_ascii_login e s =
    let s = take_username s in
    if is_empty s.username
    then (s, send getuser)
    else guard (set_tac_user e s) λ s. guard (query_mavis_info_login e fn_ascii_login s) λ s.
      let c = set_pwdat e s pw_login in
      guard (refuse_tac_session c.session c.ix) λ s.
        if is_open c.pwdat
        then ascii_verdict e c.pwdat c.ix s
        else guard (take_password e s) λ s. ascii_password e c.pwdat c.ix s
