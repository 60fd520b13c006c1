-- ===== src/Authen/Enable.antt =====
-- authen.c: the enable dialogs, do_enable, do_enable_login, do_enable_getuser and
-- do_enable_augmented.
use soteria_tacacs.Prelude.{
  Bool, true, false, not, ◌&&◌, ◌||◌, Option, none, some, [], ◌∷◌, ◌==◌, if◌then◌else◌,
}
use soteria_tacacs.Authen.{
  Str, Token, is_permit, is_login, pw_login, Pwdat, fn_enable, fn_enable_login, fn_enable_getuser,
  fn_enable_augmented, Session, Env, pass, fail, getuser, getpass, send, Done, Step, guard,
  sym_to_code,
}
use soteria_tacacs.Authen.Password.{compare_pwdat, check_access, set_pwdat}
use soteria_tacacs.Authen.Steps.{
  is_some, is_empty, set_tac_user, refuse_tac_session, password_requirements_failed,
  query_mavis_auth_login, query_mavis_info_login, query_mavis_info, take_password, take_username,
  send_password_prompt, reply_access,
}

abbrev pub enable_is : (Token → Bool) → Session → Bool
enable_is f s = elim s.enable [ none ↦ false | some p ↦ f p.kind ]

unfoldable pub do_enable_login : Env → Session → Done
do_enable_login e s = guard (set_tac_user e s) λ s.
    guard (query_mavis_info_login e fn_enable_login s) λ s.
      let c = set_pwdat e s pw_login in
      guard (refuse_tac_session c.session c.ix) λ s. guard (take_password e s) λ s.
        if not (is_some s.password)
        then send_password_prompt e fn_enable_login c.ix s
        else guard (query_mavis_auth_login e fn_enable_login c.ix s)
            λ s. reply_access e c.pwdat s.password s

-- the first blank, and what stands before and behind it
abbrev pub split_blank : Str → Option (Str × Str)
split_blank [] = none
split_blank (c ∷ cs) =
    if c == 0x20
    then some ([], cs)
    else elim (split_blank cs) [ none ↦ none | some w ↦ some (c ∷ w.0, w.1) ]

-- set_tac_user, if the step before has not ended the handler
abbrev pub then_set_user : Env → Step → Step
then_set_user e (s, some a) = (s, some a)
then_set_user e (s, none) = set_tac_user e s

-- a message `user password` names the user
unfoldable pub take_credentials : Env → Session → Step
take_credentials e s = elim (s.msg) [
  | none ↦ (s, none)
  | some m ↦ elim (split_blank m) [
    | none ↦ (s, none)
    | some w ↦ then_set_user e (
        password_requirements_failed e
          (record s { username = w.0; password = some w.1; msg = none }))
  ]
]

-- the password for the privilege level, if there is one
abbrev pub set_enable : Env → Session → Session
set_enable e s = elim (e.cfg_get_enable s.username s.user) [
  | none ↦ s
  | some p ↦ record s { enable = some p }
]

unfoldable pub do_enable_augmented : Env → Session → Done
do_enable_augmented e s = guard (set_tac_user e s) λ s.
    guard (query_mavis_info_login e fn_enable_augmented s) λ s.
      if not (enable_is is_permit s) && not (is_some s.msg)
      then (s, send getpass)
      else guard (take_credentials e s) λ s.
        let c = set_pwdat e s pw_login in
        guard (refuse_tac_session c.session c.ix) λ s.
          if is_empty s.username
          then (s, send fail)
          else guard (query_mavis_auth_login e fn_enable_augmented c.ix s) λ s.
            let s = set_enable e s in
            if enable_is is_login s then reply_access e c.pwdat s.password s else (s, send fail)

-- the enable password itself
unfoldable pub enable_reply : Env → Session → Done
enable_reply e s = elim s.enable [
  | none ↦ (s, send (if is_some s.msg then fail else getpass))
  | some p ↦
      if s.enable_getuser && is_permit p.kind
      then (s, send pass)
      else if is_some s.user && is_login p.kind
      then do_enable_login e (record s { authfn = some fn_enable_login; flag_mavis_auth = false })
      else if not (is_permit p.kind) && not (is_some s.msg)
      then (s, send getpass)
      else (s, send (sym_to_code (compare_pwdat e p s.username s.msg)))
]

-- do_enable behind the question for the user name
unfoldable pub do_enable_rest : Env → Session → Done
do_enable_rest e s = guard (set_tac_user e s) λ s.
    let c = set_pwdat e s pw_login in
    guard (refuse_tac_session c.session c.ix) λ s.
      guard (query_mavis_info fn_enable pw_login s)
        λ s. enable_reply e (if is_some s.enable then s else set_enable e s)

abbrev pub is_augmented : Env → Session → Bool
is_augmented e s = e.augmented_enable && is_permit (e.enable_user_acl s.username)

abbrev pub start_augmented : Session → Session
start_augmented s = record s { username = []; authfn = some fn_enable_augmented }

-- do_enable when it has asked for the user name already: do_enable_getuser is not called
unfoldable pub do_enable_again : Env → Session → Done
do_enable_again e s =
    if is_augmented e s then do_enable_augmented e (start_augmented s) else do_enable_rest e s

unfoldable pub getuser_reply : Env → Option Pwdat → Session → Done
getuser_reply e pwdat s =
    let (s', res) = check_access e s pwdat s.password in
    let s'' = record s' { challenge = none } in
    if is_permit res
    then do_enable_again e (record s'' { authfn = some fn_enable })
    else (s'', send fail)

-- It only runs with enable_getuser set, so that the do_enable at its end does not come back to it.
unfoldable pub do_enable_getuser : Env → Session → Done
do_enable_getuser e s =
    let s = take_username s in
    if is_empty s.username
    then (s, send getuser)
    else guard (set_tac_user e s) λ s. guard (query_mavis_info_login e fn_enable_getuser s) λ s.
      let c = set_pwdat e s pw_login in
      guard (refuse_tac_session c.session c.ix) λ s. guard (take_password e s) λ s.
        if not (is_some s.password)
        then send_password_prompt e fn_enable_getuser c.ix s
        else guard (query_mavis_auth_login e fn_enable_getuser c.ix s)
            λ s. let c' = set_pwdat e s c.ix in getuser_reply e c'.pwdat c'.session

abbrev pub asks_user : Env → Session → Bool
asks_user e s =
    (is_empty s.username || is_permit (e.enable_user_acl s.username))
    && not s.enable_getuser
    && e.anon_enable_no

unfoldable pub do_enable : Env → Session → Done
do_enable e s =
    if is_augmented e s
    then do_enable_augmented e (start_augmented s)
    else if asks_user e s
    then do_enable_getuser e
        (record s { enable_getuser = true; username = []; authfn = some fn_enable_getuser })
    else do_enable_rest e s
