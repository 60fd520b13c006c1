-- ===== src/Authen/Steps.antt =====
-- authen.c: the steps that the handlers share. Each may end the handler (set_tac_user,
-- refuse_tac_session, password_requirements_failed, query_mavis_*), and the last two do.
use soteria_tacacs.Prelude.{
  ℕ, zero, suc, Bool, true, false, not, ◌&&◌, ◌||◌, Option, none, some, List, [], ◌∷◌, ltb,
  if◌then◌else◌,
}
use soteria_tacacs.Authen.{
  Str, Token, s_unknown, s_permit, s_deny, is_permit, is_denied, is_error, PwIx, pw_login, pw_pap,
  is_pw_mavis, Pwdat, User, AuthFn, Session, Env, fail, getpass, query_auth, query_info, query_chal,
  send, send_error, mavis_lookup, Done, Step, sym_to_code,
}
use soteria_tacacs.Authen.Password.{check_access}

abbrev pub is_some {ℓ} : {A : Type ℓ} → Option A → Bool
is_some none = false
is_some (some x) = true

-- the scripts of the host and of its parents, until one permits or denies
abbrev pub eval_hosts : List (Option (Str → Token)) → Str → Token → Token
eval_hosts [] username res = res
eval_hosts (none ∷ hosts) username res = eval_hosts hosts username res
eval_hosts (some action ∷ hosts) username res =
    let t = action username in if is_denied t || is_permit t then t else eval_hosts hosts username t

-- `session->user` may not be used: a fallback user while the backend is up, or a user that only a
-- rewriting of names leads to
abbrev pub is_barred : Env → Session → User → Bool
is_barred e s u =
    (u.fallback_only && (ltb e.backend_until e.now || not e.authfallback))
    || (u.rewritten_only && not s.username_rewritten)

abbrev pub found_user : Env → Session → Option User
found_user e s = if s.user_is_session_specific then s.user else e.lookup_user s.username

unfoldable pub lookup_and_set_user : Env → Session → Session × Token
lookup_and_set_user e s =
    let res = eval_hosts e.host_actions s.username s_unknown in
    let found = found_user e s in
    if is_denied res then (s, s_deny) else elim found [
      | none ↦ (record s { user = none }, res)
      | some u ↦
          if is_barred e s u
          then (record s { user = none }, s_deny)
          else (record s { user = some u }, s_permit)
    ]

unfoldable pub set_tac_user : Env → Session → Step
set_tac_user e s =
    let (s', res) = lookup_and_set_user e s in
    (s', (if is_denied res then some (send fail) else none))

abbrev pub is_refusing : Option User → PwIx → Bool
is_refusing none ix = false
is_refusing (some u) ix = is_error (u.passwd ix).kind

unfoldable pub refuse_tac_session : Session → PwIx → Step
refuse_tac_session s ix = (s, (if is_refusing s.user ix then some send_error else none))

unfoldable pub password_requirements_failed : Env → Session → Step
password_requirements_failed e s = elim e.password_acl [
  | none ↦ (s, none)
  | some acl ↦
      (s, (if is_permit (acl s.username s.password s.password_new) then none else some (send fail)))
]

unfoldable pub query_mavis_auth_login : Env → AuthFn → PwIx → Session → Step
query_mavis_auth_login e f ix s =
    let res =
      not s.flag_mavis_auth
      && ((not (is_some s.user) && e.mavis_login && not e.mavis_login_prefetch)
          || (is_some s.user && is_pw_mavis ix)) in
    (
      record s { flag_mavis_auth = true },
      (if res then some (mavis_lookup query_auth f pw_login) else none),
    )

unfoldable pub query_mavis_info_login : Env → AuthFn → Session → Step
query_mavis_info_login e f s =
    let res = not s.flag_mavis_info && not (is_some s.user) && e.mavis_login_prefetch in
    (
      record s { flag_mavis_info = true },
      (if res then some (mavis_lookup query_info f pw_login) else none),
    )

unfoldable pub query_mavis_info : AuthFn → PwIx → Session → Step
query_mavis_info f ix s =
    let res = not s.flag_mavis_info && not (is_some s.user) in
    (
      record s { flag_mavis_info = true },
      (if res then some (mavis_lookup query_info f ix) else none),
    )

unfoldable pub query_mavis_auth_pap : Env → AuthFn → PwIx → Session → Step
query_mavis_auth_pap e f ix s =
    let res =
      not s.flag_mavis_auth
      && ((not (is_some s.user) && e.mavis_pap && not e.mavis_pap_prefetch)
          || (is_some s.user && is_pw_mavis ix)) in
    (
      record s { flag_mavis_auth = true },
      (if res then some (mavis_lookup query_auth f pw_pap) else none),
    )

unfoldable pub query_mavis_info_pap : Env → AuthFn → Session → Step
query_mavis_info_pap e f s =
    let res = not (is_some s.user) && e.mavis_pap_prefetch && not s.flag_mavis_info in
    (
      record s { flag_mavis_info = true },
      (if res then some (mavis_lookup query_info f pw_pap) else none),
    )

-- the message of a packet is the password, if there is one
unfoldable pub take_password : Env → Session → Step
take_password e s = elim s.msg [
  | none ↦ (s, none)
  | some m ↦ password_requirements_failed e (record s { password = some m; msg = none })
]

-- a string ends at its first zero byte
abbrev pub c_str : List ℕ → Str
c_str [] = []
c_str (zero ∷ cs) = []
c_str (suc c ∷ cs) = suc c ∷ c_str cs

-- the data of a START packet is the password, as a string
unfoldable pub take_data : Env → Session → Step
take_data e s = elim s.data_field [
  | none ↦ (s, none)
  | some m ↦
      password_requirements_failed e (record s { password = some (c_str m); data_field = none })
]

-- a session without a user name takes it from the message
unfoldable pub take_username : Session → Session
take_username s = elim s.username [
  | (c ∷ cs) ↦ s
  | [] ↦ elim s.msg [ none ↦ s | some m ↦ record s { username = m; msg = none } ]
]

abbrev pub is_empty : Str → Bool
is_empty [] = true
is_empty (c ∷ cs) = false

abbrev pub may_challenge : Env → Session → PwIx → Bool
may_challenge e s ix =
    e.chalresp && elim s.user [ none ↦ true | some u ↦ is_pw_mavis ix && not u.chalresp_no ]

unfoldable pub send_password_prompt : Env → AuthFn → PwIx → Session → Done
send_password_prompt e f ix s =
    if may_challenge e s ix && not s.flag_chalresp
    then (record s { flag_chalresp = true }, mavis_lookup query_chal f pw_login)
    else (s, send getpass)

-- the end of most handlers: check_access, and the reply that tells its result
unfoldable pub reply_access : Env → Option Pwdat → Option Str → Session → Done
reply_access e pwdat passwd s =
    let (s', res) = check_access e s pwdat passwd in (s', send (sym_to_code res))
