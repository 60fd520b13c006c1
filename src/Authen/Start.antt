-- ===== src/Authen/Start.antt =====
-- authen.c: authen, which reads a START or CONTINUE packet and calls the handler of the session.
-- The address of the client and its name lookups are left out.
use soteria_tacacs.Prelude.{
  ℕ, Bool, true, false, ◌&&◌, ◌||◌, Option, none, some, List, ◌==◌, ◌!=◌, if◌then◌else◌, has, take,
  drop,
}
use soteria_tacacs.Protocol.{byte_at, u16_at, ver_one}
use soteria_tacacs.Validate.{authen_start_size, authen_cont_size}
use soteria_tacacs.Author.Request.{mem_strndup}
use soteria_tacacs.Authen.{
  AuthFn, fn_login, fn_pap, fn_chap, fn_ascii_login, fn_chpass, fn_sshkeyhash, fn_enable,
  fn_enable_login, fn_enable_getuser, fn_enable_augmented, Session, Env, send_error, cleanup, Done,
}
use soteria_tacacs.Authen.Steps.{is_empty, c_str}
use soteria_tacacs.Authen.Logins.{do_login, do_pap, do_chap, do_sshkeyhash}
use soteria_tacacs.Authen.Ascii.{do_chpass, do_ascii_login}
use soteria_tacacs.Authen.Enable.{
  do_enable, do_enable_login, do_enable_getuser, do_enable_augmented,
}

abbrev pub action_login : ℕ
action_login = 0x01

abbrev pub action_chpass : ℕ
action_chpass = 0x02

abbrev pub svc_enable : ℕ
svc_enable = 2

abbrev pub type_ascii : ℕ
type_ascii = 1

abbrev pub type_pap : ℕ
type_pap = 2

abbrev pub type_chap : ℕ
type_chap = 3

abbrev pub type_sshkey : ℕ
type_sshkey = 240

abbrev pub continue_flag_abort : ℕ
continue_flag_abort = 0x01

-- what the kind of a START packet decides: the handler, whether the packet has to name the user,
-- whether a change of the password is allowed or asked for, and whether its data count
pub record Choice : Type 0 where
  pub authfn : AuthFn
  pub username_required : Bool
  pub passwd_changeable : Bool
  pub chpass : Bool
  pub data_counts : Bool

abbrev handler : AuthFn → Choice
handler f = record {
  authfn = f;
  username_required = true;
  passwd_changeable = false;
  chpass = false;
  data_counts = true;
}

abbrev choose_ascii : Env → ℕ → ℕ → Choice
choose_ascii e user_len data_len =
    if e.start_data_quirk && user_len != 0 && data_len != 0 then handler fn_login else record {
      authfn = fn_ascii_login;
      username_required = false;
      passwd_changeable = true;
      chpass = false;
      data_counts = false;
    }

abbrev choose_login : Env → ℕ → ℕ → ℕ → ℕ → Option Choice
choose_login e version kind user_len data_len =
    if kind == type_ascii
    then some (choose_ascii e user_len data_len)
    else if kind == type_pap && version == ver_one
    then some (handler (if e.map_pap_to_login then fn_login else fn_pap))
    else if kind == type_chap && version == ver_one
    then some (handler fn_chap)
    else if kind == type_sshkey
    then some (handler fn_sshkeyhash)
    else none

-- the handler for the action, the service, the type and the version of a START packet
unfoldable pub choose_authfn : Env → ℕ → List ℕ → Option Choice
choose_authfn e version p =
    if byte_at p 0 == action_login
    then (if byte_at p 3 == svc_enable
        then some (record (handler fn_enable) { username_required = false })
        else choose_login e version (byte_at p 2) (byte_at p 4) (byte_at p 7))
    else if byte_at p 0 == action_chpass && e.chpass_allowed && byte_at p 2 == type_ascii
    then some (record {
      authfn = fn_chpass;
      username_required = false;
      passwd_changeable = true;
      chpass = true;
      data_counts = true;
    })
    else none

unfoldable pub run_authfn : AuthFn → Env → Session → Done
run_authfn fn_login e s = do_login e s
run_authfn fn_pap e s = do_pap e s
run_authfn fn_chap e s = do_chap e s
run_authfn fn_ascii_login e s = do_ascii_login e s
run_authfn fn_chpass e s = do_chpass e s
run_authfn fn_sshkeyhash e s = do_sshkeyhash e s
run_authfn fn_enable e s = do_enable e s
run_authfn fn_enable_login e s = do_enable_login e s
run_authfn fn_enable_getuser e s = do_enable_getuser e s
run_authfn fn_enable_augmented e s = do_enable_augmented e s

-- the fields of a START packet, in the session
unfoldable pub read_start : Choice → List ℕ → Session → Session
read_start c p s =
    let user = drop authen_start_size p in
    let port = drop (byte_at p 4) user in
    let rem_addr = drop (byte_at p 5) port in
    let content = drop (byte_at p 6) rem_addr in
    record s {
      authfn = some c.authfn;
      passwd_changeable = c.passwd_changeable || s.passwd_changeable;
      chpass = c.chpass || s.chpass;
      username = c_str (mem_strndup user (byte_at p 4));
      data_field = some (take (if c.data_counts then byte_at p 7 else 0) content);
      priv_lvl = byte_at p 1;
    }

-- The fields of a CONTINUE packet, in the session. The message is only used as a string.
unfoldable pub read_cont : List ℕ → Session → Session
read_cont p s =
    let user_msg = drop authen_cont_size p in
    record s {
      msg = some (c_str (take (u16_at p 0) user_msg));
      data_field = some (take (u16_at p 2) (drop (u16_at p 0) user_msg));
    }

unfoldable pub authen_start : Env → ℕ → List ℕ → Session → Done
authen_start e version p s = elim (choose_authfn e version p) [
  | none ↦ (s, send_error)
  | some c ↦
      let s = read_start c p s in
      if has s.priv_lvl 0xf0
      then (s, send_error)
      else if c.username_required && is_empty s.username
      then (s, send_error)
      else run_authfn c.authfn e s
]

unfoldable pub authen_cont : Env → List ℕ → Session → Done
authen_cont e p s =
    if has (byte_at p 4) continue_flag_abort
    then (s, cleanup)
    else (let s = read_cont p s in
        elim s.authfn [ none ↦ (s, send_error) | some f ↦ run_authfn f e s ])

-- The packet with sequence number 1 is the START of its session.
unfoldable pub authen : Env → ℕ → ℕ → List ℕ → Session → Done
authen e seq_no version p s = if seq_no == 1 then authen_start e version p s else authen_cont e p s

-- What makes the daemon go on with the authentication of a session: a packet, or the answer of the
-- MAVIS backend to a query of the handler that it is for (mavis.c). The callback puts the verdict, the
-- user and the texts of the backend into the session; `run_event` starts from the session after that.
pub data Event : Type 0 where
  packet : ℕ → ℕ → List ℕ → Event
  mavis_answer : AuthFn → Event

unfoldable pub run_event : Env → Event → Session → Done
run_event e (packet seq_no version p) s = authen e seq_no version p s
run_event e (mavis_answer mavisfn) s = run_authfn mavisfn e s
