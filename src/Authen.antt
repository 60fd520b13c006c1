-- ===== src/Authen.antt =====
-- tacacs/binaries/tac_plus-ng/authen.c: the authentication of users. This file has the state of a
-- session as far as authentication reads and writes it (headers.h), the configuration and the
-- answers of other parts, and the ways in which a handler ends. Logging and the texts of messages
-- are left out. The build is one without WITH_CRYPTO and WITH_DNS.
use soteria_tacacs.Prelude.{
  ℕ, zero, suc, ◌+◌, ◌-◌, ◌*◌, ◌/◌, ◌%◌, ◌^◌, ◌≤◌, ◌<◌, bit_and, bit_or, bit_xor, ◌≡◌, refl, sym,
  ap, ap₂, ◌∙◌, ◌≢◌, ◌↔◌, ◌⊎◌, inl, inr, Bool, true, false, not, ◌&&◌, ◌||◌, Option, none, some,
  List, [], ◌∷◌, ◌++◌, append-nil, append_assoc, arith, ltb, leb, ◌==◌, ◌!=◌, if◌then◌else◌, has,
  str_eq, Bool-cases, length, get_or, take, drop, length-append, take-take, take-append, take-suc,
  take_whole, get_or-take, get_or_last, take-append-drop, length-take, length-drop, take-length,
  drop-length, u8,
}
pub mod Password
pub mod Steps
pub mod Logins
pub mod Ascii
pub mod Enable
pub mod Start
pub mod Admitted
pub mod Kept
pub mod Compare
pub mod Quiet
pub mod Choosing
pub mod Safe
pub mod Dialog
pub mod Changing
pub mod Shell
pub mod AsciiLogin
pub mod Privilege
pub mod Enabling
pub mod Getuser
pub mod Grounds
pub mod Network
pub mod Safety

abbrev pub Str : Type 0
Str = List ℕ

-- The tokens of `enum token` that stand for results and for types of passwords; S_pbkdf2, S_4, S_8,
-- S_9 and S_asa are digests of their own, and `s_other` is any other token.
pub data Token : Type 0 where
  s_unknown : Token
  s_permit : Token
  s_deny : Token
  s_error : Token
  s_clear : Token
  s_crypt : Token
  s_pbkdf2 : Token
  s_4 : Token
  s_8 : Token
  s_9 : Token
  s_asa : Token
  s_login : Token
  s_mavis : Token
  s_6 : Token
  s_other : Token

abbrev pub is_permit : Token → Bool
is_permit s_permit = true
is_permit _ = false

abbrev pub is_denied : Token → Bool
is_denied s_deny = true
is_denied _ = false

abbrev pub is_error : Token → Bool
is_error s_error = true
is_error _ = false

abbrev pub is_unknown : Token → Bool
is_unknown s_unknown = true
is_unknown _ = false

abbrev pub is_login : Token → Bool
is_login s_login = true
is_login _ = false

abbrev pub is_mavis : Token → Bool
is_mavis s_mavis = true
is_mavis _ = false

abbrev pub is_cleartext : Token → Bool
is_cleartext s_clear = true
is_cleartext _ = false

-- enum pw_ix
pub data PwIx : Type 0 where
  pw_login : PwIx
  pw_pap : PwIx
  pw_chap : PwIx
  pw_mschap : PwIx
  pw_login_fallback : PwIx
  pw_pap_fallback : PwIx
  pw_mavis : PwIx

abbrev pub is_pw_mavis : PwIx → Bool
is_pw_mavis pw_mavis = true
is_pw_mavis _ = false

abbrev pub is_pw_login : PwIx → Bool
is_pw_login pw_login = true
is_pw_login _ = false

pub record Pwdat : Type 0 where
  pub kind : Token
  pub value : Str

-- valid_from and valid_until are 0 if they are not set; chalresp is compared with TRISTATE_YES and
-- with TRISTATE_NO
pub record User : Type 0 where
  pub passwd : PwIx → Pwdat
  pub valid_from : ℕ
  pub valid_until : ℕ
  pub fallback_only : Bool
  pub rewritten_only : Bool
  pub chalresp_yes : Bool
  pub chalresp_no : Bool
  pub passwd_oneshot : Bool

-- the handlers that session->authfn points to
pub data AuthFn : Type 0 where
  fn_login : AuthFn
  fn_pap : AuthFn
  fn_chap : AuthFn
  fn_ascii_login : AuthFn
  fn_chpass : AuthFn
  fn_sshkeyhash : AuthFn
  fn_enable : AuthFn
  fn_enable_login : AuthFn
  fn_enable_getuser : AuthFn
  fn_enable_augmented : AuthFn

-- What is known of the session: `msg`, `data` and `iterations` are those of its authen_data, and a
-- NULL pointer is `none`.
pub record Session : Type 0 where
  pub username : Str
  pub username_rewritten : Bool
  pub user : Option User
  pub user_is_session_specific : Bool
  pub msg : Option Str
  pub data_field : Option Str
  pub iterations : ℕ
  pub password : Option Str
  pub password_new : Option Str
  pub password_bad : Option Str
  pub mavisauth_res : Token
  pub authorized : Bool
  pub flag_mavis_auth : Bool
  pub flag_mavis_info : Bool
  pub flag_chalresp : Bool
  pub challenge : Option Str
  pub passwd_mustchange : Bool
  pub passwd_changeable : Bool
  pub chpass : Bool
  pub enable : Option Pwdat
  pub enable_getuser : Bool
  pub authfn : Option AuthFn
  pub priv_lvl : ℕ

-- The configuration of the realm and of the host, and the answers of other parts. A script or ACL
-- is asked about the user name, the user and the password of the session; its addresses, its port
-- and its connection do not change. `backend_until` is last_backend_failure +
-- backend_failure_period.
pub record Env : Type 0 where
  pub now : ℕ
  pub backend_until : ℕ
  pub authfallback : Bool
  pub authen_max_attempts : ℕ
  pub mavis_login : Bool
  pub mavis_login_prefetch : Bool
  pub mavis_pap : Bool
  pub mavis_pap_prefetch : Bool
  pub mavis_userdb : Bool
  pub chpass_allowed : Bool
  pub chalresp : Bool
  pub augmented_enable : Bool
  pub anon_enable_no : Bool
  pub map_pap_to_login : Bool
  pub start_data_quirk : Bool
  pub host_actions : List (Option (Str → Token))
  pub lookup_user : Str → Option User
  pub author_eval_host : Str → Option User → Option Str → Token
  pub eval_ruleset : Str → Option User → Option Str → Token
  pub password_acl : Option (Str → Option Str → Option Str → Token)
  pub enable_user_acl : Str → Token
  pub cfg_get_enable : Str → Option User → Option Pwdat
  pub type6_decrypt : Str → Option Str
  pub verify : Token → Str → Str → Str → Bool
  pub md5 : List ℕ → List ℕ
  pub validate_ssh_hash : Option User → Str → Token

-- the status of a reply
pub data Status : Type 0 where
  pass : Status
  fail : Status
  getdata : Status
  getuser : Status
  getpass : Status

-- the queries to the MAVIS backend (AV_V_TACTYPE_…)
pub data Query : Type 0 where
  query_auth : Query
  query_info : Query
  query_chal : Query
  query_chpw : Query

-- How a handler ends: with send_authen_reply, with send_authen_error, or with a call of
-- mavis_lookup, which calls the handler again.
pub data Action : Type 0 where
  send : Status → Action
  send_error : Action
  mavis_lookup : Query → AuthFn → PwIx → Action
  cleanup : Action

-- the session after a handler, and how it ended
abbrev pub Done : Type 0
Done = Session × Action

-- a call that ends the handler, or not
abbrev pub Step : Type 0
Step = Session × Option Action

-- `if (step) return;`
abbrev pub guard : Step → (Session → Done) → Done
guard (s, some a) k = (s, a)
guard (s, none) k = k s

-- TAC_SYM_TO_CODE
abbrev pub sym_to_code : Token → Status
sym_to_code res = if is_permit res then pass else fail
