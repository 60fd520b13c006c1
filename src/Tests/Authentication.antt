-- ===== src/Tests/Authentication.antt =====
-- Runs and witnesses for authentication (tacacs/binaries/tac_plus-ng/authen.c).
use soteria_tacacs.Prelude.{
  codes, ℕ, ◌≡◌, refl, ◌↔◌, ◌⊎◌, true, false, none, some, List, [], ◌∷◌, ◌++◌, if◌then◌else◌,
  str_eq, length,
}
use soteria_tacacs.Authen.{
  Str, s_unknown, s_permit, s_clear, pw_login, User, Session, Env, pass, getpass, fail, send,
}
use soteria_tacacs.Authen.Password.{set_pwdat, compare_pwdat, check_access}
use soteria_tacacs.Authen.Start.{
  authen, authen_start, choose_authfn, read_start, run_authfn, authen_cont, read_cont, packet,
  run_event,
}
use soteria_tacacs.Authen.Steps.{
  take_username, set_tac_user, lookup_and_set_user, query_mavis_info_login, refuse_tac_session,
  take_password, take_data, password_requirements_failed, send_password_prompt,
  query_mavis_auth_login, query_mavis_info_pap, query_mavis_auth_pap, reply_access,
}
use soteria_tacacs.Authen.Ascii.{
  do_ascii_login, ascii_password, ascii_verdict, ascii_access, ascii_reply,
}
use soteria_tacacs.Authen.Logins.{do_pap}
use soteria_tacacs.Authen.Compare.{is_digest, compare_pwdat-permit_iff}
use soteria_tacacs.Authen.Grounds.{Grounds}
use soteria_tacacs.Authen.Safety.{authen-Grounds}

-- every password is "pw", in clear text
abbrev joe : User
joe = record {
  passwd = λ ix. record { kind = s_clear; value = codes "pw" };
  valid_from = 0;
  valid_until = 0;
  fallback_only = false;
  rewritten_only = false;
  chalresp_yes = false;
  chalresp_no = false;
  passwd_oneshot = false;
}

-- "joe" is the only user, and the rules permit everybody
abbrev env : Env
env = record {
  now = 1000;
  backend_until = 0;
  authfallback = false;
  authen_max_attempts = 2;
  mavis_login = false;
  mavis_login_prefetch = false;
  mavis_pap = false;
  mavis_pap_prefetch = false;
  mavis_userdb = false;
  chpass_allowed = false;
  chalresp = false;
  augmented_enable = false;
  anon_enable_no = true;
  map_pap_to_login = false;
  start_data_quirk = false;
  host_actions = [];
  lookup_user = λ u. if str_eq u (codes "joe") then some joe else none;
  author_eval_host = λ u o p. s_unknown;
  eval_ruleset = λ u o p. s_permit;
  password_acl = none;
  enable_user_acl = λ u. s_unknown;
  cfg_get_enable = λ u o. none;
  type6_decrypt = λ v. none;
  verify = λ t v p u. false;
  md5 = λ b. [];
  validate_ssh_hash = λ o h. s_unknown;
}

abbrev fresh : Session
fresh = record {
  username = [];
  username_rewritten = false;
  user = none;
  user_is_session_specific = false;
  msg = none;
  data_field = none;
  iterations = 0;
  password = none;
  password_new = none;
  password_bad = none;
  mavisauth_res = s_unknown;
  authorized = false;
  flag_mavis_auth = false;
  flag_mavis_info = false;
  flag_chalresp = false;
  challenge = none;
  passwd_mustchange = false;
  passwd_changeable = false;
  chpass = false;
  enable = none;
  enable_getuser = false;
  authfn = none;
  priv_lvl = 0;
}

-- START packets: a PAP login of joe with a password, and an ASCII login
abbrev pap : Str → List ℕ
pap pw = 1 ∷ 1 ∷ 2 ∷ 1 ∷ 3 ∷ 0 ∷ 0 ∷ length pw ∷ (codes "joe" ++ pw)

abbrev ascii : List ℕ
ascii = 1 ∷ 1 ∷ 1 ∷ 1 ∷ 3 ∷ 0 ∷ 0 ∷ 0 ∷ codes "joe"

-- a CONTINUE packet with a message
abbrev message : Str → List ℕ
message m = 0 ∷ length m ∷ 0 ∷ 0 ∷ 0 ∷ m

pap_right : (authen env 1 0xc1 (pap (codes "pw")) fresh).1 ≡ send pass
unfolding authen authen_start choose_authfn read_start run_authfn do_pap take_data
    password_requirements_failed set_tac_user lookup_and_set_user str_eq query_mavis_info_pap
    set_pwdat refuse_tac_session query_mavis_auth_pap reply_access check_access compare_pwdat
pap_right = refl

pap_wrong : (authen env 1 0xc1 (pap (codes "pq")) fresh).1 ≡ send fail
unfolding authen authen_start choose_authfn read_start run_authfn do_pap take_data
    password_requirements_failed set_tac_user lookup_and_set_user str_eq query_mavis_info_pap
    set_pwdat refuse_tac_session query_mavis_auth_pap reply_access check_access compare_pwdat
pap_wrong = refl

abbrev asked : Session
asked = (authen env 1 0xc0 ascii fresh).0

abbrev wrong_once : Session
wrong_once = (authen env 3 0xc0 (message (codes "pq")) asked).0

-- an ASCII login asks for the password, asks once more after a wrong one, and then fails
ascii_asks : (authen env 1 0xc0 ascii fresh).1 ≡ send getpass
unfolding authen authen_start choose_authfn read_start run_authfn authen_cont read_cont
    do_ascii_login take_username set_tac_user lookup_and_set_user str_eq query_mavis_info_login
    refuse_tac_session set_pwdat take_password password_requirements_failed ascii_password
    send_password_prompt ascii_verdict query_mavis_auth_login ascii_access check_access
    compare_pwdat ascii_reply
ascii_asks = refl

ascii_retry : (authen env 3 0xc0 (message (codes "pq")) asked).1 ≡ send getpass
unfolding authen authen_start choose_authfn read_start run_authfn authen_cont read_cont
    do_ascii_login take_username set_tac_user lookup_and_set_user str_eq query_mavis_info_login
    refuse_tac_session set_pwdat take_password password_requirements_failed ascii_password
    send_password_prompt ascii_verdict query_mavis_auth_login ascii_access check_access
    compare_pwdat ascii_reply
ascii_retry = refl

ascii_fails : (authen env 5 0xc0 (message (codes "px")) wrong_once).1 ≡ send fail
unfolding authen authen_start choose_authfn read_start run_authfn authen_cont read_cont
    do_ascii_login take_username set_tac_user lookup_and_set_user str_eq query_mavis_info_login
    refuse_tac_session set_pwdat take_password password_requirements_failed ascii_password
    send_password_prompt ascii_verdict query_mavis_auth_login ascii_access check_access
    compare_pwdat ascii_reply
ascii_fails = refl

ascii_right : (authen env 5 0xc0 (message (codes "pw")) wrong_once).1 ≡ send pass
unfolding authen authen_start choose_authfn read_start run_authfn authen_cont read_cont
    do_ascii_login take_username set_tac_user lookup_and_set_user str_eq query_mavis_info_login
    refuse_tac_session set_pwdat take_password password_requirements_failed ascii_password
    send_password_prompt ascii_verdict query_mavis_auth_login ascii_access check_access
    compare_pwdat ascii_reply
ascii_right = refl

authen-Grounds_example :
    Grounds env wrong_once (run_event env (packet 5 0xc0 (message (codes "pw"))) wrong_once).0
unfolding run_event
authen-Grounds_example =
    authen-Grounds env (packet 5 0xc0 (message (codes "pw"))) wrong_once ascii_right

compare_pwdat-permit_iff_example :
    (compare_pwdat env (joe.passwd pw_login) (codes "joe") (some (codes "pw")) ≡ s_permit) ↔ (
      (s_clear ≡ s_permit)
      ⊎ ((c : Str) × (some (codes "pw") ≡ some c)
          × (((s_clear ≡ s_clear) × (codes "pw" ≡ c))
              ⊎ ((is_digest s_clear ≡ true) × (false ≡ true)))))
compare_pwdat-permit_iff_example =
    compare_pwdat-permit_iff env (joe.passwd pw_login) (codes "joe") (some (codes "pw"))
