-- ===== src/Authen/Password.antt =====
-- authen.c: whether a password is right, and whether a user with the right password may log in
-- (user_expiry_check, compare_pwdat, check_access, set_pwdat).
use soteria_tacacs.Prelude.{
  Bool, true, false, not, ◌&&◌, ◌||◌, Option, none, some, ltb, leb, ◌!=◌, if◌then◌else◌, str_eq,
}
use soteria_tacacs.Authen.{
  Str, Token, s_unknown, s_permit, s_deny, s_error, s_clear, s_crypt, s_pbkdf2, s_4, s_8, s_9,
  s_asa, s_6, is_permit, is_denied, is_error, is_unknown, is_login, is_mavis, PwIx, pw_login,
  pw_pap, pw_login_fallback, pw_pap_fallback, pw_mavis, Pwdat, User, Session, Env,
}

abbrev pub is_expired : Env → User → Bool
is_expired e u =
    (u.valid_from != 0 && ltb e.now u.valid_from) || (u.valid_until != 0 && leb u.valid_until e.now)

abbrev pub user_expiry_check : Env → Token → User → Token
user_expiry_check e res u = if is_expired e u then s_deny else res

-- the comparison with a stored password, for the types that compare one; `b` may be NULL
abbrev pub compare_value : Env → Pwdat → Str → Option Str → Bool
compare_value e a username none = false
compare_value e a username (some b) = elim a.kind [
  | s_clear ↦ str_eq a.value b
  | t ↦ e.verify t a.value b username
]

abbrev pub token_of_match : Bool → Token
token_of_match true = s_permit
token_of_match false = s_deny

unfoldable pub compare_pwdat : Env → Pwdat → Str → Option Str → Token
compare_pwdat e a username b =
    let compared = token_of_match (compare_value e a username b) in
    elim a.kind [
      | s_clear ↦ compared
      | s_crypt ↦ compared
      | s_pbkdf2 ↦ compared
      | s_4 ↦ compared
      | s_8 ↦ compared
      | s_9 ↦ compared
      | s_asa ↦ compared
      | s_permit ↦ s_permit
      | s_error ↦ s_error
      | _ ↦ s_deny
    ]

-- The verdict of the backend, if there is one, and of the stored password otherwise.
abbrev pub password_verdict : Env → Session → Option Pwdat → Option Str → Token
password_verdict e s pwdat passwd =
    if not (is_unknown s.mavisauth_res)
    then (if is_error s.mavisauth_res && not e.authfallback then s_deny else s.mavisauth_res)
    else elim pwdat [ none ↦ s_deny | some p ↦ compare_pwdat e p s.username passwd ]

-- what the rules of the host and of the realm say of the user with the right password
abbrev pub is_refused : Env → Session → Bool
is_refused e s =
    is_denied (e.author_eval_host s.username s.user s.password)
    || not (is_permit (e.eval_ruleset s.username s.user s.password))

abbrev pub has_no_error : Option Pwdat → Bool
has_no_error none = true
has_no_error (some p) = not (is_error p.kind)

-- A permission stands if the rules give one too and the user's time has not run out.
abbrev pub user_verdict : Bool → Bool → Bool → Token → Token
user_verdict expired authorized refused res =
    if expired then s_deny else if is_permit res && not authorized && refused then s_deny else res

-- a password that was not right is kept as the bad one
abbrev pub note_result : Session → Token → Session
note_result s res =
    if is_permit res
    then record s { password_bad = none }
    else record s { password_bad = s.password; password = none }

-- the checks of a known user; `s` is the session without the verdict of the backend
abbrev pub check_user : Env → Session → Token → User → Session × Token
check_user e s res u =
    let checked = user_verdict (is_expired e u) s.authorized (is_refused e s) res in
    (note_result s checked, checked)

unfoldable pub check_access : Env → Session → Option Pwdat → Option Str → Session × Token
check_access e s pwdat passwd =
    let res = password_verdict e s pwdat passwd in
    let s' = record s { mavisauth_res = s_unknown } in
    elim s.user [
      | none ↦ (s', res)
      | some u ↦ if has_no_error pwdat then check_user e s' res u else (s', res)
    ]

-- A password of type 6 is decrypted, and is then a password in clear text.
abbrev pub opened : Env → Pwdat → Pwdat
opened e p = elim p.kind [
  | s_6 ↦ record {
    kind = s_clear;
    value = elim (e.type6_decrypt p.value) [ none ↦ p.value | some v ↦ v ];
  }
  | _ ↦ p
]

-- With the backend down, the fallback passwords count.
abbrev pub is_fallback : Env → User → Bool
is_fallback e u = not u.fallback_only && ltb e.now e.backend_until && e.authfallback

abbrev pub fallback_ix : PwIx → PwIx
fallback_ix pw_login = pw_login_fallback
fallback_ix pw_pap = pw_pap_fallback
fallback_ix ix = ix

abbrev pub has_fallback : PwIx → Bool
has_fallback pw_login = true
has_fallback pw_pap = true
has_fallback _ = false

-- the index that counts: a password may be that of the login, and that one the backend's
abbrev pub login_ix : User → PwIx → PwIx
login_ix u ix = if is_login (u.passwd ix).kind then pw_login else ix

abbrev pub final_ix : User → PwIx → PwIx
final_ix u ix = if is_mavis (u.passwd (login_ix u ix)).kind then pw_mavis else login_ix u ix

pub record Chosen : Type 0 where
  pub session : Session
  pub pwdat : Option Pwdat
  pub ix : PwIx

unfoldable pub set_pwdat : Env → Session → PwIx → Chosen
set_pwdat e s ix = elim s.user [
  | none ↦ record { session = s; pwdat = none; ix = ix }
  | some u ↦
      let fallen = is_fallback e u && has_fallback ix in
      let final = final_ix u (if fallen then fallback_ix ix else ix) in
      record {
        session = if fallen then record s { mavisauth_res = s_unknown } else s;
        pwdat = some (opened e (u.passwd final));
        ix = final;
      }
]
