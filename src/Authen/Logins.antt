-- ===== src/Authen/Logins.antt =====
-- authen.c: the logins that end in one round, do_login, do_pap, do_chap and do_sshkeyhash.
use soteria_tacacs.Prelude.{
  ℕ, ◌-◌, Bool, false, not, ◌&&◌, none, some, [], ◌∷◌, ◌++◌, ltb, if◌then◌else◌, str_eq, length,
  take, drop,
}
use soteria_tacacs.Authen.{
  Str, Token, s_permit, s_deny, is_permit, is_cleartext, pw_login, pw_pap, pw_chap, is_pw_login,
  User, fn_login, fn_pap, fn_chap, fn_sshkeyhash, Session, Env, send, Done, guard, sym_to_code,
}
use soteria_tacacs.Authen.Password.{user_expiry_check, is_refused, check_access, set_pwdat}
use soteria_tacacs.Authen.Steps.{
  c_str, is_empty, set_tac_user, refuse_tac_session, query_mavis_auth_login, query_mavis_info_login,
  query_mavis_info, query_mavis_auth_pap, query_mavis_info_pap, take_data, reply_access,
}

unfoldable pub do_login : Env → Session → Done
do_login e s = guard (take_data e s) λ s. guard (set_tac_user e s) λ s.
    guard (query_mavis_info_login e fn_login s) λ s.
      let c = set_pwdat e s pw_login in
      guard (refuse_tac_session c.session c.ix) λ s.
        guard (query_mavis_auth_login e fn_login c.ix s) λ s. reply_access e c.pwdat s.password s

unfoldable pub do_pap : Env → Session → Done
do_pap e s = guard (take_data e s) λ s. guard (set_tac_user e s) λ s.
    guard (query_mavis_info_pap e fn_pap s) λ s.
      let c = set_pwdat e s pw_pap in
      if is_pw_login c.ix
      then do_login e (record c.session { authfn = some fn_login; data_field = c.session.password })
      else guard (refuse_tac_session c.session c.ix)
          λ s. guard (query_mavis_auth_pap e fn_pap c.ix s) λ s. reply_access e c.pwdat s.password s

-- the length of a digest, MD5_LEN
abbrev pub md5_len : ℕ
md5_len = 16

-- The digest of the packet's identifier, the password and the challenge is the response: `data` is
-- the identifier, the challenge and the response.
abbrev pub chap_matches : Env → Str → Str → Bool
chap_matches e value [] = false
chap_matches e value (pppid ∷ rest) =
    let n = length rest - md5_len in str_eq (e.md5 (pppid ∷ value ++ take n rest)) (drop n rest)

-- chap_helper, for a packet with enough data
unfoldable pub chap_helper : Env → Session → Str → Session × Token
chap_helper e s content = elim s.user [
  | none ↦ (s, s_deny)
  | some u ↦
      let p = u.passwd pw_chap in
      if is_cleartext p.kind && chap_matches e p.value content
      then (let (s', res) =
            check_access e (record s { mavisauth_res = s_permit }) none (some p.value) in
          (s', user_expiry_check e res u))
      else (s, s_deny)
]

unfoldable pub do_chap : Env → Session → Done
do_chap e s = guard (set_tac_user e s) λ s. guard (query_mavis_info fn_chap pw_chap s) λ s.
    guard (refuse_tac_session s pw_chap) λ s. elim s.data_field [
      | none ↦ (s, send (sym_to_code s_deny))
      | some content ↦
          if ltb md5_len (length content)
          then (let (s', res) = chap_helper e s content in (s', send (sym_to_code res)))
          else (s, send (sym_to_code s_deny))
    ]

-- the verdict on a hash of a key that the user has
abbrev pub ssh_verdict : Env → Session → Str → User → Token
ssh_verdict e s hash u =
    let known = e.validate_ssh_hash s.user hash in
    if is_permit known
    then (if not s.authorized && is_refused e s then s_deny else user_expiry_check e s_permit u)
    else known

unfoldable pub do_sshkeyhash : Env → Session → Done
do_sshkeyhash e s = guard (set_tac_user e s) λ s.
    guard (query_mavis_info fn_sshkeyhash pw_login s) λ s.
      let res : Token = elim s.data_field [
        | none ↦ s_deny
        | some hash ↦
            if is_empty (c_str hash)
            then s_deny
            else elim s.user [ none ↦ s_deny | some u ↦ ssh_verdict e s (c_str hash) u ]
      ] in
      (s, send (sym_to_code res))
