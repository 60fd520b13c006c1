-- ===== src/Authen/Network.antt =====
-- do_chap and do_sshkeyhash of authen.c say PASS only on grounds.
use soteria_tacacs.Prelude.{
  ◌≡◌, refl, ◌∙◌, ◌⊎◌, inl, inr, Bool, true, false, not, ◌&&◌, Option, none, some, arith, ltb,
  if◌then◌else◌, length,
}
use soteria_tacacs.Authen.{
  Str, Token, sym_to_code, is_permit, is_cleartext, s_permit, s_deny, fn_chap, fn_sshkeyhash,
  pw_login, pw_chap, User, Session, Env, send, Done,
}
use soteria_tacacs.Authen.Password.{is_refused, user_expiry_check, check_access}
use soteria_tacacs.Authen.Steps.{
  is_empty, c_str, refuse_tac_session, set_tac_user, query_mavis_info,
}
use soteria_tacacs.Authen.Logins.{
  md5_len, chap_matches, chap_helper, do_chap, ssh_verdict, do_sshkeyhash,
}
use soteria_tacacs.Authen.Admitted.{RulesPermit-is_refused, check_access-Admitted}
use soteria_tacacs.Authen.Kept.{check_access-kept}
use soteria_tacacs.Authen.Quiet.{
  set_tac_user-Quiet, refuse_tac_session-Quiet, query_mavis_info-Quiet,
}
use soteria_tacacs.Authen.Changing.{permit_of, Lets, guard-Lets}
use soteria_tacacs.Authen.Grounds.{Grounds, by_chap, by_key, anti, expiry-permit, code_permit}

chap_helper-Grounds :
    (e : Env) (s : Session) (content : Str)
    → s.data_field ≡ some content
    → (chap_helper e s content).1 ≡ s_permit
    → Grounds e s (chap_helper e s content).0
unfolding chap_helper
chap_helper-Grounds e s content h = go s.user refl
  where
    t : Session
    t = record s { mavisauth_res = s_permit }

    digest : (u : User) (b : Bool) → Session × Token
    digest u b =
        if b
        then (let (s', res) = check_access e t none (some (u.passwd pw_chap).value) in
            (s', user_expiry_check e res u))
        else (s, s_deny)

    run : Option User → Session × Token
    run o = elim o [
      | none ↦ (s, s_deny)
      | some u ↦
          digest u (
            is_cleartext (u.passwd pw_chap).kind && chap_matches e (u.passwd pw_chap).value content)
    ]

    pick :
        (u : User)
        → s.user ≡ some u
        → (b : Bool)
        → (is_cleartext (u.passwd pw_chap).kind && chap_matches e (u.passwd pw_chap).value content)
          ≡ b
        → (digest u b).1 ≡ s_permit
        → Grounds e s (digest u b).0
    pick u eu false m = λ w. absurd (ground arith)
    pick u eu true m = λ w.
        let (permitted, valid) =
          expiry-permit e (check_access e t none (some (u.passwd pw_chap).value)).1 u w in
        let a =
          check_access-Admitted e t none (some (u.passwd pw_chap).value) refl
            (λ p z. absurd (ground arith)) permitted in
        let (ku, kd) = check_access-kept e t none (some (u.passwd pw_chap).value) in
        by_chap u content (record { known = ku ∙ eu; in_time = valid; ruled = a.ruled u (ku ∙ eu) })
          (kd ∙ h) m

    go : (o : Option User) → s.user ≡ o → (run o).1 ≡ s_permit → Grounds e s (run o).0
    go none eo = λ w. absurd (ground arith)
    go (some u) eo =
        pick u eo
          (is_cleartext (u.passwd pw_chap).kind && chap_matches e (u.passwd pw_chap).value content)
          refl

pub do_chap-Lets : (e : Env) (s : Session) → Lets (Grounds e) s (do_chap e s)
unfolding do_chap
do_chap-Lets e s =
    guard-Lets (Grounds e) (set_tac_user e s) _ (anti e s) (set_tac_user-Quiet e s) λ _.
      guard-Lets (Grounds e) (query_mavis_info fn_chap pw_chap _) _ (anti e _)
        (query_mavis_info-Quiet fn_chap pw_chap _)
        λ _.
          guard-Lets (Grounds e) (refuse_tac_session _ pw_chap) _ (anti e _)
            (refuse_tac_session-Quiet _ pw_chap) λ _. last _
  where
    long : (t : Session) (content : Str) (b : Bool) → Done
    long t content b =
        if b
        then (let (s', res) = chap_helper e t content in (s', send (sym_to_code res)))
        else (t, send (sym_to_code s_deny))

    pick :
        (t : Session) (content : Str) (b : Bool)
        → t.data_field ≡ some content
        → Lets (Grounds e) t (long t content b)
    pick t content true h = λ w. chap_helper-Grounds e t content h (code_permit _ w)
    pick t content false h = λ w. absurd (ground arith)

    go :
        (t : Session) (o : Option Str)
        → t.data_field ≡ o
        → Lets (Grounds e) t (
            let d : Done = elim o [
              | none ↦ (t, send (sym_to_code s_deny))
              | some content ↦ long t content (ltb md5_len (length content))
            ] in
            d)
    go t none h = λ w. absurd (ground arith)
    go t (some content) h = pick t content (ltb md5_len (length content)) h

    last :
        (t : Session)
        → Lets (Grounds e) t (
            let d : Done = elim t.data_field [
              | none ↦ (t, send (sym_to_code s_deny))
              | some content ↦ long t content (ltb md5_len (length content))
            ] in
            d)
    last t = go t t.data_field refl

ssh_verdict-Grounds :
    (e : Env) (s : Session) (hash : Str) (u : User)
    → s.user ≡ some u
    → s.data_field ≡ some hash
    → ssh_verdict e s (c_str hash) u ≡ s_permit
    → Grounds e s s
ssh_verdict-Grounds e s hash u eu h w =
    go (is_permit known) (not s.authorized && is_refused e s) refl refl w
  where
    known : Token
    known = e.validate_ssh_hash s.user (c_str hash)

    rules : (x y : Bool) → (not x && y) ≡ false → (x ≡ true) ⊎ (y ≡ false)
    rules true y z = inl refl
    rules false y z = inr z

    go :
        (a b : Bool)
        → is_permit known ≡ a
        → (not s.authorized && is_refused e s) ≡ b
        → (if a then (if b then s_deny else user_expiry_check e s_permit u) else known) ≡ s_permit
        → Grounds e s s
    go false b x y w = ground arith
    go true true x y w = ground arith
    go true false x y w =
        by_key u hash
          (record {
            known = eu;
            in_time = (expiry-permit e s_permit u w).1;
            ruled = elim (rules s.authorized (is_refused e s) y) [
              | inl z ↦ inl z
              | inr z ↦ inr (RulesPermit-is_refused e s z)
            ];
          })
          h (permit_of known x)

pub do_sshkeyhash-Lets : (e : Env) (s : Session) → Lets (Grounds e) s (do_sshkeyhash e s)
unfolding do_sshkeyhash
do_sshkeyhash-Lets e s =
    guard-Lets (Grounds e) (set_tac_user e s) _ (anti e s) (set_tac_user-Quiet e s) λ _.
      guard-Lets (Grounds e) (query_mavis_info fn_sshkeyhash pw_login _) _ (anti e _)
        (query_mavis_info-Quiet fn_sshkeyhash pw_login _)
        λ _. λ w. last _ _ refl _ refl (code_permit _ w)
  where
    key : Session → Str → Option User → Token
    key t hash o =
        if is_empty (c_str hash)
        then s_deny
        else elim o [ none ↦ s_deny | some u ↦ ssh_verdict e t (c_str hash) u ]

    pick :
        (t : Session) (hash : Str) (b : Bool) (o : Option User)
        → t.data_field ≡ some hash
        → t.user ≡ o
        → (if b then s_deny else elim o [ none ↦ s_deny | some u ↦ ssh_verdict e t (c_str hash) u ])
          ≡ s_permit
        → Grounds e t t
    pick t hash true o h eo w = absurd (ground arith)
    pick t hash false none h eo w = absurd (ground arith)
    pick t hash false (some u) h eo w = ssh_verdict-Grounds e t hash u eo h w

    last :
        (t : Session) (o : Option Str)
        → t.data_field ≡ o
        → (v : Option User) → t.user ≡ v
        → (let r : Token = elim o [ none ↦ s_deny | some hash ↦ key t hash v ] in r) ≡ s_permit
        → Grounds e t t
    last t none h v eo w = absurd (ground arith)
    last t (some hash) h v eo w = pick t hash (is_empty (c_str hash)) v h eo w
