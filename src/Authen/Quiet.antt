-- ===== src/Authen/Quiet.antt =====
-- The steps of authen.c's handlers admit nobody: a reply PASS comes from what follows them.
use soteria_tacacs.Prelude.{
  ◌≡◌, refl, sym, ap, ◌∙◌, ◌≢◌, inl, inr, Bool, true, false, Option, none, some, arith,
  if◌then◌else◌,
}
use soteria_tacacs.Authen.{
  Str, Token, s_unknown, s_permit, s_deny, is_permit, is_denied, fail, send_error, AuthFn, PwIx,
  User, Session, Env, pass, Action, send, Done, Step, guard,
}
use soteria_tacacs.Authen.Steps.{
  c_str, eval_hosts, found_user, is_barred, lookup_and_set_user, set_tac_user, is_refusing,
  refuse_tac_session, password_requirements_failed, query_mavis_auth_login, query_mavis_info_login,
  query_mavis_info, query_mavis_auth_pap, query_mavis_info_pap, take_password, take_data,
}
use soteria_tacacs.Authen.Admitted.{Admitted}

-- no verdict of the backend and no authorization comes in
pub record Keeps (s s' : Session) : Type 0 where
  pub backend : s'.mavisauth_res ≡ s_permit → s.mavisauth_res ≡ s_permit
  pub allowed : s'.authorized ≡ s.authorized

pub same-Keeps :
    {s s' : Session}
    → s'.mavisauth_res ≡ s.mavisauth_res
    → s'.authorized ≡ s.authorized
    → Keeps s s'
same-Keeps e f = record { backend = λ h. sym e ∙ h; allowed = f }

pub Admitted-Keeps :
    {e : Env} {s s' r : Session} {passwd : Option Str}
    → Keeps s s'
    → Admitted e s' r passwd
    → Admitted e s r passwd
Admitted-Keeps k a = record {
  vouched = elim a.vouched [ inl h ↦ inl (k.backend h) | inr f ↦ inr f ];
  in_time = a.in_time;
  ruled = λ u h. elim (a.ruled u h) [ inl z ↦ inl (sym k.allowed ∙ z) | inr f ↦ inr f ];
}

-- PASS is sent only to a user who may be let in.
abbrev pub Passes : Env → Session → (Session → Option Str) → Done → Type 0
Passes e s passwd d = d.1 ≡ send pass → Admitted e s d.0 (passwd d.0)

pub record Quiet (s : Session) (m : Step) : Type 0 where
  pub no_pass : m.1 ≢ some (send pass)
  pub keeps : Keeps s m.0

pub guard-Passes :
    {e : Env} {s : Session} (passwd : Session → Option Str) (m : Step) (k : Session → Done)
    → Quiet s m
    → (m.1 ≡ none → Passes e m.0 passwd (k m.0))
    → Passes e s passwd (guard m k)
guard-Passes passwd (s', some a) k q h z = absurd (q.no_pass (ap some z))
guard-Passes passwd (s', none) k q h z = Admitted-Keeps q.keeps (h refl z)

-- an action that is taken, or not
pub optional_ne :
    (b : Bool) (a : Action) → a ≢ send pass → (if b then some a else none) ≢ some (send pass)
optional_ne true a n h = n (ap (get_action a) h)
  where
    get_action : Action → Option Action → Action
    get_action a none = a
    get_action a (some b) = b
optional_ne false a n h = ground arith

lookup_and_set_user-Keeps : (e : Env) (s : Session) → Keeps s (lookup_and_set_user e s).0
unfolding lookup_and_set_user
lookup_and_set_user-Keeps e s =
    go (is_denied (eval_hosts e.host_actions s.username s_unknown)) (found_user e s)
  where
    go :
        (b : Bool) (o : Option User)
        → let t : Session × Token = if b then (s, s_deny) else elim o [
          | none ↦ (record s { user = none }, eval_hosts e.host_actions s.username s_unknown)
          | some u ↦
              if is_barred e s u
              then (record s { user = none }, s_deny)
              else (record s { user = some u }, s_permit)
        ] in
          Keeps s t.0
    go true o = same-Keeps refl refl
    go false none = same-Keeps refl refl
    go false (some u) = pick (is_barred e s u)
      where
        pick :
            (b : Bool)
            → (let t : Session × Token =
                  if b
                  then (record s { user = none }, s_deny)
                  else (record s { user = some u }, s_permit) in
                Keeps s t.0)
        pick true = same-Keeps refl refl
        pick false = same-Keeps refl refl

pub set_tac_user-Quiet : (e : Env) (s : Session) → Quiet s (set_tac_user e s)
unfolding set_tac_user
set_tac_user-Quiet e s = record {
  no_pass = optional_ne (is_denied (lookup_and_set_user e s).1) (send fail) (λ h. ground arith);
  keeps = lookup_and_set_user-Keeps e s;
}

pub refuse_tac_session-Quiet : (s : Session) (ix : PwIx) → Quiet s (refuse_tac_session s ix)
unfolding refuse_tac_session
refuse_tac_session-Quiet s ix = record {
  no_pass = optional_ne (is_refusing s.user ix) send_error (λ h. ground arith);
  keeps = same-Keeps refl refl;
}

pub query_mavis_info_login-Quiet :
    (e : Env) (f : AuthFn) (s : Session) → Quiet s (query_mavis_info_login e f s)
unfolding query_mavis_info_login
query_mavis_info_login-Quiet e f s = record {
  no_pass = optional_ne _ _ (λ h. ground arith);
  keeps = same-Keeps refl refl;
}

pub query_mavis_info-Quiet :
    (f : AuthFn) (ix : PwIx) (s : Session) → Quiet s (query_mavis_info f ix s)
unfolding query_mavis_info
query_mavis_info-Quiet f ix s = record {
  no_pass = optional_ne _ _ (λ h. ground arith);
  keeps = same-Keeps refl refl;
}

pub query_mavis_auth_pap-Quiet :
    (e : Env) (f : AuthFn) (ix : PwIx) (s : Session) → Quiet s (query_mavis_auth_pap e f ix s)
unfolding query_mavis_auth_pap
query_mavis_auth_pap-Quiet e f ix s = record {
  no_pass = optional_ne _ _ (λ h. ground arith);
  keeps = same-Keeps refl refl;
}

pub query_mavis_info_pap-Quiet :
    (e : Env) (f : AuthFn) (s : Session) → Quiet s (query_mavis_info_pap e f s)
unfolding query_mavis_info_pap
query_mavis_info_pap-Quiet e f s = record {
  no_pass = optional_ne _ _ (λ h. ground arith);
  keeps = same-Keeps refl refl;
}

-- the ACL on passwords, on a session that keeps
pub requirements-Quiet :
    (e : Env) (s s' : Session) → Keeps s s' → Quiet s (password_requirements_failed e s')
unfolding password_requirements_failed
requirements-Quiet e s s' k = go e.password_acl
  where
    go :
        (o : Option (Str → Option Str → Option Str → Token))
        → Quiet s (
            let t : Step = elim o [
              | none ↦ (s', none)
              | some acl ↦ (
                s',
                (if is_permit (acl s'.username s'.password s'.password_new)
                    then none
                    else some (send fail)),
              )
            ] in
            t)
    go none = record { no_pass = ground arith; keeps = k }
    go (some acl) = record {
      no_pass = pick (is_permit (acl s'.username s'.password s'.password_new));
      keeps = k;
    }
      where
        pick : (b : Bool) → (if b then none else some (send fail)) ≢ some (send pass)
        pick true = ground arith
        pick false = ground arith

pub take_password-Quiet : (e : Env) (s : Session) → Quiet s (take_password e s)
unfolding take_password
take_password-Quiet e s = go s.msg
  where
    go :
        (o : Option Str)
        → Quiet s (
            let t : Step = elim o [
              | none ↦ (s, none)
              | some m ↦ password_requirements_failed e (record s { password = some m; msg = none })
            ] in
            t)
    go none = record { no_pass = ground arith; keeps = same-Keeps refl refl }
    go (some m) =
        requirements-Quiet e s (record s { password = some m; msg = none }) (same-Keeps refl refl)

pub take_data-Quiet : (e : Env) (s : Session) → Quiet s (take_data e s)
unfolding take_data
take_data-Quiet e s = go s.data_field
  where
    go :
        (o : Option Str)
        → Quiet s (
            let t : Step = elim o [
              | none ↦ (s, none)
              | some m ↦
                  password_requirements_failed e
                    (record s { password = some (c_str m); data_field = none })
            ] in
            t)
    go none = record { no_pass = ground arith; keeps = same-Keeps refl refl }
    go (some m) =
        requirements-Quiet e s (record s { password = some (c_str m); data_field = none })
          (same-Keeps refl refl)

pub query_mavis_auth_login-Quiet :
    (e : Env) (f : AuthFn) (ix : PwIx) (s : Session) → Quiet s (query_mavis_auth_login e f ix s)
unfolding query_mavis_auth_login
query_mavis_auth_login-Quiet e f ix s = record {
  no_pass = optional_ne _ _ (λ h. ground arith);
  keeps = same-Keeps refl refl;
}
