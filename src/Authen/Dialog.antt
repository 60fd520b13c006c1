-- ===== src/Authen/Dialog.antt =====
-- The steps of do_chpass of authen.c, up to the new password, say nothing of a login.
use soteria_tacacs.Prelude.{
  ◌≡◌, refl, ◌≢◌, Bool, true, false, not, ◌&&◌, ◌||◌, Option, none, some, [], ◌∷◌, arith,
  if◌then◌else◌, str_eq,
}
use soteria_tacacs.Authen.{
  Str, fn_chpass, PwIx, pw_login, is_pw_mavis, Session, Env, pass, fail, getpass, getdata,
  query_chpw, mavis_lookup, Action, send, Step,
}
use soteria_tacacs.Authen.Steps.{is_some, is_empty, take_username, password_requirements_failed}
use soteria_tacacs.Authen.Ascii.{
  abort_if_empty, ask_old, ask_new, ask_again, ask_status, query_mavis_chpw,
}
use soteria_tacacs.Authen.Quiet.{Keeps, same-Keeps, Quiet, optional_ne, requirements-Quiet}

abort_if_empty-Quiet : (s : Session) (p : Str) (m : Step) → Quiet s m → Quiet s (abort_if_empty p m)
abort_if_empty-Quiet s p (s', some a) q = q
abort_if_empty-Quiet s p (s', none) q = record {
  no_pass = optional_ne (is_empty p) (send fail) (λ h. ground arith);
  keeps = q.keeps;
}

stop-Quiet : (s : Session) (a : Action) → a ≢ send pass → Quiet s (s, some a)
stop-Quiet s a n = record { no_pass = optional_ne true a n; keeps = same-Keeps refl refl }

pub go_on-Quiet : (s : Session) → Quiet s (s, none)
go_on-Quiet s = record { no_pass = λ h. ground arith; keeps = same-Keeps refl refl }

ask_status-ne : (s : Session) → send (ask_status s) ≢ send pass
ask_status-ne s = go s.chpass
  where
    go : (b : Bool) → send (if b then getpass else getdata) ≢ send pass
    go true h = ground arith
    go false h = ground arith

pub ask_old-Quiet : (e : Env) (s : Session) → Quiet s (ask_old e s)
unfolding ask_old
ask_old-Quiet e s = go s.password s.msg
  where
    go :
        (o m : Option Str)
        → Quiet s (
            let t : Step = elim o [
              | none ↦ elim m [
                | none ↦ (s, some (send getdata))
                | some m ↦
                    abort_if_empty m
                      (password_requirements_failed e (record s { password = some m; msg = none }))
              ]
              | some p ↦ abort_if_empty p (s, none)
            ] in
            t)
    go (some p) m = abort_if_empty-Quiet s p (s, none) (go_on-Quiet s)
    go none none = stop-Quiet s (send getdata) (λ h. ground arith)
    go none (some m) = abort_if_empty-Quiet s m _ (requirements-Quiet e s _ (same-Keeps refl refl))

pub ask_new-Quiet : (e : Env) (s : Session) → Quiet s (ask_new e s)
unfolding ask_new
ask_new-Quiet e s = go s.password_new s.msg
  where
    go :
        (o m : Option Str)
        → Quiet s (
            let t : Step = elim o [
              | none ↦ elim m [
                | none ↦ (s, some (send (ask_status s)))
                | some m ↦ abort_if_empty m (
                    password_requirements_failed e (record s { password_new = some m; msg = none }))
              ]
              | some p ↦ abort_if_empty p (s, none)
            ] in
            t)
    go (some p) m = abort_if_empty-Quiet s p (s, none) (go_on-Quiet s)
    go none none = stop-Quiet s (send (ask_status s)) (ask_status-ne s)
    go none (some m) = abort_if_empty-Quiet s m _ (requirements-Quiet e s _ (same-Keeps refl refl))

pub ask_again-Quiet : (s : Session) → Quiet s (ask_again s)
unfolding ask_again
ask_again-Quiet s = go s.msg s.password_new
  where
    go :
        (m o : Option Str)
        → Quiet s (
            let t : Step = elim m [
              | none ↦ (s, some (send (ask_status s)))
              | some m ↦ elim o [
                | none ↦ (s, none)
                | some p ↦ (s, (if str_eq m p then none else some (send fail)))
              ]
            ] in
            t)
    go none o = stop-Quiet s (send (ask_status s)) (ask_status-ne s)
    go (some m) none = go_on-Quiet s
    go (some m) (some p) = pick (str_eq m p)
      where
        pick : (b : Bool) → Quiet s (s, (if b then none else some (send fail)))
        pick true = go_on-Quiet s
        pick false = stop-Quiet s (send fail) (λ h. ground arith)

pub query_mavis_chpw-Quiet : (e : Env) (ix : PwIx) (s : Session) → Quiet s (query_mavis_chpw e ix s)
unfolding query_mavis_chpw
query_mavis_chpw-Quiet e ix s = pick (
    not s.flag_mavis_auth
    && ((not e.mavis_login_prefetch && not (is_some s.user)) || (is_some s.user && is_pw_mavis ix)))
  where
    pick :
        (b : Bool)
        → Quiet s (
            if b
            then (
              record s { flag_mavis_auth = true },
              some (mavis_lookup query_chpw fn_chpass pw_login),
            )
            else (s, none))
    pick true = record { no_pass = λ h. ground arith; keeps = same-Keeps refl refl }
    pick false = go_on-Quiet s

pub query_mavis_chpw-user :
    (e : Env) (ix : PwIx) (s : Session) → (query_mavis_chpw e ix s).0.user ≡ s.user
unfolding query_mavis_chpw
query_mavis_chpw-user e ix s = pick (
    not s.flag_mavis_auth
    && ((not e.mavis_login_prefetch && not (is_some s.user)) || (is_some s.user && is_pw_mavis ix)))
  where
    pick :
        (b : Bool)
        → (let t : Step =
              if b
              then (
                record s { flag_mavis_auth = true },
                some (mavis_lookup query_chpw fn_chpass pw_login),
              )
              else (s, none) in
            t.0.user)
          ≡ s.user
    pick true = refl
    pick false = refl

pub take_username-Keeps : (s : Session) → Keeps s (take_username s)
unfolding take_username
take_username-Keeps s = go s.username s.msg
  where
    go :
        (u : Str) (o : Option Str)
        → Keeps s (
            let t : Session = elim u [
              | (c ∷ cs) ↦ s
              | [] ↦ elim o [ none ↦ s | some m ↦ record s { username = m; msg = none } ]
            ] in
            t)
    go [] none = same-Keeps refl refl
    go [] (some m) = same-Keeps refl refl
    go (c ∷ cs) o = same-Keeps refl refl
