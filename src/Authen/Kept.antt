-- ===== src/Authen/Kept.antt =====
-- What check_access of authen.c leaves in a session.
use soteria_tacacs.Prelude.{◌≡◌, refl, Bool, true, false, Option, none, some, if◌then◌else◌}
use soteria_tacacs.Authen.{Str, Token, s_unknown, s_permit, is_permit, Pwdat, User, Session, Env}
use soteria_tacacs.Authen.Password.{
  is_expired, password_verdict, is_refused, has_no_error, user_verdict, note_result, check_user,
  check_access,
}

note_result-password :
    (s : Session) (t : Token)
    → ((t ≡ s_permit → (note_result s t).password ≡ s.password)
        × ((note_result s t).password_new ≡ s.password_new))
note_result-password s t = (λ h. rw h refl, go (is_permit t))
  where
    go :
        (b : Bool)
        → (if b
            then record s { password_bad = none }
            else record s { password_bad = s.password; password = none }).password_new
          ≡ s.password_new
    go true = refl
    go false = refl

-- A user who is admitted keeps the password in the session, and the new one stays in any case.
pub check_access-password :
    (e : Env) (s : Session) (pwdat : Option Pwdat) (passwd : Option Str)
    → (((check_access e s pwdat passwd).1 ≡ s_permit
          → (check_access e s pwdat passwd).0.password ≡ s.password)
        × ((check_access e s pwdat passwd).0.password_new ≡ s.password_new))
unfolding check_access
check_access-password e s pwdat passwd = go s.user
  where
    s' : Session
    s' = record s { mavisauth_res = s_unknown }

    v : Token
    v = password_verdict e s pwdat passwd

    pick :
        (u : User) (b : Bool)
        → let t : Session × Token = if b then check_user e s' v u else (s', v) in
          ((t.1 ≡ s_permit → t.0.password ≡ s.password) × (t.0.password_new ≡ s.password_new))
    pick u true =
        note_result-password s' (user_verdict (is_expired e u) s.authorized (is_refused e s) v)
    pick u false = (λ h. refl, refl)

    go :
        (o : Option User)
        → let t : Session × Token = elim o [
          | none ↦ (s', v)
          | some u ↦ if has_no_error pwdat then check_user e s' v u else (s', v)
        ] in
          ((t.1 ≡ s_permit → t.0.password ≡ s.password) × (t.0.password_new ≡ s.password_new))
    go none = (λ h. refl, refl)
    go (some u) = pick u (has_no_error pwdat)

-- check_access leaves the user and the data of the packet alone.
pub check_access-kept :
    (e : Env) (s : Session) (pwdat : Option Pwdat) (passwd : Option Str)
    → let r = (check_access e s pwdat passwd).0 in (r.user ≡ s.user) × (r.data_field ≡ s.data_field)
unfolding check_access
check_access-kept e s pwdat passwd = go s.user
  where
    s' : Session
    s' = record s { mavisauth_res = s_unknown }

    v : Token
    v = password_verdict e s pwdat passwd

    Same : Session → Type 0
    Same r = (r.user ≡ s.user) × (r.data_field ≡ s.data_field)

    note :
        (b : Bool)
        → Same (
            if b
            then record s' { password_bad = none }
            else record s' { password_bad = s.password; password = none })
    note true = (refl, refl)
    note false = (refl, refl)

    pick :
        (u : User) (b : Bool)
        → (let t : Session × Token = if b then check_user e s' v u else (s', v) in Same t.0)
    pick u true = note (is_permit (user_verdict (is_expired e u) s.authorized (is_refused e s) v))
    pick u false = (refl, refl)

    go :
        (o : Option User)
        → (let t : Session × Token = elim o [
          | none ↦ (s', v)
          | some u ↦ if has_no_error pwdat then check_user e s' v u else (s', v)
        ] in
            Same t.0)
    go none = (refl, refl)
    go (some u) = pick u (has_no_error pwdat)
