-- ===== src/Authen/Choosing.antt =====
-- set_pwdat of authen.c chooses a password of the user, and check_access answers for it.
use soteria_tacacs.Prelude.{
  ◌≡◌, refl, sym, ap, ◌∙◌, Bool, true, false, not, ◌&&◌, Option, none, some, arith, if◌then◌else◌,
}
use soteria_tacacs.Authen.{
  Str, Token, sym_to_code, is_error, s_unknown, s_permit, is_permit, fail, PwIx, Pwdat, User,
  Session, Env, pass, send, Step,
}
use soteria_tacacs.Authen.Password.{
  check_access, has_no_error, opened, Chosen, set_pwdat, is_fallback, has_fallback, final_ix,
  fallback_ix,
}
use soteria_tacacs.Authen.Steps.{
  is_refusing, password_requirements_failed, take_password, reply_access,
}
use soteria_tacacs.Authen.Admitted.{Owned, check_access-Admitted}
use soteria_tacacs.Authen.Quiet.{Keeps, same-Keeps, Passes}

opened_error : (e : Env) (p : Pwdat) → is_error p.kind ≡ false → is_error (opened e p).kind ≡ false
opened_error e p h = ground arith

abbrev get_pwdat : Pwdat → Option Pwdat → Pwdat
get_pwdat p none = p
get_pwdat p (some q) = q

-- The stored password that set_pwdat chooses is one of the user's.
pub record Choosing (e : Env) (s : Session) (c : Chosen) : Type 0 where
  pub keeps : Keeps s c.session
  pub same_user : c.session.user ≡ s.user
  pub owned : Owned e s.user c.pwdat
  pub clean : is_refusing s.user c.ix ≡ false → has_no_error c.pwdat ≡ true

pub set_pwdat-Choosing : (e : Env) (s : Session) (ix : PwIx) → Choosing e s (set_pwdat e s ix)
unfolding set_pwdat
set_pwdat-Choosing e s ix = go s.user refl
  where
    chosen : Option User → Chosen
    chosen o = elim o [
      | none ↦ record { session = s; pwdat = none; ix = ix }
      | some u ↦
          let fallen = is_fallback e u && has_fallback ix in
          let final = final_ix u (if fallen then fallback_ix ix else ix) in
          record {
            session = if fallen then record s { mavisauth_res = s_unknown } else s;
            pwdat = some (opened e (u.passwd final));
            ix = final;
          }
    ]

    forget : (b : Bool) → Keeps s (if b then record s { mavisauth_res = s_unknown } else s)
    forget true = record { backend = λ h. ground arith; allowed = refl }
    forget false = same-Keeps refl refl

    stay : (b : Bool) → (if b then record s { mavisauth_res = s_unknown } else s).user ≡ s.user
    stay true = refl
    stay false = refl

    go : (o : Option User) → s.user ≡ o → Choosing e s (chosen o)
    go none eo = record {
      keeps = same-Keeps refl refl;
      same_user = refl;
      owned = λ p h. absurd (ground arith);
      clean = λ h. refl;
    }
    go (some u) eo =
        let fallen = is_fallback e u && has_fallback ix in
        let final = final_ix u (if fallen then fallback_ix ix else ix) in
        record {
          keeps = forget fallen;
          same_user = stay fallen;
          owned = λ p h. (u, final, eo, ap (get_pwdat p) (sym h));
          clean = λ h.
              ap not (opened_error e (u.passwd final) (ap (λ z. is_refusing z final) (sym eo) ∙ h));
        }

pub take_password-user : (e : Env) (s : Session) → (take_password e s).0.user ≡ s.user
unfolding take_password password_requirements_failed
take_password-user e s = go s.msg
  where
    step : Session → Option (Str → Option Str → Option Str → Token) → Step
    step s' p = elim p [
      | none ↦ (s', none)
      | some acl ↦ (
        s',
        (if is_permit (acl s'.username s'.password s'.password_new)
            then none
            else some (send fail)),
      )
    ]

    inner : (s' : Session) (p : Option (Str → Option Str → Option Str → Token)) → (step s' p).0 ≡ s'
    inner s' none = refl
    inner s' (some acl) = refl

    go :
        (o : Option Str)
        → (let t : Step = elim o [
          | none ↦ (s, none)
          | some m ↦ step (record s { password = some m; msg = none }) e.password_acl
        ] in
            t.0.user)
          ≡ s.user
    go none = refl
    go (some m) =
        ap (λ z. z.user) (inner (record s { password = some m; msg = none }) e.password_acl)

-- The reply of check_access: PASS for a user who may be let in.
pub reply_access-Passes :
    (e : Env) (s : Session) (pwdat : Option Pwdat) (pw : Option Str) (passwd : Session → Option Str)
    → has_no_error pwdat ≡ true
    → Owned e s.user pwdat
    → ((check_access e s pwdat pw).1 ≡ s_permit → passwd (check_access e s pwdat pw).0 ≡ pw)
    → Passes e s passwd (reply_access e pwdat pw s)
unfolding reply_access
reply_access-Passes e s pwdat pw passwd ok own same h =
    let permitted : (check_access e s pwdat pw).1 ≡ s_permit =
      code_permit (check_access e s pwdat pw).1 h in
    let admitted = check_access-Admitted e s pwdat pw ok own permitted in
    rw (same permitted) admitted
  where
    code_permit : (t : Token) → send (sym_to_code t) ≡ send pass → t ≡ s_permit
    code_permit t w = ground arith
