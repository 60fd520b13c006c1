-- ===== src/Authen/Changing.antt =====
-- The end of do_chpass of authen.c: who has changed the password is let in with the new one.
use soteria_tacacs.Prelude.{
  ◌≡◌, refl, sym, ap, ◌∙◌, ◌⊎◌, inl, inr, true, false, Option, none, some, arith, if◌then◌else◌,
  Bool-cases,
}
use soteria_tacacs.Authen.{
  Str, Token, is_permit, s_permit, fn_chpass, pw_login, Pwdat, Session, Env, pass, getuser, send,
  Done, Step, guard,
}
use soteria_tacacs.Authen.Password.{check_access, has_no_error, Chosen, set_pwdat}
use soteria_tacacs.Authen.Steps.{
  is_empty, is_refusing, refuse_tac_session, set_tac_user, query_mavis_info_login, take_username,
}
use soteria_tacacs.Authen.Ascii.{
  ask_old, ask_new, ask_again, query_mavis_chpw, reply_chpass, do_chpass,
}
use soteria_tacacs.Authen.Admitted.{Admitted, Owned, check_access-Admitted}
use soteria_tacacs.Authen.Kept.{check_access-password}
use soteria_tacacs.Authen.Quiet.{
  Keeps, Passes, Quiet, guard-Passes, Admitted-Keeps, set_tac_user-Quiet, refuse_tac_session-Quiet,
  query_mavis_info_login-Quiet,
}
use soteria_tacacs.Authen.Choosing.{Choosing, set_pwdat-Choosing}
use soteria_tacacs.Authen.Safe.{not_refused, refused_same}
use soteria_tacacs.Authen.Dialog.{
  ask_old-Quiet, ask_new-Quiet, ask_again-Quiet, query_mavis_chpw-Quiet, query_mavis_chpw-user,
  take_username-Keeps,
}

-- the new password
abbrev pub changed : Session → Option Str
changed r = r.password_new

pub permit_of : (t : Token) → is_permit t ≡ true → t ≡ s_permit
permit_of t h = ground arith

reply_chpass-Passes :
    (e : Env) (s : Session) (pwdat : Option Pwdat)
    → has_no_error pwdat ≡ true
    → Owned e s.user pwdat
    → Passes e s changed (reply_chpass e pwdat s)
unfolding reply_chpass
reply_chpass-Passes e s pwdat ok own =
    elim (Bool-cases (is_permit (check_access e s pwdat s.password_new).1)) [
      | inl z ↦
          rw z (λ h. go (check_access-Admitted e s pwdat s.password_new ok own (permit_of _ z)))
      | inr z ↦ rw z (λ h. absurd (ground arith))
    ]
  where
    r : Session
    r = (check_access e s pwdat s.password_new).0

    go :
        Admitted e s r s.password_new
        → Admitted e s (record r { passwd_mustchange = false }) r.password_new
    go a =
        rw (check_access-password e s pwdat s.password_new).1
          record { vouched = a.vouched; in_time = a.in_time; ruled = a.ruled }

chpass_tail-Passes :
    (e : Env) (s : Session) (c : Chosen)
    → Choosing e s c
    → Passes e s changed (
        guard
          (refuse_tac_session c.session c.ix)
          λ t. guard (query_mavis_chpw e c.ix t) λ t. reply_chpass e c.pwdat t)
chpass_tail-Passes e s c ch h = Admitted-Keeps ch.keeps (inner h)
  where
    q : Step
    q = query_mavis_chpw e c.ix c.session

    inner : Passes e c.session changed (
        guard
          (refuse_tac_session c.session c.ix)
          λ t. guard (query_mavis_chpw e c.ix t) λ t. reply_chpass e c.pwdat t)
    inner =
        guard-Passes changed (refuse_tac_session c.session c.ix) _
          (refuse_tac_session-Quiet c.session c.ix)
          λ n. rw (refused_same c.session c.ix) (
            guard-Passes changed q _ (query_mavis_chpw-Quiet e c.ix c.session) λ _.
              reply_chpass-Passes e q.0 c.pwdat
                (ch.clean
                  (ap (λ o. is_refusing o c.ix) (sym ch.same_user) ∙ not_refused c.session c.ix n))
                (rw (query_mavis_chpw-user e c.ix c.session, ch.same_user) ch.owned))

pub do_chpass-Passes : (e : Env) (s : Session) → Passes e s changed (do_chpass e s)
unfolding do_chpass
do_chpass-Passes e s h = Admitted-Keeps (take_username-Keeps s) (go (take_username s) h)
  where
    go :
        (t : Session)
        → Passes e t changed (
            if is_empty t.username
            then (t, send getuser)
            else guard (ask_old e t) λ s. guard (ask_new e s) λ s. guard (ask_again s) λ s.
              guard (set_tac_user e s) λ s. guard (query_mavis_info_login e fn_chpass s) λ s.
                let c = set_pwdat e s pw_login in
                guard
                  (refuse_tac_session c.session c.ix)
                  λ s. guard (query_mavis_chpw e c.ix s) λ s. reply_chpass e c.pwdat s)
    go t = elim (Bool-cases (is_empty t.username)) [
      | inl z ↦ rw z (λ h. absurd (ground arith))
      | inr z ↦ rw z (
          guard-Passes changed (ask_old e t) _ (ask_old-Quiet e t) λ _.
            guard-Passes changed (ask_new e _) _ (ask_new-Quiet e _) λ _.
              guard-Passes changed (ask_again _) _ (ask_again-Quiet _) λ _.
                guard-Passes changed (set_tac_user e _) _ (set_tac_user-Quiet e _) λ _.
                  guard-Passes changed (query_mavis_info_login e fn_chpass _) _
                    (query_mavis_info_login-Quiet e fn_chpass _)
                    λ _. chpass_tail-Passes e _ _ (set_pwdat-Choosing e _ pw_login))
    ]

-- The user has given the password, or a new one: an expired password is changed in the dialog.
abbrev pub Either : Env → Session → Session → Type 0
Either e s r = Admitted e s r r.password ⊎ Admitted e s r r.password_new

pub Either-Keeps : {e : Env} {s s' r : Session} → Keeps s s' → Either e s' r → Either e s r
Either-Keeps k (inl a) = inl (Admitted-Keeps k a)
Either-Keeps k (inr a) = inr (Admitted-Keeps k a)

abbrev pub Lets : (Session → Session → Type 0) → Session → Done → Type 0
Lets P s d = d.1 ≡ send pass → P s d.0

pub guard-Lets :
    (P : Session → Session → Type 0) {s : Session} (m : Step) (k : Session → Done)
    → ((s' r : Session) → Keeps s s' → P s' r → P s r)
    → Quiet s m
    → (m.1 ≡ none → Lets P m.0 (k m.0))
    → Lets P s (guard m k)
guard-Lets P (s', some a) k anti q h z = absurd (q.no_pass (ap some z))
guard-Lets P (s', none) k anti q h z = anti s' (k s').0 q.keeps (h refl z)
