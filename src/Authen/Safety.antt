-- ===== src/Authen/Safety.antt =====
-- authen of authen.c, over all its handlers, sends PASS only on grounds.
use soteria_tacacs.Prelude.{
  ℕ, ◌≡◌, refl, inl, inr, Bool, true, false, ◌&&◌, Option, none, some, List, arith, ◌==◌,
  if◌then◌else◌, has,
}
use soteria_tacacs.Protocol.{byte_at}
use soteria_tacacs.Authen.{
  AuthFn, fn_login, fn_pap, fn_chap, fn_ascii_login, fn_chpass, fn_sshkeyhash, fn_enable,
  fn_enable_login, fn_enable_getuser, fn_enable_augmented, Session, Env, pass, send, send_error,
  cleanup, Done,
}
use soteria_tacacs.Authen.Steps.{is_empty}
use soteria_tacacs.Authen.Start.{
  Choice, choose_authfn, run_authfn, read_start, read_cont, authen_start, authen_cont, authen,
  Event, packet, mavis_answer, run_event, continue_flag_abort,
}
use soteria_tacacs.Authen.Quiet.{Keeps, same-Keeps}
use soteria_tacacs.Authen.Safe.{do_login-Passes, do_pap-Passes}
use soteria_tacacs.Authen.Changing.{do_chpass-Passes, Either, Lets}
use soteria_tacacs.Authen.AsciiLogin.{do_ascii_login-Lets}
use soteria_tacacs.Authen.Privilege.{Enabled, do_enable_login-Lets}
use soteria_tacacs.Authen.Enabling.{do_enable_augmented-Lets}
use soteria_tacacs.Authen.Getuser.{do_enable_getuser-Lets, do_enable-Lets}
use soteria_tacacs.Authen.Grounds.{
  by_password, by_new_password, by_enable_password, Grounds, Grounds-Keeps,
}
use soteria_tacacs.Authen.Network.{do_chap-Lets, do_sshkeyhash-Lets}

-- the outcome of an enable dialog
enabled : {e : Env} {s r : Session} → Enabled e s r → Grounds e s r
enabled (inl a) = by_password a
enabled (inr (p, h, c)) = by_enable_password p h c

-- the outcome of a login dialog
either : {e : Env} {s r : Session} → Either e s r → Grounds e s r
either (inl a) = by_password a
either (inr a) = by_new_password a

read_start-Keeps : (c : Choice) (p : List ℕ) (s : Session) → Keeps s (read_start c p s)
unfolding read_start
read_start-Keeps c p s = same-Keeps refl refl

read_cont-Keeps : (p : List ℕ) (s : Session) → Keeps s (read_cont p s)
unfolding read_cont
read_cont-Keeps p s = same-Keeps refl refl

run_authfn-Lets : (f : AuthFn) (e : Env) (s : Session) → Lets (Grounds e) s (run_authfn f e s)
unfolding run_authfn
run_authfn-Lets fn_login e s = λ h. by_password (do_login-Passes e s h)
run_authfn-Lets fn_pap e s = λ h. by_password (do_pap-Passes e s h)
run_authfn-Lets fn_chap e s = do_chap-Lets e s
run_authfn-Lets fn_ascii_login e s = λ h. either (do_ascii_login-Lets e s h)
run_authfn-Lets fn_chpass e s = λ h. by_new_password (do_chpass-Passes e s h)
run_authfn-Lets fn_sshkeyhash e s = do_sshkeyhash-Lets e s
run_authfn-Lets fn_enable e s = λ h. enabled (do_enable-Lets e s h)
run_authfn-Lets fn_enable_login e s = λ h. enabled (do_enable_login-Lets e s h)
run_authfn-Lets fn_enable_getuser e s = λ h. enabled (do_enable_getuser-Lets e s h)
run_authfn-Lets fn_enable_augmented e s = λ h. enabled (do_enable_augmented-Lets e s h)

authen_start-Lets :
    (e : Env) (version : ℕ) (p : List ℕ) (s : Session)
    → Lets (Grounds e) s (authen_start e version p s)
unfolding authen_start
authen_start-Lets e version p s = go (choose_authfn e version p)
  where
    picked :
        (c : Choice) (t : Session) (a b : Bool)
        → Keeps s t
        → Lets
            (Grounds e)
            s
            (if a then (t, send_error) else if b then (t, send_error) else run_authfn c.authfn e t)
    picked c t true b k = λ h. absurd (ground arith)
    picked c t false true k = λ h. absurd (ground arith)
    picked c t false false k = λ h. Grounds-Keeps k (run_authfn-Lets c.authfn e t h)

    go :
        (o : Option Choice)
        → Lets (Grounds e) s (
            let d : Done = elim o [
              | none ↦ (s, send_error)
              | some c ↦
                  let t = read_start c p s in
                  if has t.priv_lvl 0xf0
                  then (t, send_error)
                  else if c.username_required && is_empty t.username
                  then (t, send_error)
                  else run_authfn c.authfn e t
            ] in
            d)
    go none = λ h. absurd (ground arith)
    go (some c) =
        let t = read_start c p s in
        picked c t (has t.priv_lvl 0xf0) (c.username_required && is_empty t.username)
          (read_start-Keeps c p s)

authen_cont-Lets : (e : Env) (p : List ℕ) (s : Session) → Lets (Grounds e) s (authen_cont e p s)
unfolding authen_cont
authen_cont-Lets e p s = go (has (byte_at p 4) continue_flag_abort)
  where
    t : Session
    t = read_cont p s

    run :
        (o : Option AuthFn)
        → Lets
            (Grounds e)
            s
            (let d : Done = elim o [ none ↦ (t, send_error) | some f ↦ run_authfn f e t ] in d)
    run none = λ h. absurd (ground arith)
    run (some f) = λ h. Grounds-Keeps (read_cont-Keeps p s) (run_authfn-Lets f e t h)

    go :
        (b : Bool)
        → Lets (Grounds e) s (
            let d : Done =
              if b
              then (s, cleanup)
              else elim t.authfn [ none ↦ (t, send_error) | some f ↦ run_authfn f e t ] in
            d)
    go true = λ h. absurd (ground arith)
    go false = run t.authfn

-- Whether it is a START or CONTINUE packet or an answer of the MAVIS backend that the daemon goes on
-- from, and whatever the packet, the session at that time and the configuration are: if it sends a
-- reply PASS, there are grounds for it. Either the verdict of the backend stands in the session as a
-- permission, or a password of the session's user fits the one given (or the new one in a change of
-- the password); and in both cases, if the session has a user of its own after that, the user's time
-- has begun and is not over, and the session was marked as authorized before, or the scripts of the
-- host do not deny the user and the rules of the realm permit it. Or the enable password fits the
-- message. Or the response to a challenge is the digest with the password of the user in clear text,
-- or the hash of a key is one of the user's, with the same conditions on time and rules. Without a
-- user in the session, the backend's permission is the only ground besides the enable password.
pub authen-Grounds :
    (e : Env) (event : Event) (s : Session)
    → (run_event e event s).1 ≡ send pass
    → Grounds e s (run_event e event s).0
unfolding run_event authen
authen-Grounds e (mavis_answer mavisfn) s = run_authfn-Lets mavisfn e s
authen-Grounds e (packet seq_no version p) s = go (seq_no == 1)
  where
    go :
        (b : Bool)
        → Lets (Grounds e) s (if b then authen_start e version p s else authen_cont e p s)
    go true = authen_start-Lets e version p s
    go false = authen_cont-Lets e p s
