-- ===== src/Authen/Grounds.antt =====
-- The grounds on which authen of authen.c sends PASS.
use soteria_tacacs.Prelude.{
  ◌≡◌, refl, sym, ◌∙◌, ◌⊎◌, inl, inr, Bool, true, false, ◌&&◌, some, arith, if◌then◌else◌,
}
use soteria_tacacs.Authen.{
  Str, Token, sym_to_code, is_cleartext, s_permit, s_deny, pw_chap, Pwdat, User, Session, Env, pass,
  send,
}
use soteria_tacacs.Authen.Password.{is_expired, user_expiry_check, compare_pwdat}
use soteria_tacacs.Authen.Steps.{c_str}
use soteria_tacacs.Authen.Logins.{chap_matches}
use soteria_tacacs.Authen.Admitted.{Admitted, InTime, RulesPermit, InTime-is_expired}
use soteria_tacacs.Authen.Quiet.{Keeps, Admitted-Keeps}

-- the user may log in at this time, and the rules permit it
pub record Cleared (e : Env) (s r : Session) (u : User) : Type 0 where
  pub known : r.user ≡ some u
  pub in_time : InTime e u
  pub ruled : (s.authorized ≡ true) ⊎ RulesPermit e r

-- Why a reply says PASS: `s` is the session before the packet, `r` the one after it.
pub data Grounds (e : Env) (s r : Session) : Type 0 where
  by_password : Admitted e s r r.password → Grounds e s r
  by_new_password : Admitted e s r r.password_new → Grounds e s r
  by_enable_password :
      (p : Pwdat)
      → r.enable ≡ some p
      → compare_pwdat e p r.username r.msg ≡ s_permit
      → Grounds e s r
  by_chap :
      (u : User) (content : Str)
      → Cleared e s r u
      → r.data_field ≡ some content
      → (is_cleartext (u.passwd pw_chap).kind && chap_matches e (u.passwd pw_chap).value content)
        ≡ true
      → Grounds e s r
  by_key :
      (u : User) (hash : Str)
      → Cleared e s r u
      → r.data_field ≡ some hash
      → e.validate_ssh_hash r.user (c_str hash) ≡ s_permit
      → Grounds e s r

Cleared-Keeps :
    {e : Env} {s s' r : Session} {u : User} → Keeps s s' → Cleared e s' r u → Cleared e s r u
Cleared-Keeps k c = record {
  known = c.known;
  in_time = c.in_time;
  ruled = elim c.ruled [ inl z ↦ inl (sym k.allowed ∙ z) | inr f ↦ inr f ];
}

pub Grounds-Keeps : {e : Env} {s s' r : Session} → Keeps s s' → Grounds e s' r → Grounds e s r
Grounds-Keeps k (by_password a) = by_password (Admitted-Keeps k a)
Grounds-Keeps k (by_new_password a) = by_new_password (Admitted-Keeps k a)
Grounds-Keeps k (by_enable_password p h c) = by_enable_password p h c
Grounds-Keeps k (by_chap u content c h m) = by_chap u content (Cleared-Keeps k c) h m
Grounds-Keeps k (by_key u hash c h m) = by_key u hash (Cleared-Keeps k c) h m

pub anti : (e : Env) (s s' r : Session) → Keeps s s' → Grounds e s' r → Grounds e s r
anti e s s' r k g = Grounds-Keeps k g

pub expiry-permit :
    (e : Env) (res : Token) (u : User)
    → user_expiry_check e res u ≡ s_permit
    → (res ≡ s_permit) × InTime e u
expiry-permit e res u h = go (is_expired e u) refl h
  where
    go :
        (b : Bool)
        → is_expired e u ≡ b
        → (if b then s_deny else res) ≡ s_permit
        → (res ≡ s_permit) × InTime e u
    go true x w = ground arith
    go false x w = (w, InTime-is_expired e u x)

pub code_permit : (t : Token) → send (sym_to_code t) ≡ send pass → t ≡ s_permit
code_permit t w = ground arith
