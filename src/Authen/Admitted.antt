-- ===== src/Authen/Admitted.antt =====
-- When check_access of authen.c admits a user.
use soteria_tacacs.Prelude.{
  ◌≤◌, ◌<◌, ◌≢◌, not, ◌||◌, ◌≡◌, refl, sym, ap, ◌∙◌, ◌⊎◌, inl, inr, Bool, true, false, Option, none,
  some, arith, if◌then◌else◌, Bool-cases,
}
use mathlib.Core.Path.{subst}
use soteria_tacacs.Authen.{
  Str, Token, s_unknown, s_permit, s_deny, is_permit, is_denied, is_unknown, PwIx, Pwdat, User,
  Session, Env,
}
use soteria_tacacs.Authen.Password.{
  is_expired, compare_pwdat, password_verdict, is_refused, has_no_error, user_verdict, check_user,
  check_access, opened,
}

-- a password of the user fits, or none is asked for
abbrev pub Fitting : Env → Session → Option Str → Type 0
Fitting e r passwd =
    (u : User) × (ix : PwIx) × (r.user ≡ some u)
    × (compare_pwdat e (opened e (u.passwd ix)) r.username passwd ≡ s_permit)

-- The account's time has begun and has not run out; 0 stands for no limit.
pub record InTime (e : Env) (u : User) : Type 0 where
  pub begun : (u.valid_from ≡ 0) ⊎ (u.valid_from ≤ e.now)
  pub not_over : (u.valid_until ≡ 0) ⊎ (e.now < u.valid_until)

-- the scripts of the host do not deny the user, and the rules of the realm permit it
abbrev pub RulesPermit : Env → Session → Type 0
RulesPermit e r =
    (e.author_eval_host r.username r.user r.password ≢ s_deny)
    × (e.eval_ruleset r.username r.user r.password ≡ s_permit)

pub InTime-is_expired : (e : Env) (u : User) → is_expired e u ≡ false → InTime e u
InTime-is_expired e u h = record { begun = ground (arith, h); not_over = ground (arith, h) }

not_denied : (t : Token) → is_denied t ≡ false → t ≢ s_deny
not_denied t h e = let z : is_denied t ≡ true = ap is_denied e in ground (arith, h, z)

permits : (t : Token) → not (is_permit t) ≡ false → t ≡ s_permit
permits t h = ground (arith, h)

pub RulesPermit-is_refused : (e : Env) (s : Session) → is_refused e s ≡ false → RulesPermit e s
RulesPermit-is_refused e s h =
    go (is_denied (e.author_eval_host s.username s.user s.password))
      (not (is_permit (e.eval_ruleset s.username s.user s.password))) refl refl h
  where
    go :
        (x y : Bool)
        → is_denied (e.author_eval_host s.username s.user s.password) ≡ x
        → not (is_permit (e.eval_ruleset s.username s.user s.password)) ≡ y
        → (x || y) ≡ false
        → RulesPermit e s
    go true y d p w = absurd (ground (arith, w))
    go false true d p w = absurd (ground (arith, w))
    go false false d p w = (not_denied _ d, permits _ p)

-- A user may be let in: `s` is the session when the handler was called, `r` the one afterwards.
pub record Admitted (e : Env) (s r : Session) (passwd : Option Str) : Type 0 where
  pub vouched : (s.mavisauth_res ≡ s_permit) ⊎ Fitting e r passwd
  pub in_time : (u : User) → r.user ≡ some u → InTime e u
  pub ruled : (u : User) → r.user ≡ some u → (s.authorized ≡ true) ⊎ RulesPermit e r

-- a stored password belongs to the user
abbrev pub Owned : Env → Option User → Option Pwdat → Type 0
Owned e o pwdat =
    (p : Pwdat)
    → pwdat ≡ some p
    → (u : User) × (ix : PwIx) × (o ≡ some u) × (p ≡ opened e (u.passwd ix))

password_verdict-permit :
    (e : Env) (s : Session) (pwdat : Option Pwdat) (passwd : Option Str)
    → password_verdict e s pwdat passwd ≡ s_permit
    → (s.mavisauth_res ≡ s_permit)
      ⊎ ((p : Pwdat) × (pwdat ≡ some p) × (compare_pwdat e p s.username passwd ≡ s_permit))
password_verdict-permit e s none passwd h = ground arith
password_verdict-permit e s (some p) passwd h = elim (Bool-cases (is_unknown s.mavisauth_res)) [
  | inl z ↦ inr (p, refl, ground arith)
  | inr z ↦ inl (ground arith)
]

user_verdict-permit :
    (x y z : Bool) (t : Token)
    → user_verdict x y z t ≡ s_permit
    → (t ≡ s_permit) × (x ≡ false) × ((y ≡ true) ⊎ (z ≡ false))
user_verdict-permit true y z t h = ground arith
user_verdict-permit false true z t h = (ground arith, refl, inl refl)
user_verdict-permit false false true t h = ground arith
user_verdict-permit false false false t h = (ground arith, refl, inr refl)

abbrev get_some : User → Option User → User
get_some u none = u
get_some u (some v) = v

-- a permission for a known user
check_user-Admitted :
    (e : Env) (s : Session) (pwdat : Option Pwdat) (passwd : Option Str) (u : User)
    → s.user ≡ some u
    → Owned e s.user pwdat
    → let s' = record s { mavisauth_res = s_unknown } in
      (check_user e s' (password_verdict e s pwdat passwd) u).1 ≡ s_permit
      → Admitted e s (check_user e s' (password_verdict e s pwdat passwd) u).0 passwd
check_user-Admitted e s pwdat passwd u eu own h =
    let (v, x, y) =
      user_verdict-permit (is_expired e u) s.authorized (is_refused e s)
        (password_verdict e s pwdat passwd) h in
    rw h record {
      vouched = elim (password_verdict-permit e s pwdat passwd v) [
        | inl w ↦ inl w
        | inr w ↦
            let (u', ix, eu', ep) = own w.0 w.1 in
            inr (u', ix, eu', ap (λ p. compare_pwdat e p s.username passwd) (sym ep) ∙ w.2)
      ];
      in_time =
          λ u' eu'. subst (InTime e) (ap (get_some u) (sym eu ∙ eu')) (InTime-is_expired e u x);
      ruled = λ u' eu'. elim y [ inl z ↦ inl z | inr z ↦ inr (RulesPermit-is_refused e s z) ];
    }

pub check_access-Admitted :
    (e : Env) (s : Session) (pwdat : Option Pwdat) (passwd : Option Str)
    → has_no_error pwdat ≡ true
    → Owned e s.user pwdat
    → (check_access e s pwdat passwd).1 ≡ s_permit
    → Admitted e s (check_access e s pwdat passwd).0 passwd
unfolding check_access
check_access-Admitted e s pwdat passwd ok own h = go s.user refl h
  where
    s' : Session
    s' = record s { mavisauth_res = s_unknown }

    run : Option User → Session × Token
    run o = elim o [
      | none ↦ (s', password_verdict e s pwdat passwd)
      | some u ↦
          if has_no_error pwdat
          then check_user e s' (password_verdict e s pwdat passwd) u
          else (s', password_verdict e s pwdat passwd)
    ]

    go : (o : Option User) → s.user ≡ o → (run o).1 ≡ s_permit → Admitted e s (run o).0 passwd
    go none eo w = record {
      vouched = elim (password_verdict-permit e s pwdat passwd w) [
        | inl v ↦ inl v
        | inr v ↦ let (u, ix, eu, ep) = own v.0 v.1 in absurd (ground arith)
      ];
      in_time = λ u eu. absurd (ground arith);
      ruled = λ u eu. absurd (ground arith);
    }
    go (some u) eo w = rw ok (
        check_user-Admitted e s pwdat passwd u eo own (
          ap
            (λ b.
              (let t : Session × Token =
                  if b
                  then check_user e s' (password_verdict e s pwdat passwd) u
                  else (s', password_verdict e s pwdat passwd) in
                t.1))
            (sym ok)
          ∙ w))
