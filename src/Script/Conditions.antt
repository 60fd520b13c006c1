-- ===== src/Script/Conditions.antt =====
-- What a condition means, for conditions that call no ACL: then nothing changes while it is
-- evaluated, and stopping early makes no difference.
use soteria_tacacs.Prelude.{
  ℕ, ◌≡◌, refl, Bool, true, false, not, ◌&&◌, ◌||◌, Bool-cases, inl, inr, Option, some,
}
use soteria_tacacs.Script.{
  Engine, State, Ran, Cond, test, acl_permits, negated, all_of, any_of, Conds, end, also, cond_eval,
  all_eval, any_eval, flip, while_true, while_false,
}

abbrev mutual
  -- a condition without ACLs
  pub IsPlain : Cond → Type 0
  IsPlain (test t) = Unit
  IsPlain (acl_permits a) = ⊥
  IsPlain (negated c) = IsPlain c
  IsPlain (all_of cs) = ArePlain cs
  IsPlain (any_of cs) = ArePlain cs

  pub ArePlain : Conds → Type 0
  ArePlain end = Unit
  ArePlain (also c cs) = IsPlain c × ArePlain cs

module _ (e : Engine) (s : State) where
  abbrev mutual
    -- the truth value of a condition, and of all or any of some
    pub truth : Cond → Bool
    truth (test t) = e.holds_in t s
    truth (acl_permits a) = false
    truth (negated c) = not (truth c)
    truth (all_of cs) = all_true cs
    truth (any_of cs) = any_true cs

    pub all_true : Conds → Bool
    all_true end = true
    all_true (also c cs) = truth c && all_true cs

    pub any_true : Conds → Bool
    any_true end = false
    any_true (also c cs) = truth c || any_true cs

  module _ (eval_acl : ℕ → State → Option Ran) where
    mutual
      unfolding cond_eval flip while_true while_false

      cond_eval-go :
          (c : Cond)
          → IsPlain c
          → cond_eval e eval_acl c s ≡ some (record { holds = truth c; state = s })
      cond_eval-go (test t) p = refl
      cond_eval-go (acl_permits a) p = absurd p
      cond_eval-go (negated c) p = rw (cond_eval-go c p) refl
      cond_eval-go (all_of cs) p = all_eval-truth cs p
      cond_eval-go (any_of cs) p = any_eval-truth cs p

      all_eval-truth :
          (cs : Conds)
          → ArePlain cs
          → all_eval e eval_acl cs s ≡ some (record { holds = all_true cs; state = s })
      all_eval-truth end p = refl
      all_eval-truth (also c cs) (p, ps) = rw (cond_eval-go c p) (elim (Bool-cases (truth c)) [
        | inl holds ↦ rw holds (all_eval-truth cs ps)
        | inr fails ↦ rw fails refl
      ])

      any_eval-truth :
          (cs : Conds)
          → ArePlain cs
          → any_eval e eval_acl cs s ≡ some (record { holds = any_true cs; state = s })
      any_eval-truth end p = refl
      any_eval-truth (also c cs) (p, ps) = rw (cond_eval-go c p) (elim (Bool-cases (truth c)) [
        | inl holds ↦ rw holds refl
        | inr fails ↦ rw fails (any_eval-truth cs ps)
      ])

    -- A condition without ACLs evaluates to its truth value, and leaves the session as it is.
    pub cond_eval-truth :
        (c : Cond)
        → IsPlain c
        → cond_eval e eval_acl c s ≡ some (record { holds = truth c; state = s })
    cond_eval-truth c p = cond_eval-go c p
