-- ===== src/Authen/Compare.antt =====
-- Which passwords compare_pwdat of authen.c takes for right.
use soteria_tacacs.Prelude.{
  str_eq_self, ◌↔◌, str_eq→eq, ◌≡◌, refl, ◌↔◌, ◌⊎◌, inl, inr, Bool, true, false, Option, none, some,
  arith, Bool-cases,
}
use soteria_tacacs.Authen.{
  is_cleartext, s_clear, s_crypt, s_pbkdf2, s_4, s_8, s_9, s_asa, Str, Token, s_permit, is_permit,
  Pwdat, Env,
}
use soteria_tacacs.Authen.Password.{compare_pwdat}

-- the types of passwords that compare_pwdat compares by a digest
abbrev pub is_digest : Token → Bool
is_digest s_crypt = true
is_digest s_pbkdf2 = true
is_digest s_4 = true
is_digest s_8 = true
is_digest s_9 = true
is_digest s_asa = true
is_digest _ = false

-- compare_pwdat permits exactly in three cases: the stored password lets everybody in; it is in
-- clear text and the same as the one given; or it is a digest of the one given. Without a password
-- only the first is possible.
pub compare_pwdat-permit_iff :
    (e : Env) (p : Pwdat) (username : Str) (b : Option Str)
    → (compare_pwdat e p username b ≡ s_permit) ↔ (
        (p.kind ≡ s_permit)
        ⊎ ((c : Str) × (b ≡ some c)
            × (((p.kind ≡ s_clear) × (p.value ≡ c))
                ⊎ ((is_digest p.kind ≡ true) × (e.verify p.kind p.value c username ≡ true)))))
unfolding compare_pwdat
compare_pwdat-permit_iff e p username b = (forward b, backward)
  where
    Permitting : Option Str → Type 0
    Permitting b =
        (p.kind ≡ s_permit)
        ⊎ ((c : Str) × (b ≡ some c)
            × (((p.kind ≡ s_clear) × (p.value ≡ c))
                ⊎ ((is_digest p.kind ≡ true) × (e.verify p.kind p.value c username ≡ true))))

    forward : (b : Option Str) → compare_pwdat e p username b ≡ s_permit → Permitting b
    forward none h = inl (ground arith)
    forward (some c) h = elim (Bool-cases (is_permit p.kind)) [
      | inl x ↦ inl (ground arith)
      | inr x ↦ elim (Bool-cases (is_cleartext p.kind)) [
        | inl y ↦ inr (c, refl, inl (ground arith, str_eq→eq p.value c (ground arith)))
        | inr y ↦ inr (c, refl, inr (ground arith, ground arith))
      ]
    ]

    backward : Permitting b → compare_pwdat e p username b ≡ s_permit
    backward (inl k) = rw k refl
    backward (inr (c, eb, inl (k, v))) = rw (eb, k, v, str_eq_self c) refl
    backward (inr (c, eb, inr (k, v))) = rw eb (ground arith)
