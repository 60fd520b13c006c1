-- ===== src/Author/AvPairs/Denied.antt =====
-- When the pairs of a request deny it.
use soteria_tacacs.Prelude.{◌≡◌, true, false, ◌⊎◌, ◌↔◌, Option, none, some, List, [], ◌∷◌, arith}
use soteria_tacacs.Author.AvPairs.{
  Str, Server, Verdict, deny, add, replace, delete, lookup_attrval, lookup_attr, mandatory_verdict,
  optional_verdict, passed_through, is_mandatory, verdict, Output, apply_verdict, negotiate,
  answer?, author_args,
}

-- The argument does not always pass, is mandatory for the device, has no exact match among the
-- server's mandatory attributes and no match by name among its optional ones.
abbrev pub Unmatched : Server → Str → Type 0
Unmatched s na =
    (passed_through na ≡ false)
    × (is_mandatory na ≡ true)
    × (lookup_attrval s.attrs_m na ≡ none)
    × (lookup_attr s.attrs_o na ≡ none)

abbrev pub SomeUnmatched : Server → List Str → Type 0
SomeUnmatched s [] = ⊥
SomeUnmatched s (na ∷ args) = Unmatched s na ⊎ SomeUnmatched s args

module _ (s : Server) (d : s.permit_dflt ≡ false) where
  verdict-deny : (na : Str) → (verdict s na ≡ deny) ↔ Unmatched s na
  unfolding verdict mandatory_verdict optional_verdict
  verdict-deny na = (λ h. ground arith, λ h. ground arith)

  apply_verdict-none :
      (v : Verdict) (rest : Option Output)
      → (apply_verdict v rest ≡ none) ↔ ((v ≡ deny) ⊎ (rest ≡ none))
  unfolding apply_verdict
  apply_verdict-none (add a) none = ground arith
  apply_verdict-none (add a) (some r) = ground arith
  apply_verdict-none (replace a) none = ground arith
  apply_verdict-none (replace a) (some r) = ground arith
  apply_verdict-none delete none = ground arith
  apply_verdict-none delete (some r) = ground arith
  apply_verdict-none deny rest = ground arith

  negotiate-none : (in_args : List Str) → (negotiate s in_args ≡ none) ↔ SomeUnmatched s in_args
  unfolding negotiate
  negotiate-none [] = ground arith
  negotiate-none (na ∷ args) = ground (
    arith,
    apply_verdict-none (verdict s na) (negotiate s args),
    verdict-deny na,
    negotiate-none args,
  )

answer?-none :
    (s : Server) (in_args : List Str) (o : Option Output)
    → (answer? s in_args o ≡ none) ↔ (o ≡ none)
answer?-none s in_args none = ground arith
answer?-none s in_args (some r) = ground arith

-- With a default that is not to permit, the pairs deny a request exactly when one of its arguments
-- is mandatory, does not always pass, and has neither an equal among the mandatory attributes nor
-- an optional attribute of its name.
pub author_args_denied_iff :
    (s : Server) (in_args : List Str)
    → s.permit_dflt ≡ false
    → (author_args s in_args ≡ none) ↔ SomeUnmatched s in_args
unfolding author_args
author_args_denied_iff s in_args d =
    let e = answer?-none s in_args (negotiate s in_args) in
    let n = negotiate-none s d in_args in (λ h. n.0 (e.0 h), λ h. e.1 (n.1 h))
