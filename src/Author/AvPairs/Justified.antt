-- ===== src/Author/AvPairs/Justified.antt =====
-- With a default that is not to permit, nothing is in force that the server did not allow.
use soteria_tacacs.Prelude.{
  ◌≡◌, refl, true, false, Bool-cases, ◌⊎◌, inl, inr, Option, none, some, List, [], ◌∷◌, ◌++◌, arith,
}
use soteria_tacacs.Author.AvPairs.{
  Str, Attrs, Server, Verdict, add, replace, delete, deny, lookup_attrval, lookup_attr,
  mandatory_verdict, optional_verdict, passed_through, is_mandatory, verdict, Output, apply_verdict,
  negotiate, clear_all, remaining, with_mandatory, complete, Answer, author_args,
}
use soteria_tacacs.Author.AvPairs.Strings.{
  Holds, Has, lookup_attrval-Holds, lookup_attr-Holds, clear_all-Holds, remaining-Holds, append-Has,
}
use soteria_tacacs.Author.AvPairs.Kept.{effective, effective-author_args}

-- `a` always passes, or it is an attribute of the server, or the server has an optional attribute
-- of its name and `a` is mandatory for the device.
abbrev pub Justified : Server → Str → Type 0
Justified s a =
    (passed_through a ≡ true)
    ⊎ Holds a s.attrs_m
    ⊎ Holds a s.attrs_o
    ⊎ Holds a s.attrs_a
    ⊎ (is_mandatory a ≡ true) × ((o : Str) × (lookup_attr s.attrs_o a ≡ some o))

apply_verdict-Has :
    (v : Verdict) (rest : Option Output) (r : Output) (a : Str)
    → apply_verdict v rest ≡ some r
    → Has a r.out_args
    → ((v ≡ add a) ⊎ (v ≡ replace a)) ⊎ ((q : Output) × (rest ≡ some q) × Has a q.out_args)
unfolding apply_verdict
apply_verdict-Has (add x) none r a h p = cc
apply_verdict-Has (add x) (some q) r a h p =
    let p' : (a ≡ x) ⊎ Has a q.out_args = ground arith in
    elim p' [ inl e ↦ inl (inl (cc)) | inr t ↦ inr (q, refl, t) ]
apply_verdict-Has (replace x) none r a h p = cc
apply_verdict-Has (replace x) (some q) r a h p =
    let p' : (a ≡ x) ⊎ Has a q.out_args = ground arith in
    elim p' [ inl e ↦ inl (inr (cc)) | inr t ↦ inr (q, refl, t) ]
apply_verdict-Has delete none r a h p = cc
apply_verdict-Has delete (some q) r a h p = inr (q, refl, ground arith)
apply_verdict-Has deny rest r a h p = cc

module _ (s : Server) (d : s.permit_dflt ≡ false) where
  mandatory-Justified :
      (na a : Str)
      → is_mandatory na ≡ true
      → (mandatory_verdict s na ≡ add a) ⊎ (mandatory_verdict s na ≡ replace a)
      → Justified s a
  unfolding mandatory_verdict
  mandatory-Justified na a m h =
      by_lookup (lookup_attrval s.attrs_m na) (lookup_attr s.attrs_o na) refl refl
    where
      by_lookup :
          (x y : Option Str)
          → lookup_attrval s.attrs_m na ≡ x
          → lookup_attr s.attrs_o na ≡ y
          → Justified s a
      by_lookup (some x) y ex ey = inr (inl (lookup_attrval-Holds s.attrs_m na a (ground arith)))
      by_lookup none (some y) ex ey =
          let same : na ≡ a = ground arith in
          inr (inr (inr (inr (ground arith, (y, ground arith)))))
      by_lookup none none ex ey = absurd (ground arith)

  optional-Justified :
      (na a : Str)
      → (optional_verdict s na ≡ add a) ⊎ (optional_verdict s na ≡ replace a)
      → Justified s a
  unfolding optional_verdict
  optional-Justified na a h =
      let held : Holds a s.attrs_m ⊎ Holds a s.attrs_o = ground (
        arith,
        lookup_attrval-Holds s.attrs_m na a,
        lookup_attr-Holds s.attrs_m na a,
        lookup_attrval-Holds s.attrs_o na a,
        lookup_attr-Holds s.attrs_o na a,
      ) in
      elim held [ inl m ↦ inr (inl m) | inr o ↦ inr (inr (inl o)) ]

  verdict-Justified :
      (na a : Str) → (verdict s na ≡ add a) ⊎ (verdict s na ≡ replace a) → Justified s a
  unfolding verdict
  verdict-Justified na a h = elim (Bool-cases (passed_through na)) [
    | inl p ↦ let same : na ≡ a = ground arith in inl (ground arith)
    | inr p ↦ elim (Bool-cases (is_mandatory na)) [
      | inl m ↦ mandatory-Justified na a m (ground arith)
      | inr o ↦ optional-Justified na a (ground arith)
    ]
  ]

  -- What a round puts into the list is justified.
  negotiate-Justified :
      (in_args : List Str) (r : Output)
      → negotiate s in_args ≡ some r
      → (a : Str) → Has a r.out_args
      → Justified s a
  unfolding negotiate
  negotiate-Justified [] r h a p = absurd (ground arith)
  negotiate-Justified (na ∷ args) r h a p =
      elim (apply_verdict-Has (verdict s na) (negotiate s args) r a h p) [
        | inl v ↦ verdict-Justified na a v
        | inr later ↦ negotiate-Justified args later.0 later.1 a later.2
      ]

  added-Justified :
      (attrs : Attrs) (out : List Str) (a : Str)
      → Has a (remaining (clear_all attrs out))
      → Holds a attrs
  added-Justified attrs out a h =
      clear_all-Holds attrs out a (remaining-Holds (clear_all attrs out) a h)

  complete-Justified :
      (out : List Str) (a : Str)
      → (Has a out → Justified s a)
      → Has a (complete s out)
      → Justified s a
  unfolding complete with_mandatory
  complete-Justified out a h p =
      elim (append-Has (out ++ remaining (clear_all s.attrs_m out)) _ a p) [
        | inl q ↦ elim (append-Has out _ a q) [
          | inl own ↦ h own
          | inr m ↦ inr (inl (added-Justified s.attrs_m out a m))
        ]
        | inr x ↦ inr (inr (inr (inl (added-Justified s.attrs_a (with_mandatory s out) a x))))
      ]

-- With a default that is not to permit, whatever is in force at the device after a reply that
-- permits is justified: it always passes, or it is an attribute of the server, or it is mandatory
-- for the device and the server has an optional attribute of its name.
pub effective-Justified :
    (s : Server) (in_args : List Str) (ans : Answer) (a : Str)
    → s.permit_dflt ≡ false
    → author_args s in_args ≡ some ans
    → Has a (effective in_args ans)
    → Justified s a
effective-Justified s in_args ans a d h p =
    let (r, found, e) = effective-author_args s in_args ans h in
    complete-Justified s d r.out_args a (negotiate-Justified s d in_args r found a) (rw e at p)
