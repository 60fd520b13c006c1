-- ===== src/Author/AvPairs/Kept.antt =====
-- What the device ends up with: the whole list of a replacement, or its own arguments with the
-- additions. Both are the list that `do_author` has built, and that fits its buffer.
use soteria_tacacs.Prelude.{
  suc, ◌+◌, ◌≤◌, ◌≡◌, ap, ◌∙◌, refl, Option, none, some, List, [], ◌∷◌, ◌++◌, append_assoc, length,
  length-append, drop, drop-length, arith, if◌then◌else◌, ◌!=◌,
}
use native.Mathlib.Decide.{ℕ_discrete}
use soteria_tacacs.Author.AvPairs.{
  Str, Server, Verdict, add, replace, delete, deny, mandatory_verdict, optional_verdict, verdict,
  Output, apply_verdict, negotiate, clear_all, remaining, with_mandatory, complete, pass_add,
  pass_repl, Answer, answer, answer?, author_args,
}
use soteria_tacacs.Author.AvPairs.Strings.{lookup_attrval-eq, length-clear_all, length-remaining}

-- What is added unchanged is the device's own argument.
verdict-add : (s : Server) (na a : Str) → verdict s na ≡ add a → a ≡ na
unfolding verdict mandatory_verdict optional_verdict
verdict-add s na a h = ground (arith, lookup_attrval-eq s.attrs_m na a)

-- The two ways in which the loop goes on.
apply_verdict_inv :
    (v : Verdict) (na : Str) (rest : Option Output) (r : Output)
    → ((a : Str) → v ≡ add a → a ≡ na)
    → apply_verdict v rest ≡ some r
    → (q : Output) × (rest ≡ some q)
      × (r.replaced ≡ 0 → (q.replaced ≡ 0) × (r.out_args ≡ na ∷ q.out_args))
      × (length r.out_args ≤ suc (length q.out_args))
unfolding apply_verdict
apply_verdict_inv (add a) na none r e h = cc
apply_verdict_inv (add a) na (some q) r e h =
    let same : a ≡ na = e a refl in (q, refl, ground arith, ground arith)
apply_verdict_inv (replace a) na none r e h = cc
apply_verdict_inv (replace a) na (some q) r e h = (q, refl, ground arith, ground arith)
apply_verdict_inv delete na none r e h = cc
apply_verdict_inv delete na (some q) r e h = (q, refl, ground arith, ground arith)
apply_verdict_inv deny na rest r e h = cc

-- With nothing replaced or deleted, the list is the device's own.
negotiate_unchanged :
    (s : Server) (in_args : List Str) (r : Output)
    → negotiate s in_args ≡ some r
    → r.replaced ≡ 0
    → r.out_args ≡ in_args
unfolding negotiate
negotiate_unchanged s [] r h z = ground arith
negotiate_unchanged s (na ∷ args) r h z =
    let (q, found, same, _) =
      apply_verdict_inv (verdict s na) na (negotiate s args) r (verdict-add s na) h in
    let (qz, out) = same z in out ∙ ap (◌∷◌ na) (negotiate_unchanged s args q found qz)

length-negotiate :
    (s : Server) (in_args : List Str) (r : Output)
    → negotiate s in_args ≡ some r
    → length r.out_args ≤ length in_args
unfolding negotiate
length-negotiate s [] r h = ground arith
length-negotiate s (na ∷ args) r h =
    let (q, found, _, bound) =
      apply_verdict_inv (verdict s na) na (negotiate s args) r (verdict-add s na) h in
    omega (arith, bound, length-negotiate s args q found)

-- The arguments that are in force at the device, which sent `in_args`: RFC 8907, section 6.2.
abbrev pub effective : List Str → Answer → List Str
effective in_args a = elim a.status [ pass_repl ↦ a.args | pass_add ↦ in_args ++ a.args ]

complete_regroup :
    (s : Server) (out : List Str) → (more : List Str) × (complete s out ≡ out ++ more)
unfolding complete with_mandatory
complete_regroup s out =
    let missing = remaining (clear_all s.attrs_m out) in
    let out' = out ++ missing in
    (
      missing ++ remaining (clear_all s.attrs_a out'),
      append_assoc out missing (remaining (clear_all s.attrs_a out')),
    )

-- Leaving out the device's own arguments loses nothing.
additions :
    (out more : List Str)
    → out ++ (if length (out ++ more) != length out then drop (length out) (out ++ more) else [])
      ≡ out ++ more
additions out [] = rw drop-length (ground arith)
additions out (x ∷ more) = rw drop-length (ground (arith, length-append out (x ∷ more)))

additions_of :
    (in_args out more all : List Str)
    → out ≡ in_args
    → all ≡ out ++ more
    → in_args ++ (if length all != length out then drop (length in_args) all else []) ≡ all
additions_of in_args out more all p e = rw (← p) (rw e (additions out more))

effective-answer :
    (s : Server) (in_args : List Str) (r : Output)
    → negotiate s in_args ≡ some r
    → effective in_args (answer s in_args r) ≡ complete s r.out_args
unfolding answer
effective-answer s in_args r h = elim (ℕ_discrete r.replaced 0) [
  | yes z ↦
      let (more, e) = complete_regroup s r.out_args in
      let same = negotiate_unchanged s in_args r h z in
      ground (arith, additions_of in_args r.out_args more (complete s r.out_args) same e)
  | no nz ↦ ground arith
]

of_answer? :
    (s : Server) (in_args : List Str) (a : Answer) (o : Option Output)
    → negotiate s in_args ≡ o
    → answer? s in_args o ≡ some a
    → (r : Output) × (negotiate s in_args ≡ some r) × (effective in_args a ≡ complete s r.out_args)
of_answer? s in_args a none found h = cc
of_answer? s in_args a (some r) found h = (r, found, ground (arith, effective-answer s in_args r))

-- What is in force at the device after a reply that permits, a replacement or additions, is the
-- whole list that the server has built.
pub effective-author_args :
    (s : Server) (in_args : List Str) (a : Answer)
    → author_args s in_args ≡ some a
    → (r : Output) × (negotiate s in_args ≡ some r) × (effective in_args a ≡ complete s r.out_args)
unfolding author_args
effective-author_args s in_args a h = of_answer? s in_args a (negotiate s in_args) refl h

-- The list that `do_author` builds fits the buffer that it allocates for it.
pub complete_fits :
    (s : Server) (in_args : List Str) (r : Output)
    → negotiate s in_args ≡ some r
    → length (complete s r.out_args) ≤ length in_args + length s.attrs_m + length s.attrs_a
unfolding complete with_mandatory
complete_fits s in_args r h =
    let missing = remaining (clear_all s.attrs_m r.out_args) in
    let out' = r.out_args ++ missing in
    omega (
      arith,
      length-negotiate s in_args r h,
      length-append r.out_args missing,
      length-append out' (remaining (clear_all s.attrs_a out')),
      length-remaining (clear_all s.attrs_m r.out_args),
      length-remaining (clear_all s.attrs_a out'),
      length-clear_all s.attrs_m r.out_args,
      length-clear_all s.attrs_a out',
    )
