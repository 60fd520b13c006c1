-- ===== src/Author/AvPairs/Required.antt =====
-- What the server's configuration demands is in force at the device.
use soteria_tacacs.Prelude.{◌≡◌, ◌⊎◌, inl, inr, some, List, ◌++◌}
use soteria_tacacs.Author.AvPairs.{
  Str, Attrs, Server, Answer, clear_all, remaining, with_mandatory, complete, author_args,
}
use soteria_tacacs.Author.AvPairs.Strings.{
  Holds, Has, Holds-clear_all, Has-remaining, Has-append_left, Has-append_right,
}
use soteria_tacacs.Author.AvPairs.Kept.{effective, effective-author_args}

-- An attribute is in the list, or still there after clearing, and then it is added.
Has-with_missing :
    (attrs : Attrs) (out : List Str) (a : Str)
    → Holds a attrs
    → Has a (out ++ remaining (clear_all attrs out))
Has-with_missing attrs out a h = elim (Holds-clear_all attrs out a h) [
  | inl there ↦ Has-append_left out _ a there
  | inr missing ↦ Has-append_right out _ a (Has-remaining (clear_all attrs out) a missing)
]

Has-complete :
    (s : Server) (out : List Str) (a : Str)
    → Holds a s.attrs_m ⊎ Holds a s.attrs_a
    → Has a (complete s out)
unfolding complete with_mandatory
Has-complete s out a (inl m) = Has-append_left _ _ a (Has-with_missing s.attrs_m out a m)
Has-complete s out a (inr h) =
    Has-with_missing s.attrs_a (out ++ remaining (clear_all s.attrs_m out)) a h

-- After a reply that permits, every mandatory attribute of the server, and every one that it adds,
-- is in force at the device.
pub Has-effective :
    (s : Server) (in_args : List Str) (ans : Answer) (a : Str)
    → author_args s in_args ≡ some ans
    → Holds a s.attrs_m ⊎ Holds a s.attrs_a
    → Has a (effective in_args ans)
Has-effective s in_args ans a h held =
    let (r, _, e) = effective-author_args s in_args ans h in rw e (Has-complete s r.out_args a held)
