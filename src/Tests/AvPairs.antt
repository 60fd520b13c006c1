-- ===== src/Tests/AvPairs.antt =====
-- The negotiation of attribute-value pairs.
use soteria_tacacs.Prelude.{◌≡◌, ◌↔◌, refl, false, none, some, List, [], ◌∷◌, codes, inl, inr}
use soteria_tacacs.Author.AvPairs.{
  Str, Server, Output, Answer, pass_repl, negotiate, complete, author_args, answer, verdict,
  passed_through, is_mandatory, optional_verdict, lookup_attrval, lookup_attr, apply_verdict,
}
use soteria_tacacs.Author.AvPairs.Strings.{Has}
use soteria_tacacs.Author.AvPairs.Kept.{effective, effective-author_args}
use soteria_tacacs.Author.AvPairs.Required.{Has-effective}
use soteria_tacacs.Author.AvPairs.Justified.{Justified, effective-Justified}
use soteria_tacacs.Author.AvPairs.Denied.{SomeUnmatched, author_args_denied_iff}

abbrev server : Server
server = record {
  attrs_m = some (codes "priv-lvl=15") ∷ [];
  attrs_o = some (codes "timeout*5") ∷ [];
  attrs_a = [];
  permit_dflt = false;
}

-- The device asks for a service, and offers an attribute that the server does not know.
abbrev args : List Str
args = codes "service=shell" ∷ codes "idle*1" ∷ []

abbrev reply : Answer
reply = record { status = pass_repl; args = codes "service=shell" ∷ codes "priv-lvl=15" ∷ [] }

args_reply : author_args server args ≡ some reply
unfolding author_args negotiate apply_verdict verdict passed_through is_mandatory optional_verdict
    lookup_attrval lookup_attr answer complete
args_reply = refl

effective-author_args_example :
    (r : Output) × (negotiate server args ≡ some r)
    × (effective args reply ≡ complete server r.out_args)
effective-author_args_example = effective-author_args server args reply args_reply

abbrev output : Output
output = record { out_args = codes "service=shell" ∷ []; replaced = 1 }

Has-effective_example : Has (codes "priv-lvl=15") (effective args reply)
Has-effective_example =
    Has-effective server args reply (codes "priv-lvl=15") args_reply (inl (inl refl))

effective-Justified_example : Justified server (codes "priv-lvl=15")
effective-Justified_example =
    effective-Justified server args reply (codes "priv-lvl=15") refl args_reply (inr (inl refl))

author_args_denied_iff_example :
    (author_args server (codes "acl=9" ∷ []) ≡ none) ↔ SomeUnmatched server (codes "acl=9" ∷ [])
author_args_denied_iff_example = author_args_denied_iff server (codes "acl=9" ∷ []) refl
