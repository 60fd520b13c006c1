-- ===== src/Author/AvPairs.antt =====
-- The attribute-value pairs of an authorization: the string helpers of
-- tacacs/binaries/tac_plus-ng/author.c and the part of `do_author` that goes through the pairs.
-- Strings are lists of bytes without zero bytes; a null pointer in an attribute array is `none`.
pub mod Strings
pub mod Kept
pub mod Required
pub mod Justified
pub mod Denied
use soteria_tacacs.Prelude.{
  ℕ, zero, suc, ◌+◌, Bool, true, false, not, ◌&&◌, ◌||◌, Option, none, some, List, [], ◌∷◌, ◌++◌,
  ltb, ◌==◌, ◌!=◌, if◌then◌else◌, length, get_or, take, drop, str_eq, codes, starts_with, ℤ, pos,
  sub_ℕ, is_zero,
}

abbrev pub Str : Type 0
Str = List ℕ

-- `char **attrs` with its count, which is the list's length
abbrev pub Attrs : Type 0
Attrs = List (Option Str)

abbrev pub is_separator : ℕ → Bool
is_separator c = c == b'=' || c == b'*'

-- `*s`, which is zero at the end
abbrev pub first_char : Str → ℕ
first_char s = get_or s 0 0

unfoldable pub strcmp_a : Str → Str → ℤ
strcmp_a [] b = sub_ℕ 0 (first_char b)
strcmp_a (x ∷ a) b =
    let y = first_char b in
    let rest = strcmp_a a (drop 1 b) in
    if x != 0 && (x == y || is_separator x && is_separator y)
    then (if is_separator x then pos 0 else rest)
    else sub_ℕ x y

-- `strcspn(s, "=*")`
unfoldable pub strcspn : Str → ℕ
strcspn [] = 0
strcspn (c ∷ s) = let n = strcspn s in if is_separator c then 0 else suc n

-- The first argument that is not well-formed; `none` where `bad_nas_args` returns 0.
unfoldable pub bad_nas_args : List Str → Option Str
unfolding strcspn
bad_nas_args [] = none
bad_nas_args (a ∷ args) =
    let k = strcspn a in
    let rest = bad_nas_args args in
    if first_char a != 0 && (k == 0 || get_or a k 0 == 0) then some a else rest

unfoldable pub lookup_attrval : Attrs → Str → Option Str
unfolding str_eq
lookup_attrval [] na = none
lookup_attrval (none ∷ attrs) na = lookup_attrval attrs na
lookup_attrval (some a ∷ attrs) na =
    let rest = lookup_attrval attrs na in if str_eq na a then some a else rest

unfoldable pub clear_attrval : Attrs → Str → Attrs
unfolding str_eq
clear_attrval [] na = []
clear_attrval (none ∷ attrs) na = none ∷ clear_attrval attrs na
clear_attrval (some a ∷ attrs) na =
    let rest = clear_attrval attrs na in if str_eq na a then none ∷ attrs else some a ∷ rest

-- the loop of `lookup_attr`: an attribute whose name is the first `len` bytes of `na`
unfoldable pub lookup_name : ℕ → Attrs → Str → Option Str
unfolding starts_with
lookup_name len [] na = none
lookup_name len (none ∷ attrs) na = lookup_name len attrs na
lookup_name len (some a ∷ attrs) na =
    let rest = lookup_name len attrs na in
    if ltb len (length a) && is_separator (get_or a len 0) && starts_with (take len na) a
    then some a
    else rest

unfoldable pub lookup_attr : Attrs → Str → Option Str
unfolding lookup_name strcspn
lookup_attr attrs na =
    let len = strcspn na in
    let found = lookup_name len attrs na in if len == length na then none else found

-- The server's side: the mandatory attributes, the optional ones from the device, the optional
-- ones to add, and whether `attr_dflt` is `S_permit`.
pub record Server : Type 0 where
  pub attrs_m : Attrs
  pub attrs_o : Attrs
  pub attrs_a : Attrs
  pub permit_dflt : Bool

-- what a round of the loop does with an argument
pub data Verdict : Type 0 where
  add : Str → Verdict
  replace : Str → Verdict
  delete : Verdict
  deny : Verdict

-- "always pass these pairs through unchanged"
unfoldable pub passed_through : Str → Bool
unfolding strcmp_a
passed_through na =
    is_zero (strcmp_a na (codes "service="))
    || is_zero (strcmp_a na (codes "protocol="))
    || is_zero (strcmp_a na (codes "cmd="))

unfoldable pub is_mandatory : Str → Bool
unfolding strcspn
is_mandatory na = get_or na (strcspn na) 0 == b'='

-- `c ? c : d` for pointers, as the chain of `||` in the code
abbrev pub or_else : Option Str → Option Str → Option Str
or_else (some a) d = some a
or_else none d = d

abbrev pub or_verdict : Option Str → (Str → Verdict) → Verdict → Verdict
or_verdict (some da) f v = f da
or_verdict none f v = v

unfoldable pub mandatory_verdict : Server → Str → Verdict
mandatory_verdict s na =
    or_verdict (lookup_attrval s.attrs_m na) add (
      or_verdict (lookup_attr s.attrs_o na) (λ da. add na) (if s.permit_dflt then add na else deny))

unfoldable pub optional_verdict : Server → Str → Verdict
optional_verdict s na =
    let match = or_else (lookup_attrval s.attrs_m na) (
      or_else (lookup_attr s.attrs_m na)
        (or_else (lookup_attrval s.attrs_o na) (lookup_attr s.attrs_o na))) in
    or_verdict match replace (if s.permit_dflt then add na else delete)

unfoldable pub verdict : Server → Str → Verdict
verdict s na =
    if passed_through na
    then add na
    else if is_mandatory na
    then mandatory_verdict s na
    else optional_verdict s na

-- `out_args` with `out_cnt`, and the count `replaced`
pub record Output : Type 0 where
  pub out_args : List Str
  pub replaced : ℕ

unfoldable pub apply_verdict : Verdict → Option Output → Option Output
apply_verdict deny rest = none
apply_verdict v none = none
apply_verdict (add a) (some r) = some (record r { out_args = a ∷ r.out_args })
apply_verdict (replace a) (some r) =
    some (record { out_args = a ∷ r.out_args; replaced = suc r.replaced })
apply_verdict delete (some r) = some (record r { replaced = suc r.replaced })

-- The loop over the device's arguments; `none` is the reply that denies the request.
unfoldable pub negotiate : Server → List Str → Option Output
negotiate s [] = some (record { out_args = []; replaced = 0 })
negotiate s (na ∷ args) = apply_verdict (verdict s na) (negotiate s args)

-- `for (i = 0; i < out_cnt; i++) clear_attrval(attrs, cnt, out_args[i]);`
unfoldable pub clear_all : Attrs → List Str → Attrs
unfolding clear_attrval
clear_all attrs [] = attrs
clear_all attrs (a ∷ out) = clear_all (clear_attrval attrs a) out

-- the attributes that are still there
unfoldable pub remaining : Attrs → List Str
remaining [] = []
remaining (none ∷ attrs) = remaining attrs
remaining (some a ∷ attrs) = a ∷ remaining attrs

pub data Status : Type 0 where
  pass_add pass_repl : Status

pub record Answer : Type 0 where
  pub status : Status
  pub args : List Str

-- `out_args` after the mandatory attributes that are missing have been added
unfoldable pub with_mandatory : Server → List Str → List Str
unfolding clear_all remaining
with_mandatory s out = out ++ remaining (clear_all s.attrs_m out)

-- `out_args` after the optional attributes that are missing have been added
unfoldable pub complete : Server → List Str → List Str
unfolding clear_all remaining with_mandatory
complete s out = let out' = with_mandatory s out in out' ++ remaining (clear_all s.attrs_a out')

-- The end of `do_author`: `added` is not zero when the list has grown.
unfoldable pub answer : Server → List Str → Output → Answer
answer s in_args r =
    let out = complete s r.out_args in
    let added = length out != length r.out_args in
    if r.replaced != 0
    then record { status = pass_repl; args = out }
    else record { status = pass_add; args = if added then drop (length in_args) out else [] }

-- `none` stands for the reply that denies.
abbrev pub answer? : Server → List Str → Option Output → Option Answer
answer? s in_args none = none
answer? s in_args (some r) = some (answer s in_args r)

unfoldable pub author_args : Server → List Str → Option Answer
author_args s in_args = answer? s in_args (negotiate s in_args)
